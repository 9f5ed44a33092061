-- ===== src/Sdk/Replayer/Load/Laws.antt =====
-- What loading events leaves alone, and what the two ways of loading them share.
use flowd_engine.Base.{
  ℕ, ◌≡◌, refl, sym, ap, ◌∙◌, none, List, [], ◌∷◌, ◌++◌, append_assoc, append-nil,
}
use flowd_engine.Proto.{
  Attributes, activity_scheduled, activity_completed, activity_failed, timer_started, timer_fired,
  task_started, cancel_requested, execution_signaled,
}
use flowd_engine.History.Dispatch.Decode.{HistoryEvent}
use flowd_engine.Sdk.Replayer.{ScheduledActivity, ScheduledTimer, Execution, outcome_of}
use flowd_engine.Sdk.Replayer.Load.{
  duration_of, load_new_event, load_new_events, load_event, load_events,
}

-- The activities and the timers that events record.
unfoldable pub activity_of : Attributes → List ScheduledActivity
activity_of (activity_scheduled cmd) =
    record { activity_id = cmd.activity_id; activity_type = cmd.activity_type } ∷ []
activity_of _ = []

unfoldable pub timer_of : Attributes → List ScheduledTimer
timer_of (timer_started st) =
    record { timer_id = st.timer_id; duration = duration_of st.duration } ∷ []
timer_of _ = []

unfoldable pub recorded_activities : List HistoryEvent → List ScheduledActivity
unfolding activity_of
recorded_activities [] = []
recorded_activities (ev ∷ evs) = activity_of ev.attributes ++ recorded_activities evs

unfoldable pub recorded_timers : List HistoryEvent → List ScheduledTimer
unfolding timer_of
recorded_timers [] = []
recorded_timers (ev ∷ evs) = timer_of ev.attributes ++ recorded_timers evs

module _ {U : Type 0} where
  -- An event reports an outcome only of an activity that has none.
  unfoldable pub IsNewOutcome : Execution U → Attributes → Type 0
  IsNewOutcome e (activity_completed id result) = outcome_of id e.activity_outcomes ≡ none
  IsNewOutcome e (activity_failed id failure attempt) = outcome_of id e.activity_outcomes ≡ none
  IsNewOutcome e _ = Unit

  -- The parts of an execution that its workflow code makes.
  abbrev pub with_code_of : Execution U → Execution U → Execution U
  with_code_of f e = record e {
    coroutines = f.coroutines;
    vars = f.vars;
    next_activity_idx = f.next_activity_idx;
    next_timer_idx = f.next_timer_idx;
    new_commands = f.new_commands;
    result = f.result;
    failure = f.failure;
    continued_as_new = f.continued_as_new;
    query_handlers = f.query_handlers;
  }

  abbrev pub with_recorded :
      List ScheduledActivity → List ScheduledTimer → Execution U → Execution U
  with_recorded xs ts e = record e { scheduled_activities = xs; scheduled_timers = ts }

  load_new_event-code :
      (f : Execution U) (time : ℕ) (a : Attributes) (e : Execution U)
      → load_new_event time a (with_code_of f e) ≡ with_code_of f (load_new_event time a e)
  unfolding load_new_event
  load_new_event-code f time task_started e = refl
  load_new_event-code f time (activity_completed id result) e = refl
  load_new_event-code f time (activity_failed id failure attempt) e = refl
  load_new_event-code f time (timer_fired id) e = refl
  load_new_event-code f time (cancel_requested reason) e = refl
  load_new_event-code f time (execution_signaled name input) e = refl
  load_new_event-code f time _ e = refl

  pub load_new_events-code :
      (f : Execution U) (evs : List HistoryEvent) (e : Execution U)
      → load_new_events evs (with_code_of f e) ≡ with_code_of f (load_new_events evs e)
  unfolding load_new_events
  load_new_events-code f [] e = refl
  load_new_events-code f (ev ∷ evs) e =
      ap (load_new_events evs) (load_new_event-code f ev.event_time ev.attributes e)
      ∙ load_new_events-code f evs (load_new_event ev.event_time ev.attributes e)

  load_event-code :
      (f : Execution U) (time : ℕ) (a : Attributes) (e : Execution U)
      → load_event time a (with_code_of f e) ≡ with_code_of f (load_event time a e)
  unfolding load_event
  load_event-code f time (activity_scheduled cmd) e = refl
  load_event-code f time (timer_started st) e = refl
  load_event-code f time a e = load_new_event-code f time a e

  pub load_events-code :
      (f : Execution U) (evs : List HistoryEvent) (e : Execution U)
      → load_events evs (with_code_of f e) ≡ with_code_of f (load_events evs e)
  unfolding load_events
  load_events-code f [] e = refl
  load_events-code f (ev ∷ evs) e =
      ap (load_events evs) (load_event-code f ev.event_time ev.attributes e)
      ∙ load_events-code f evs (load_event ev.event_time ev.attributes e)

  load_new_event-recorded :
      (xs : List ScheduledActivity) (ts : List ScheduledTimer) (time : ℕ) (a : Attributes)
      (e : Execution U)
      → load_new_event time a (with_recorded xs ts e)
        ≡ with_recorded xs ts (load_new_event time a e)
  unfolding load_new_event
  load_new_event-recorded xs ts time task_started e = refl
  load_new_event-recorded xs ts time (activity_completed id result) e = refl
  load_new_event-recorded xs ts time (activity_failed id failure attempt) e = refl
  load_new_event-recorded xs ts time (timer_fired id) e = refl
  load_new_event-recorded xs ts time (cancel_requested reason) e = refl
  load_new_event-recorded xs ts time (execution_signaled name input) e = refl
  load_new_event-recorded xs ts time _ e = refl

  pub load_new_events-recorded :
      (xs : List ScheduledActivity) (ts : List ScheduledTimer) (evs : List HistoryEvent)
      (e : Execution U)
      → load_new_events evs (with_recorded xs ts e) ≡ with_recorded xs ts (load_new_events evs e)
  unfolding load_new_events
  load_new_events-recorded xs ts [] e = refl
  load_new_events-recorded xs ts (ev ∷ evs) e =
      ap (load_new_events evs) (load_new_event-recorded xs ts ev.event_time ev.attributes e)
      ∙ load_new_events-recorded xs ts evs (load_new_event ev.event_time ev.attributes e)

  nothing_more :
      (xs : List ScheduledActivity) (ts : List ScheduledTimer) (e : Execution U)
      → with_recorded xs ts e ≡ with_recorded (xs ++ []) (ts ++ []) e
  nothing_more xs ts e =
      ap (λ ys. with_recorded ys ts e) (sym (append-nil xs))
      ∙ ap (λ ys. with_recorded (xs ++ []) ys e) (sym (append-nil ts))

  -- LoadHistory does what LoadNewEvents does, and records what was asked for.
  load_event_lem :
      (time : ℕ) (a : Attributes) (e : Execution U)
      → load_event time a e
        ≡ with_recorded
            (e.scheduled_activities ++ activity_of a)
            (e.scheduled_timers ++ timer_of a)
            (load_new_event time a e)
  unfolding load_event activity_of timer_of
  load_event_lem time (activity_scheduled cmd) e =
      ap (λ ts. with_recorded (e.scheduled_activities ++ activity_of (activity_scheduled cmd)) ts e)
        (sym (append-nil e.scheduled_timers))
  load_event_lem time (timer_started st) e =
      ap (λ xs. with_recorded xs (e.scheduled_timers ++ timer_of (timer_started st)) e)
        (sym (append-nil e.scheduled_activities))
  load_event_lem time a e =
      nothing_more e.scheduled_activities e.scheduled_timers (load_new_event time a e)

  more_recorded :
      (xs xs' ys : List ScheduledActivity) (ts ts' us : List ScheduledTimer) (e : Execution U)
      → with_recorded ((xs ++ xs') ++ ys) ((ts ++ ts') ++ us) e
        ≡ with_recorded (xs ++ (xs' ++ ys)) (ts ++ (ts' ++ us)) e
  more_recorded xs xs' ys ts ts' us e =
      ap (λ zs. with_recorded zs ((ts ++ ts') ++ us) e) (append_assoc xs xs' ys)
      ∙ ap (λ zs. with_recorded (xs ++ (xs' ++ ys)) zs e) (append_assoc ts ts' us)

  pub load_events_lem :
      (evs : List HistoryEvent) (e : Execution U)
      → load_events evs e
        ≡ with_recorded
            (e.scheduled_activities ++ recorded_activities evs)
            (e.scheduled_timers ++ recorded_timers evs)
            (load_new_events evs e)
  unfolding load_events load_new_events recorded_activities recorded_timers
  load_events_lem [] e = nothing_more e.scheduled_activities e.scheduled_timers e
  load_events_lem (ev ∷ evs) e =
      let xs = e.scheduled_activities ++ activity_of ev.attributes in
      let ts = e.scheduled_timers ++ timer_of ev.attributes in
      ap (load_events evs) (load_event_lem ev.event_time ev.attributes e)
      ∙ load_events_lem evs (with_recorded xs ts (load_new_event ev.event_time ev.attributes e))
      ∙ ap (with_recorded (xs ++ recorded_activities evs) (ts ++ recorded_timers evs))
          (load_new_events-recorded xs ts evs (load_new_event ev.event_time ev.attributes e))
      ∙ more_recorded e.scheduled_activities (activity_of ev.attributes) (recorded_activities evs)
          e.scheduled_timers (timer_of ev.attributes) (recorded_timers evs)
          (load_new_events evs (load_new_event ev.event_time ev.attributes e))

  pub load_events-append :
      (xs ys : List HistoryEvent) (e : Execution U)
      → load_events (xs ++ ys) e ≡ load_events ys (load_events xs e)
  unfolding load_events
  load_events-append [] ys e = refl
  load_events-append (ev ∷ xs) ys e =
      load_events-append xs ys (load_event ev.event_time ev.attributes e)
