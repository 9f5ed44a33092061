-- ===== src/Sdk/Replayer/Sticky.antt =====
-- An execution that was kept, against one that is replayed from the first event: sdk/worker's
-- sticky cache chooses between the two.
pub mod Resume
use flowd_engine.Base.{
  ℕ, zero, suc, ◌+◌, ◌≤◌, ◌≡◌, refl, sym, ap, ◌∙◌, subst, inl, Option, none, some, List, [], ◌∷◌,
  ◌++◌, length, length-append, contains, get_elem?, set_elem, All, arith,
}
use flowd_engine.History.Dispatch.Decode.{HistoryEvent}
use flowd_engine.Sdk.Replayer.{
  Code, Coroutine, waiting, Execution, new_execution, reset_round_output, ScheduledActivity,
  ScheduledTimer, outcome_of,
}
use flowd_engine.Sdk.Replayer.Load.{load_history, load_events, load_new_events}
use flowd_engine.Sdk.Replayer.Load.Laws.{
  recorded_activities, recorded_timers, IsNewOutcome, with_code_of, with_recorded,
  load_new_events-code, load_events-code, load_events_lem, load_events-append,
  load_new_events-recorded,
}
use flowd_engine.Sdk.Replayer.Load.Known.{load_new_events-outcome, load_new_events-fired}
use flowd_engine.Sdk.Replayer.Run.{run, spawn, resume, resume_at, resume_each, execute_round}
use flowd_engine.Sdk.Replayer.Recorded.{activities_of, timers_of}
use flowd_engine.Sdk.Replayer.Parks.{IsSequential, Parks, run-Parks}
use flowd_engine.Sdk.Replayer.Parks.Grown.{grown, Parks-grown, Parks-IsSequential}
use flowd_engine.Sdk.Replayer.Ready.{Ready, InStep-at}
use flowd_engine.Sdk.Replayer.Later.{later, Parks-later, Parks-Ready}
use flowd_engine.Sdk.Replayer.Past.{over, IsPast, run-over}

module _ {U : Type 0} where
  -- A new execution of the workflow's code, with the history loaded.
  unfoldable pub begin : Code U → U → List HistoryEvent → Execution U
  unfolding load_history new_execution spawn
  begin c u evs = spawn (waiting c) (load_history evs (new_execution u)).1

  begin_lem :
      (c : Code U) (u : U) (evs : List HistoryEvent)
      → begin c u evs ≡ load_events evs (begin c u [])
  unfolding begin
  begin_lem c u evs =
      ap (spawn (waiting c)) (load_events-code (new_execution u) evs (new_execution u))
      ∙ sym (load_events-code (begin c u []) evs (new_execution u))

  pub begin-code :
      (c : Code U) (u : U) (evs : List HistoryEvent)
      → begin c u evs ≡ with_code_of (begin c u []) (begin c u evs)
  begin-code c u evs =
      begin_lem c u evs
      ∙ load_events-code (begin c u []) evs (begin c u [])
      ∙ ap (with_code_of (begin c u [])) (sym (begin_lem c u evs))

  begin-append :
      (c : Code U) (u : U) (xs ys : List HistoryEvent)
      → begin c u (xs ++ ys) ≡ load_events ys (begin c u xs)
  begin-append c u xs ys =
      begin_lem c u (xs ++ ys)
      ∙ load_events-append xs ys (begin c u [])
      ∙ ap (load_events ys) (sym (begin_lem c u xs))

  -- What the turn of the only coroutine leaves.
  abbrev pub put_back : Coroutine U × Execution U → Execution U
  put_back (c, e) = record e { coroutines = set_elem e.coroutines 0 c }

  pub round_of_one :
      (c : Code U) (e : Execution U)
      → e.coroutines ≡ waiting c ∷ []
      → execute_round e ≡ put_back (run c e)
  unfolding execute_round resume_each resume_at resume
  round_of_one c e h = rw h refl

  pub full_lem :
      (c : Code U) (u : U) (xs ys : List HistoryEvent)
      → begin c u (xs ++ ys)
        ≡ with_recorded
            ((begin c u xs).scheduled_activities ++ recorded_activities ys)
            ((begin c u xs).scheduled_timers ++ recorded_timers ys)
            (load_new_events ys (begin c u xs))
  full_lem c u xs ys = begin-append c u xs ys ∙ load_events_lem ys (begin c u xs)

  -- `f`, the execution of code that was begun over the events `xs` and has parked in `c'`, is
  -- behind by the events `ys`: they record what it asked for.
  pub record Parked (c : Code U) (u : U) (xs ys : List HistoryEvent) (c' : Code U) (f : Execution U)
      : Type 0 where
    pub sequential : IsSequential c
    pub ran : run c (begin c u xs) ≡ (waiting c', f)
    pub met_activities : length (begin c u xs).scheduled_activities ≤ f.next_activity_idx
    pub met_timers : length (begin c u xs).scheduled_timers ≤ f.next_timer_idx
    pub asked : recorded_activities ys ≡ activities_of f.new_commands
    pub timers_asked : recorded_timers ys ≡ timers_of f.new_commands
    pub new_outcomes : All (λ ev. IsNewOutcome (begin c u xs) ev.attributes) ys

  pub begin-Ready :
      (c : Code U) (u : U) (xs ys : List HistoryEvent) (c' : Code U) (f : Execution U)
      → Parked c u xs ys c' f
      → Ready (begin c u (xs ++ ys)) f (begin c u xs)
  unfolding begin activities_of timers_of
  begin-Ready c u xs ys c' f p = record {
    in_step = inl (
      omega (arith, ap (λ e. e.next_activity_idx) (begin-code c u xs)),
      ap (λ e. length (activities_of e.new_commands)) (begin-code c u xs),
    );
    timers_in_step = inl (
      omega (arith, ap (λ e. e.next_timer_idx) (begin-code c u xs)),
      ap (λ e. length (timers_of e.new_commands)) (begin-code c u xs),
    );
    activities =
        ap (λ e. e.scheduled_activities) (full_lem c u xs ys)
        ∙ ap (◌++◌ (begin c u xs).scheduled_activities) p.asked;
    timers =
        ap (λ e. e.scheduled_timers) (full_lem c u xs ys)
        ∙ ap (◌++◌ (begin c u xs).scheduled_timers) p.timers_asked;
    outcomes = λ id o known.
        ap (λ e. outcome_of id e.activity_outcomes) (full_lem c u xs ys)
        ∙ load_new_events-outcome (begin c u xs) id o known ys (begin c u xs) p.new_outcomes known;
    fired = λ id known.
        ap (λ e. contains id e.fired_timers) (full_lem c u xs ys)
        ∙ load_new_events-fired id ys (begin c u xs) known;
  }

  -- The kept execution, made ready for the round after.
  abbrev pub kept : Code U → Execution U → List HistoryEvent → Execution U
  kept c' f ys = load_new_events ys (reset_round_output (record f { coroutines = waiting c' ∷ [] }))

  pub kept_lem :
      (c : Code U) (u : U) (xs ys : List HistoryEvent) (c' : Code U) (f : Execution U)
      → Parked c u xs ys c' f
      → kept c' f ys
        ≡ with_code_of
            (reset_round_output (record f { coroutines = waiting c' ∷ [] }))
            (load_new_events ys (begin c u xs))
  unfolding reset_round_output
  kept_lem c u xs ys c' f p =
      ap (λ e. load_new_events ys (reset_round_output (record e { coroutines = waiting c' ∷ [] })))
        (Parks-grown c' f c (begin c u xs) (run-Parks c p.sequential (begin c u xs) c' f p.ran))
      ∙ load_new_events-code (reset_round_output (record f { coroutines = waiting c' ∷ [] })) ys
          (begin c u xs)

  pub later_lem :
      (c : Code U) (u : U) (xs ys : List HistoryEvent) (c' : Code U) (f : Execution U)
      → Parked c u xs ys c' f
      → later (begin c u (xs ++ ys)) f
        ≡ over
            (waiting c ∷ [])
            (begin c u (xs ++ ys)).scheduled_activities
            (begin c u (xs ++ ys)).scheduled_timers
            (kept c' f ys)
  unfolding begin reset_round_output
  later_lem c u xs ys c' f p =
      let e = begin c u (xs ++ ys) in
      let w = reset_round_output (record f { coroutines = waiting c' ∷ [] }) in
      ap (λ g. later g f) (begin-code c u (xs ++ ys))
      ∙ ap (λ g. over (waiting c ∷ []) e.scheduled_activities e.scheduled_timers (with_code_of w g))
          (full_lem c u xs ys)
      ∙ ap (over (waiting c ∷ []) e.scheduled_activities e.scheduled_timers)
          (sym (kept_lem c u xs ys c' f p))

  pub kept-IsPast :
      (c : Code U) (u : U) (xs ys : List HistoryEvent) (c' : Code U) (f : Execution U)
      → Parked c u xs ys c' f
      → IsPast (kept c' f ys)
  unfolding IsPast reset_round_output
  kept-IsPast c u xs ys c' f p =
      let b = begin c u xs in
      let w = reset_round_output (record f { coroutines = waiting c' ∷ [] }) in
      subst IsPast
        (sym (
          kept_lem c u xs ys c' f p
          ∙ ap (with_code_of w)
              (load_new_events-recorded b.scheduled_activities b.scheduled_timers ys b)))
        (p.met_activities, p.met_timers)

  pub later-IsPast :
      (c : Code U) (u : U) (xs ys : List HistoryEvent) (c' : Code U) (f : Execution U)
      → Parked c u xs ys c' f
      → IsPast (later (begin c u (xs ++ ys)) f)
  unfolding IsPast
  later-IsPast c u xs ys c' f p =
      let parks = run-Parks c p.sequential (begin c u xs) c' f p.ran in
      let same = Parks-grown c' f c (begin c u xs) parks in
      let ready : Ready (begin c u (xs ++ ys)) f f =
        Parks-Ready c' f c (begin c u xs) (begin c u (xs ++ ys)) parks
          (begin-Ready c u xs ys c' f p) in
      (
        omega (
          arith,
          ap length ready.activities,
          length-append f.scheduled_activities (activities_of f.new_commands),
          InStep-at _ _ _ ready.in_step (
              subst (λ e. length e.scheduled_activities ≤ f.next_activity_idx) (sym same)
                p.met_activities),
        ),
        omega (
          arith,
          ap length ready.timers,
          length-append f.scheduled_timers (timers_of f.new_commands),
          InStep-at _ _ _ ready.timers_in_step
              (subst (λ e. length e.scheduled_timers ≤ f.next_timer_idx) (sym same) p.met_timers),
        ),
      )

  pub later-begin :
      (c : Code U) (u : U) (xs ys : List HistoryEvent)
      → begin c u (xs ++ ys) ≡ later (begin c u (xs ++ ys)) (begin c u xs)
  unfolding begin
  later-begin c u xs ys =
      let g = begin c u (xs ++ ys) in
      begin-code c u (xs ++ ys)
      ∙ ap (λ e. later e (begin c u [])) (sym (begin-code c u (xs ++ ys)))
      ∙ ap (later g) (sym (begin-code c u xs))
