-- ===== src/Sdk/Replayer/Load/Known.antt =====
-- What events tell stays known: the first outcome of an activity, and that a timer has fired.
use flowd_engine.Base.{ℕ, ◌≡◌, ap, some, List, [], ◌∷◌, contains, All, true, arith}
use flowd_engine.Proto.{Attributes, activity_completed, activity_failed, timer_fired, task_started}
use flowd_engine.History.Dispatch.Decode.{HistoryEvent}
use flowd_engine.Sdk.Replayer.{ActivityOutcome, Execution, outcome_of}
use flowd_engine.Sdk.Replayer.Load.{load_new_event, load_new_events}
use flowd_engine.Sdk.Replayer.Load.Laws.{IsNewOutcome}

module _ {U : Type 0} where
  -- An outcome that was known before the events stays what it is.
  module _ (start : Execution U) (id : ℕ) (o : ActivityOutcome)
      (known : outcome_of id start.activity_outcomes ≡ some o) where
    load_new_event-outcome :
        (time : ℕ) (a : Attributes) (e : Execution U)
        → IsNewOutcome start a
        → outcome_of id e.activity_outcomes ≡ some o
        → outcome_of id (load_new_event time a e).activity_outcomes ≡ some o
    unfolding load_new_event IsNewOutcome outcome_of
    load_new_event-outcome time (activity_completed id' result) e new h =
        ground (arith, ap (λ i. outcome_of i start.activity_outcomes), known, new, h)
    load_new_event-outcome time (activity_failed id' failure attempt) e new h =
        ground (arith, ap (λ i. outcome_of i start.activity_outcomes), known, new, h)
    load_new_event-outcome time task_started e new h = h
    load_new_event-outcome time _ e new h = h

    pub load_new_events-outcome :
        (evs : List HistoryEvent) (e : Execution U)
        → All (λ ev. IsNewOutcome start ev.attributes) evs
        → outcome_of id e.activity_outcomes ≡ some o
        → outcome_of id (load_new_events evs e).activity_outcomes ≡ some o
    unfolding load_new_events
    load_new_events-outcome [] e new h = h
    load_new_events-outcome (ev ∷ evs) e new h =
        load_new_events-outcome evs (load_new_event ev.event_time ev.attributes e) new.1
          (load_new_event-outcome ev.event_time ev.attributes e new.0 h)

  load_new_event-fired :
      (id time : ℕ) (a : Attributes) (e : Execution U)
      → contains id e.fired_timers ≡ true
      → contains id (load_new_event time a e).fired_timers ≡ true
  unfolding load_new_event
  load_new_event-fired id time (timer_fired id') e h = ground (arith, h)
  load_new_event-fired id time _ e h = h

  pub load_new_events-fired :
      (id : ℕ) (evs : List HistoryEvent) (e : Execution U)
      → contains id e.fired_timers ≡ true
      → contains id (load_new_events evs e).fired_timers ≡ true
  unfolding load_new_events
  load_new_events-fired id [] e h = h
  load_new_events-fired id (ev ∷ evs) e h =
      load_new_events-fired id evs (load_new_event ev.event_time ev.attributes e)
        (load_new_event-fired id ev.event_time ev.attributes e h)
