-- ===== src/Sdk/Replayer/Run.antt =====
-- The dispatcher of sdk/internal/replayer/dispatcher.go: a coroutine runs until it yields, ends or
-- panics, and a round resumes each one that was there when it began.

use flowd_engine.Base.{
  ℕ, zero, suc, String, true, false, Option, none, some, List, [], ◌∷◌, ◌++◌, contains, get_elem?,
  set_elem, length,
}
use flowd_engine.Proto.{Failure}
use flowd_engine.Sdk.Replayer.{
  WorkflowPanic, other_panic, payload, not_marshaled, WorkflowReturn, returned, continue_error,
  returned_error, Code, finish, stop, throw, schedule_activity, schedule_timer, get_activity,
  get_timer, now, cancellation, go, set_query_handler, set_signal_handler, modify, Coroutine,
  waiting, pump, finished, panicked, Execution, outcome_of, schedule, start, complete,
  continue_as_new,
}
use flowd_engine.Sdk.Replayer.Handlers.{drain_signals}

abbrev marshal_error_failure : String → Option Failure
marshal_error_failure m = some (record { message = m; type = "MarshalError" })

module _ {U : Type 0} where
  -- What runWorkflowFunc (sdk/worker/replay.go) does with what the function returned.
  unfoldable pub conclude : WorkflowReturn → Execution U → Execution U
  unfolding complete continue_as_new
  conclude (returned (payload p)) e = complete (some p) none e
  conclude (returned (not_marshaled m)) e = complete none (marshal_error_failure m) e
  conclude (continue_error type (payload p) opts) e = continue_as_new type (some p) opts e
  conclude (continue_error type (not_marshaled m) opts) e =
      complete none (marshal_error_failure m) e
  conclude (returned_error message type) e =
      complete none (some (record { message = message; type = type })) e

  -- Dispatcher.Go: the coroutine waits for a later round.
  unfoldable pub spawn : Coroutine U → Execution U → Execution U
  spawn c e = record e { coroutines = e.coroutines ++ c ∷ [] }

  -- SetSignalHandler: the handler is entered, the backlog delivered, the pump started once.
  unfoldable pub register_signal_handler :
      Option WorkflowPanic × Execution U → Option WorkflowPanic × Execution U
  unfolding spawn
  register_signal_handler (some p, e) = (some p, e)
  register_signal_handler (none, e) = elim e.signal_pump_started [
    | true ↦ (none, e)
    | false ↦ (none, spawn pump (record e { signal_pump_started = true }))
  ]

  abbrev pub or_panic :
      Option WorkflowPanic → Coroutine U × Execution U → Execution U → Coroutine U × Execution U
  or_panic none rest e = rest
  or_panic (some p) rest e = (panicked p, e)

  -- The code runs on to its next Yield, its end or its panic.
  unfoldable pub run : Code U → Execution U → Coroutine U × Execution U
  unfolding conclude schedule start outcome_of spawn register_signal_handler drain_signals
  run (finish r) e = (finished, conclude r e)
  run stop e = (finished, e)
  run (throw m) e = (panicked (other_panic m), e)
  run (schedule_activity type input opts k) e =
      let (p, e') = schedule type input opts e in
      or_panic p (run (k (suc e.next_activity_idx)) e') e'
  run (schedule_timer d k) e =
      let (p, e') = start d e in or_panic p (run (k (suc e.next_timer_idx)) e') e'
  run (get_activity id k) e = elim (outcome_of id e.activity_outcomes) [
    | none ↦ (waiting (get_activity id k), e)
    | some o ↦ run (k o) e
  ]
  run (get_timer id k) e = elim (contains id e.fired_timers) [
    | false ↦ (waiting (get_timer id k), e)
    | true ↦ run k e
  ]
  run (now k) e = run (k e.now_time) e
  run (cancellation k) e = run (k e.is_cancel_requested e.cancel_reason) e
  run (go child k) e = run k (spawn (waiting child) e)
  run (set_query_handler type h k) e =
      run k (record e { query_handlers = (type, h) ∷ e.query_handlers })
  run (set_signal_handler name h k) e =
      let (p, e') =
        register_signal_handler
          (drain_signals (record e { signal_handlers = (name, h) ∷ e.signal_handlers })) in
      or_panic p (run k e') e'
  run (modify f k) e = run (k (f e.vars)) (record e { vars = f e.vars })

  abbrev pumped : Option WorkflowPanic → Coroutine U
  pumped none = pump
  pumped (some p) = panicked p

  unfoldable pub resume : Coroutine U → Execution U → Coroutine U × Execution U
  unfolding run drain_signals
  resume (waiting c) e = run c e
  resume pump e = let (p, e') = drain_signals e in (pumped p, e')
  resume finished e = (finished, e)
  resume (panicked p) e = (panicked p, e)

  -- The turn of the i-th coroutine.
  unfoldable pub resume_at : ℕ → Execution U → Execution U
  unfolding resume
  resume_at i e = elim (get_elem? e.coroutines i) [
    | none ↦ e
    | some c ↦ let (c', e') = resume c e in record e' { coroutines = set_elem e'.coroutines i c' }
  ]

  unfoldable pub resume_each : ℕ → ℕ → Execution U → Execution U
  unfolding resume_at
  resume_each i zero e = e
  resume_each i (suc n) e = resume_each (suc i) n (resume_at i e)

  -- `range d.coroutines` is evaluated when the round begins.
  unfoldable pub execute_round : Execution U → Execution U
  unfolding resume_each
  execute_round e = resume_each 0 (length e.coroutines) e

  unfoldable pub first_panic : List (Coroutine U) → Option WorkflowPanic
  first_panic [] = none
  first_panic (panicked p ∷ cs) = some p
  first_panic (_ ∷ cs) = first_panic cs
