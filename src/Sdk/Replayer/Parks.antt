-- ===== src/Sdk/Replayer/Parks.antt =====
-- A run of sequential workflow code up to the Yield that it parks in, one call of package workflow
-- after another.
pub mod Grown
use flowd_engine.Base.{
  get_elem?, str_eq, ◌==◌, ◌&&◌, if◌then◌else◌, [], append-nil, append_assoc, ◌∙◌, ℕ, zero, suc,
  ◌+◌, ◌≡◌, refl, sym, ap, subst, String, Bool, true, false, Option, none, some, List, ◌∷◌, ◌++◌,
  contains, arith,
}
use flowd_engine.Proto.{Command, start_timer, Int64, Payload}
use flowd_engine.Sdk.Replayer.{
  WorkflowPanic, ActivityOutcome, ActivityOptions, WorkflowReturn, Code, finish, stop, throw,
  schedule_activity, schedule_timer, get_activity, get_timer, now, cancellation, go,
  set_query_handler, set_signal_handler, modify, QueryHandler, Coroutine, waiting, pump, finished,
  panicked, Execution, ScheduledActivity, ScheduledTimer, activity_mismatch, timer_mismatch,
  command_of, outcome_of, schedule, start, schedule_against, start_against,
}
use flowd_engine.Sdk.Replayer.Run.{run, or_panic}

module _ {U : Type 0} where
  -- Code of one coroutine that reads neither the time nor a cancellation, and handles no signal.
  unfoldable pub IsSequential : Code U → Type 0
  IsSequential (finish r) = Unit
  IsSequential stop = Unit
  IsSequential (throw m) = Unit
  IsSequential (schedule_activity type input opts k) = (id : ℕ) → IsSequential (k id)
  IsSequential (schedule_timer d k) = (id : ℕ) → IsSequential (k id)
  IsSequential (get_activity id k) = (o : ActivityOutcome) → IsSequential (k o)
  IsSequential (get_timer id k) = IsSequential k
  IsSequential (now k) = ⊥
  IsSequential (cancellation k) = ⊥
  IsSequential (go child k) = ⊥
  IsSequential (set_query_handler type h k) = IsSequential k
  IsSequential (set_signal_handler name h k) = ⊥
  IsSequential (modify f k) = (u : U) → IsSequential (k u)

  -- From the code and the execution to what is parked and the execution then.
  pub data Parks (c' : Code U) (f : Execution U) : Code U → Execution U → Type 0 where
    parked : Parks c' f c' f
    scheduled :
        (type : String) (input : Option Payload) (opts : ActivityOptions) (k : ℕ → Code U)
        (e : Execution U)
        → (schedule type input opts e).0 ≡ none
        → Parks c' f (k (suc e.next_activity_idx)) (schedule type input opts e).1
        → Parks c' f (schedule_activity type input opts k) e
    started :
        (d : Int64) (k : ℕ → Code U) (e : Execution U)
        → (start d e).0 ≡ none
        → Parks c' f (k (suc e.next_timer_idx)) (start d e).1
        → Parks c' f (schedule_timer d k) e
    got :
        (id : ℕ) (k : ActivityOutcome → Code U) (e : Execution U) (o : ActivityOutcome)
        → outcome_of id e.activity_outcomes ≡ some o
        → Parks c' f (k o) e
        → Parks c' f (get_activity id k) e
    passed :
        (id : ℕ) (k : Code U) (e : Execution U)
        → contains id e.fired_timers ≡ true
        → Parks c' f k e
        → Parks c' f (get_timer id k) e
    answering :
        (type : String) (h : QueryHandler U) (k : Code U) (e : Execution U)
        → Parks c' f k (record e { query_handlers = (type, h) ∷ e.query_handlers })
        → Parks c' f (set_query_handler type h k) e
    modified :
        (g : U → U) (k : U → Code U) (e : Execution U)
        → Parks c' f (k (g e.vars)) (record e { vars = g e.vars })
        → Parks c' f (modify g k) e

  abbrev code_of : Coroutine U → Code U
  code_of (waiting c) = c
  code_of _ = stop

  parked_at :
      (c : Code U) (e : Execution U) (c' : Code U) (f : Execution U)
      → ◌≡◌ {A = Coroutine U × Execution U} (waiting c, e) (waiting c', f)
      → Parks c' f c e
  parked_at c e c' f h = subst (λ p. Parks (code_of p.0) p.1 c e) h parked

  -- What follows a call that may panic.
  after :
      (p : Option WorkflowPanic) (rest : Coroutine U × Execution U) (e : Execution U) (c' : Code U)
      (f : Execution U)
      → or_panic p rest e ≡ (waiting c', f)
      → (p ≡ none) × (rest ≡ (waiting c', f))
  after none rest e c' f h = (refl, h)
  after (some p) rest e c' f h = ground (arith, h)

  pub run-Parks :
      (c : Code U)
      → IsSequential c
      → (e : Execution U) (c' : Code U) (f : Execution U) → run c e ≡ (waiting c', f)
      → Parks c' f c e
  unfolding run IsSequential
  run-Parks (finish r) s e c' f h = ground (arith, h)
  run-Parks stop s e c' f h = ground (arith, h)
  run-Parks (throw m) s e c' f h = ground (arith, h)
  run-Parks (schedule_activity type input opts k) s e c' f h =
      let (no_panic, rest) = after (schedule type input opts e).0 _ _ c' f h in
      scheduled type input opts k e no_panic
        (run-Parks (k (suc e.next_activity_idx)) (s _) _ c' f rest)
  run-Parks (schedule_timer d k) s e c' f h =
      let (no_panic, rest) = after (start d e).0 _ _ c' f h in
      started d k e no_panic (run-Parks (k (suc e.next_timer_idx)) (s _) _ c' f rest)
  run-Parks (get_activity id k) s e c' f h =
      split (λ o. run-Parks (k o) (s o) e c' f) (outcome_of id e.activity_outcomes) refl h
    where
      split :
          ((o : ActivityOutcome) → run (k o) e ≡ (waiting c', f) → Parks c' f (k o) e)
          → (o : Option ActivityOutcome) → outcome_of id e.activity_outcomes ≡ o
          → (elim o as (λ _. Coroutine U × Execution U) [
            | none ↦ (waiting (get_activity id k), e)
            | some o ↦ run (k o) e
          ])
            ≡ (waiting c', f)
          → Parks c' f (get_activity id k) e
      split ih none q h = parked_at (get_activity id k) e c' f h
      split ih (some o) q h = got id k e o q (ih o h)
  run-Parks (get_timer id k) s e c' f h =
      split (run-Parks k s e c' f) (contains id e.fired_timers) refl h
    where
      split :
          (run k e ≡ (waiting c', f) → Parks c' f k e)
          → (b : Bool) → contains id e.fired_timers ≡ b
          → (elim b as (λ _. Coroutine U × Execution U) [
            | false ↦ (waiting (get_timer id k), e)
            | true ↦ run k e
          ])
            ≡ (waiting c', f)
          → Parks c' f (get_timer id k) e
      split ih false q h = parked_at (get_timer id k) e c' f h
      split ih true q h = passed id k e q (ih h)
  run-Parks (now k) s e c' f h = elim s [ ]
  run-Parks (cancellation k) s e c' f h = elim s [ ]
  run-Parks (go child k) s e c' f h = elim s [ ]
  run-Parks (set_query_handler type q k) s e c' f h = answering type q k e (run-Parks k s _ c' f h)
  run-Parks (set_signal_handler name q k) s e c' f h = elim s [ ]
  run-Parks (modify g k) s e c' f h =
      modified g k e (run-Parks (k (g e.vars)) (s (g e.vars)) _ c' f h)
