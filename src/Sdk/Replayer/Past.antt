-- ===== src/Sdk/Replayer/Past.antt =====
-- Sequential code that has met all of the recorded history, over other lists of it.
use flowd_engine.Base.{
  suc, ◌≤◌, ◌≡◌, refl, sym, ap, ◌∙◌, String, Bool, true, false, Option, none, some, List, length,
  get_elem?-past, contains, arith,
}
use flowd_engine.Proto.{Int64, Payload}
use flowd_engine.Sdk.Replayer.{
  ActivityOutcome, ActivityOptions, ScheduledActivity, ScheduledTimer, Code, finish, stop, throw,
  schedule_activity, schedule_timer, get_activity, get_timer, now, cancellation, go,
  set_query_handler, set_signal_handler, modify, Coroutine, waiting, finished, Execution,
  outcome_of, schedule, start, schedule_against, start_against, payload, not_marshaled,
  WorkflowReturn, returned, continue_error, returned_error,
}
use flowd_engine.Sdk.Replayer.Run.{run, or_panic, conclude}
use flowd_engine.Sdk.Replayer.Parks.{IsSequential}

module _ {U : Type 0} where
  -- The execution over other coroutines and another recorded history.
  abbrev pub over :
      List (Coroutine U) → List ScheduledActivity → List ScheduledTimer → Execution U → Execution U
  over cs acts ts e = record e {
    coroutines = cs;
    scheduled_activities = acts;
    scheduled_timers = ts;
  }

  unfoldable pub IsPast : Execution U → Type 0
  IsPast e =
      (length e.scheduled_activities ≤ e.next_activity_idx)
      × (length e.scheduled_timers ≤ e.next_timer_idx)

  schedule-past :
      (type : String) (input : Option Payload) (opts : ActivityOptions) (e : Execution U)
      → length e.scheduled_activities ≤ e.next_activity_idx
      → schedule type input opts e ≡ schedule_against none type input opts e
  unfolding schedule
  schedule-past type input opts e h =
      ap (λ o. schedule_against o type input opts e)
        (get_elem?-past e.scheduled_activities e.next_activity_idx h)

  start-past :
      (d : Int64) (e : Execution U)
      → length e.scheduled_timers ≤ e.next_timer_idx
      → start d e ≡ start_against none d e
  unfolding start
  start-past d e h =
      ap (λ o. start_against o d e) (get_elem?-past e.scheduled_timers e.next_timer_idx h)

  conclude-over :
      (cs : List (Coroutine U)) (acts : List ScheduledActivity) (ts : List ScheduledTimer)
      (r : WorkflowReturn) (e : Execution U)
      → conclude r (over cs acts ts e) ≡ over cs acts ts (conclude r e)
  unfolding conclude
  conclude-over cs acts ts (returned (payload p)) e = refl
  conclude-over cs acts ts (returned (not_marshaled m)) e = refl
  conclude-over cs acts ts (continue_error type (payload p) opts) e = refl
  conclude-over cs acts ts (continue_error type (not_marshaled m) opts) e = refl
  conclude-over cs acts ts (returned_error m type) e = refl

  pub run-over :
      (cs : List (Coroutine U)) (acts : List ScheduledActivity) (ts : List ScheduledTimer)
      (c : Code U)
      → IsSequential c
      → (e : Execution U) → IsPast e
      → IsPast (over cs acts ts e)
      → run c (over cs acts ts e) ≡ ((run c e).0, over cs acts ts (run c e).1)
  unfolding run IsSequential IsPast
  run-over cs acts ts (finish r) s e p q = ap (λ x. (finished, x)) (conclude-over cs acts ts r e)
  run-over cs acts ts stop s e p q = refl
  run-over cs acts ts (throw m) s e p q = refl
  run-over cs acts ts (schedule_activity type input opts k) s e p q =
      ap (λ x. or_panic x.0 (run (k (suc e.next_activity_idx)) x.1) x.1)
        (schedule-past type input opts (over cs acts ts e) q.0)
      ∙ run-over cs acts ts (k (suc e.next_activity_idx)) (s _)
          (schedule_against none type input opts e).1 (omega (arith, p.0), p.1)
          (omega (arith, q.0), q.1)
      ∙ ap
          (λ x.
            let y = or_panic x.0 (run (k (suc e.next_activity_idx)) x.1) x.1 in
            (y.0, over cs acts ts y.1))
          (sym (schedule-past type input opts e p.0))
  run-over cs acts ts (schedule_timer d k) s e p q =
      ap (λ x. or_panic x.0 (run (k (suc e.next_timer_idx)) x.1) x.1)
        (start-past d (over cs acts ts e) q.1)
      ∙ run-over cs acts ts (k (suc e.next_timer_idx)) (s _) (start_against none d e).1
          (p.0, omega (arith, p.1)) (q.0, omega (arith, q.1))
      ∙ ap
          (λ x.
            let y = or_panic x.0 (run (k (suc e.next_timer_idx)) x.1) x.1 in
            (y.0, over cs acts ts y.1))
          (sym (start-past d e p.1))
  run-over cs acts ts (get_activity id k) s e p q =
      split (λ o. run-over cs acts ts (k o) (s o) e p q) (outcome_of id e.activity_outcomes)
    where
      split :
          ((o : ActivityOutcome)
            → run (k o) (over cs acts ts e) ≡ ((run (k o) e).0, over cs acts ts (run (k o) e).1))
          → (o : Option ActivityOutcome)
          → (elim o as (λ _. Coroutine U × Execution U) [
            | none ↦ (waiting (get_activity id k), over cs acts ts e)
            | some o ↦ run (k o) (over cs acts ts e)
          ])
            ≡ (let x : Coroutine U × Execution U = elim o as (λ _. Coroutine U × Execution U) [
              | none ↦ (waiting (get_activity id k), e)
              | some o ↦ run (k o) e
            ] in
                (x.0, over cs acts ts x.1))
      split ih none = refl
      split ih (some o) = ih o
  run-over cs acts ts (get_timer id k) s e p q =
      split (run-over cs acts ts k s e p q) (contains id e.fired_timers)
    where
      split :
          (run k (over cs acts ts e) ≡ ((run k e).0, over cs acts ts (run k e).1))
          → (b : Bool)
          → (elim b as (λ _. Coroutine U × Execution U) [
            | false ↦ (waiting (get_timer id k), over cs acts ts e)
            | true ↦ run k (over cs acts ts e)
          ])
            ≡ (let x : Coroutine U × Execution U = elim b as (λ _. Coroutine U × Execution U) [
              | false ↦ (waiting (get_timer id k), e)
              | true ↦ run k e
            ] in
                (x.0, over cs acts ts x.1))
      split ih false = refl
      split ih true = ih
  run-over cs acts ts (now k) s e p q = elim s [ ]
  run-over cs acts ts (cancellation k) s e p q = elim s [ ]
  run-over cs acts ts (go child k) s e p q = elim s [ ]
  run-over cs acts ts (set_query_handler type h k) s e p q = run-over cs acts ts k s _ p q
  run-over cs acts ts (set_signal_handler name h k) s e p q = elim s [ ]
  run-over cs acts ts (modify g k) s e p q = run-over cs acts ts (k (g e.vars)) (s _) _ p q
