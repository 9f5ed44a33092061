-- ===== src/Sdk/Worker/Golden/Agrees.antt =====
-- ReplayWorkflowHistory against the replay of a worker.
use flowd_engine.Base.{
  ℕ, ◌≡◌, ◌↔◌, Bool, true, false, Option, none, some, String, ◌⊎◌, inl, inr, arith,
}
use flowd_engine.Sdk.Cache.{ExecutionCache, get}
use flowd_engine.Sdk.Replayer.{WorkflowPanic, Execution, new_execution}
use flowd_engine.Sdk.Replayer.Handlers.{handler_of}
use flowd_engine.Sdk.Replayer.Load.{load_history, run_of}
use flowd_engine.Sdk.Replayer.Run.{first_panic}
use flowd_engine.Sdk.Worker.{
  TaskFailure, workflow_panic, input_unmarshal, PolledTask, WorkflowFunc, Worker, CachedExecution,
  replayed, replay_as, run_workflow_func, still_running, newest_event_id,
}
use flowd_engine.Sdk.Worker.Tasks.{
  Answer, failed, advance, report_as, report, process_workflow_task,
}
use flowd_engine.Sdk.Worker.Golden.{
  ReplayResult, replay_input_unmarshal, replay_panic, outcome_after, replay_workflow_history,
}

module _ {U : Type 0} where
  report_as-panic :
      (w : Worker U) (task : PolledTask) (accepted : Bool) (type : String) (e : Execution U)
      (cache : ExecutionCache (CachedExecution U)) (o : Option WorkflowPanic) (running : Bool)
      (last : Option ℕ) (p : WorkflowPanic)
      → ((report_as w task accepted type e cache o running last).0 ≡ failed (workflow_panic p))
        ↔ (o ≡ some p)
  unfolding report_as
  report_as-panic w task accepted type e cache (some q) running last p = ground arith
  report_as-panic w task accepted type e cache none false last p = ground arith
  report_as-panic w task accepted type e cache none true none p = ground arith
  report_as-panic w task accepted type e cache none true (some last) p = ground arith

  outcome_after-panic :
      (e : Execution U) (p : WorkflowPanic)
      → (outcome_after e ≡ replay_panic p) ↔ (first_panic e.coroutines ≡ some p)
  unfolding outcome_after
  outcome_after-panic e p = ground arith

  -- What a worker's miss does, by what the function makes of the input and the events.
  after_miss :
      (w : Worker U) (task : PolledTask) (accepted : Bool) (type : String)
      (cache : ExecutionCache (CachedExecution U)) (r : String ⊎ Execution U) (p : WorkflowPanic)
      → ((elim (elim r as (λ _. TaskFailure ⊎ String × Execution U) [
        | inl message ↦ inl (input_unmarshal message)
        | inr e ↦ inr (type, e)
      ])
            as (λ _. Answer × ExecutionCache (CachedExecution U)) [
              | inl failure ↦ (failed failure, cache)
              | inr x ↦ report w task accepted x.0 x.1 cache
            ]).0
          ≡ failed (workflow_panic p))
        ↔ ((elim r as (λ _. ReplayResult) [
          | inl message ↦ replay_input_unmarshal message
          | inr e ↦ outcome_after e
        ])
            ≡ replay_panic p)
  unfolding report
  after_miss w task accepted type cache (inl message) p = ground arith
  after_miss w task accepted type cache (inr e) p =
      let a =
        report_as-panic w task accepted type e cache (first_panic e.coroutines) (still_running e)
          (newest_event_id task.history) p in
      let b = outcome_after-panic e p in (λ h. b.1 (a.0 h), λ h. a.1 (b.0 h))

  -- A worker that has a function registered for the run's workflow type and has not cached the run
  -- answers the run's task with a panic exactly when the same function, replayed over the same
  -- history without a server, ends in that panic.
  pub answer-replay :
      (w : Worker U) (task : PolledTask) (fn : WorkflowFunc U) (accepted : Bool)
      (cache : ExecutionCache (CachedExecution U)) (p : WorkflowPanic)
      → handler_of (run_of task.history (none, "")).1 w.workflows ≡ some fn
      → (get task.key cache).0 ≡ none
      → ((process_workflow_task w task accepted cache).0 ≡ failed (workflow_panic p))
        ↔ (replay_workflow_history task.history fn ≡ replay_panic p)
  unfolding process_workflow_task advance replayed replay_as replay_workflow_history
  answer-replay w task fn accepted cache p h q =
      rw (q, process_workflow_task)
        (rw (h, replay_as)
          (after_miss w task accepted (run_of task.history (none, "")).1 (get task.key cache).1
            (run_workflow_func fn (run_of task.history (none, "")).0
              (load_history task.history (new_execution fn.variables)).1)
            p))
