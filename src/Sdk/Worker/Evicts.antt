-- ===== src/Sdk/Worker/Evicts.antt =====
-- What the worker keeps of a run after a workflow task.
use flowd_engine.Base.{
  ℕ, ◌≡◌, refl, ap, ◌∙◌, Bool, true, false, Option, none, some, List, String, ◌⊎◌, inl, inr, arith,
}
use flowd_engine.History.Dispatch.Decode.{HistoryEvent}
use flowd_engine.Sdk.Cache.{ExecCacheKey, ExecutionCache, get, put, evict}
use flowd_engine.Sdk.Cache.Laws.{get-none}
use flowd_engine.Sdk.Cache.Once.{IsOnce, get-IsOnce, put-IsOnce, get-evict, evict-IsOnce}
use flowd_engine.Sdk.Replayer.{WorkflowPanic, Execution}
use flowd_engine.Sdk.Replayer.Run.{first_panic}
use flowd_engine.Sdk.Worker.{
  TaskFailure, PolledTask, Worker, CachedExecution, newest_event_id, still_running,
}
use flowd_engine.Sdk.Worker.Tasks.{
  Answer, completed, failed, crashed, if_rejected, advance, report_as, report,
  process_workflow_task,
}

-- A sticky answer that the server took; a worker that crashed is not asked any more.
unfoldable pub may_stay : Answer → Bool → Bool
may_stay (completed commands (some attributes)) accepted = accepted
may_stay (completed commands none) accepted = false
may_stay (failed failure) accepted = false
may_stay crashed accepted = true

module _ {U : Type 0} where
  rejected :
      (key : ExecCacheKey) (accepted : Bool) (c c' : ExecutionCache (CachedExecution U))
      → accepted ≡ false
      → (get key c').0 ≡ none
      → (get key (if_rejected accepted c c')).0 ≡ none
  rejected key false c c' h q = q
  rejected key true c c' h q = ground (arith, h)

  report_as-evicts :
      (w : Worker U) (task : PolledTask) (accepted : Bool) (type : String) (e : Execution U)
      (cache : ExecutionCache (CachedExecution U)) (p : Option WorkflowPanic) (running : Bool)
      (last : Option ℕ)
      → IsOnce cache.entries
      → may_stay (report_as w task accepted type e cache p running last).0 accepted ≡ false
      → (get task.key (report_as w task accepted type e cache p running last).1).0 ≡ none
  unfolding report_as may_stay
  report_as-evicts w task accepted type e cache (some p) running last once h =
      get-evict task.key cache once
  report_as-evicts w task true type e cache none false last once h = get-evict task.key cache once
  report_as-evicts w task false type e cache none false last once h =
      get-evict task.key (evict task.key cache) (evict-IsOnce task.key cache once)
  report_as-evicts w task accepted type e cache none true none once h = ground (arith, h)
  report_as-evicts w task accepted type e cache none true (some last) once h =
      rejected task.key accepted _ _ h
        (get-evict task.key (put task.key _ cache) (put-IsOnce task.key _ cache once))

  report-evicts :
      (w : Worker U) (task : PolledTask) (accepted : Bool) (type : String) (e : Execution U)
      (cache : ExecutionCache (CachedExecution U))
      → IsOnce cache.entries
      → may_stay (report w task accepted type e cache).0 accepted ≡ false
      → (get task.key (report w task accepted type e cache).1).0 ≡ none
  unfolding report
  report-evicts w task accepted type e cache =
      report_as-evicts w task accepted type e cache (first_panic e.coroutines) (still_running e)
        (newest_event_id task.history)

  missed_when :
      (w : Worker U) (failure : TaskFailure) (history : List HistoryEvent)
      (o : Option (CachedExecution U))
      → advance w o history ≡ inl failure
      → o ≡ none
  unfolding advance
  missed_when w failure history none q = refl
  missed_when w failure history (some c) q = ground (arith, q)

  abbrev after_round :
      Worker U
      → PolledTask
      → Bool
      → ExecutionCache (CachedExecution U)
      → TaskFailure ⊎ String × Execution U
      → Answer × ExecutionCache (CachedExecution U)
  after_round w task accepted cache (inl failure) = (failed failure, cache)
  after_round w task accepted cache (inr (type, e)) = report w task accepted type e cache

  -- Unless a workflow is still running and the server took the answer, or the worker crashed on an
  -- empty history, the worker keeps nothing of the run after a workflow task: not when the task
  -- failed or the workflow panicked, not when it ended or continued as new, and not when the
  -- server rejected the answer. The cache holds each run at most once before the task.
  pub process-evicts :
      (w : Worker U) (task : PolledTask) (accepted : Bool)
      (cache : ExecutionCache (CachedExecution U))
      → IsOnce cache.entries
      → may_stay (process_workflow_task w task accepted cache).0 accepted ≡ false
      → (get task.key (process_workflow_task w task accepted cache).1).0 ≡ none
  unfolding process_workflow_task may_stay
  process-evicts w task accepted cache once h =
      split (advance w (get task.key cache).0 task.history) refl h
    where
      split :
          (r : TaskFailure ⊎ String × Execution U)
          → advance w (get task.key cache).0 task.history ≡ r
          → may_stay (after_round w task accepted (get task.key cache).1 r).0 accepted ≡ false
          → (get task.key (after_round w task accepted (get task.key cache).1 r).1).0 ≡ none
      split (inl failure) q h =
          let missed = missed_when w failure task.history (get task.key cache).0 q in
          ap (λ x. (get task.key x.1).0) (get-none task.key cache missed) ∙ missed
      split (inr x) q h =
          report-evicts w task accepted x.0 x.1 (get task.key cache).1
            (get-IsOnce task.key cache once) h
