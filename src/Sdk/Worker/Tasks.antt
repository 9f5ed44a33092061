-- ===== src/Sdk/Worker/Tasks.antt =====
-- processWorkflowTask of sdk/worker/worker.go.
use flowd_engine.Base.{
  ℕ, Bool, true, false, Option, none, some, List, ◌⊎◌, inl, inr, String, if◌then◌else◌,
}
use flowd_engine.Proto.{Command}
use flowd_engine.History.Dispatch.Decode.{HistoryEvent}
use flowd_engine.Sdk.Cache.{ExecutionCache, get, put, evict}
use flowd_engine.Sdk.Replayer.{WorkflowPanic, Execution, reset_round_output}
use flowd_engine.Sdk.Replayer.Load.{load_new_events}
use flowd_engine.Sdk.Replayer.Run.{execute_round, first_panic}
use flowd_engine.Sdk.Worker.{
  TaskFailure, workflow_panic, PolledTask, StickyExecutionAttributes, Worker, CachedExecution,
  events_after, newest_event_id, replayed, still_running,
}

-- The request that the worker sends, less the task token. `crashed`: the index into an empty
-- history.
pub data Answer : Type 0 where
  completed : List Command → Option StickyExecutionAttributes → Answer
  failed : TaskFailure → Answer
  crashed : Answer

module _ {U : Type 0} where
  -- A cache hit.
  unfoldable pub resumed : CachedExecution U → List HistoryEvent → Execution U
  unfolding reset_round_output load_new_events events_after execute_round
  resumed cached history =
      execute_round (
        load_new_events (events_after history cached.last_event_id)
          (reset_round_output cached.exec))

  -- The execution after the round, by a hit or by a miss.
  unfoldable pub advance :
      Worker U → Option (CachedExecution U) → List HistoryEvent → TaskFailure ⊎ String × Execution U
  unfolding resumed replayed
  advance w (some cached) history = inr (cached.workflow_type, resumed cached history)
  advance w none history = replayed w history

  abbrev pub sticky : Worker U → StickyExecutionAttributes
  sticky w = record {
    worker_identity = w.identity;
    schedule_to_start_timeout = w.sticky_schedule_to_start_timeout;
  }

  abbrev pub if_rejected :
      Bool → (c c' : ExecutionCache (CachedExecution U)) → ExecutionCache (CachedExecution U)
  if_rejected accepted c c' = if accepted then c else c'

  -- The answer to the round, and the cache, by the first panic, by whether the workflow still runs,
  -- and by the last event's id. `accepted`: the server takes a completed task's response.
  unfoldable pub report_as :
      Worker U
      → PolledTask
      → Bool
      → String
      → Execution U
      → ExecutionCache (CachedExecution U)
      → Option WorkflowPanic
      → Bool
      → Option ℕ
      → Answer × ExecutionCache (CachedExecution U)
  unfolding put evict
  report_as w task accepted type e cache (some p) running last =
      (failed (workflow_panic p), evict task.key cache)
  report_as w task accepted type e cache none false last =
      let cache' = evict task.key cache in
      (completed e.new_commands none, if_rejected accepted cache' (evict task.key cache'))
  report_as w task accepted type e cache none true none = (crashed, cache)
  report_as w task accepted type e cache none true (some last) =
      let entry : CachedExecution U = record {
        exec = e;
        workflow_type = type;
        last_event_id = last;
      } in
      let cache' = put task.key entry cache in
      (
        completed e.new_commands (some (sticky w)),
        if_rejected accepted cache' (evict task.key cache'),
      )

  unfoldable pub report :
      Worker U
      → PolledTask
      → Bool
      → String
      → Execution U
      → ExecutionCache (CachedExecution U)
      → Answer × ExecutionCache (CachedExecution U)
  unfolding report_as first_panic still_running newest_event_id
  report w task accepted type e cache =
      report_as w task accepted type e cache (first_panic e.coroutines) (still_running e)
        (newest_event_id task.history)

  -- A task that carries no query.
  unfoldable pub process_workflow_task :
      Worker U
      → PolledTask
      → Bool
      → ExecutionCache (CachedExecution U)
      → Answer × ExecutionCache (CachedExecution U)
  unfolding get advance report
  process_workflow_task w task accepted cache =
      let (cached, cache') = get task.key cache in
      elim (advance w cached task.history) [
        | inl failure ↦ (failed failure, cache')
        | inr (type, e) ↦ report w task accepted type e cache'
      ]
