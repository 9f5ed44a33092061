-- ===== src/Sdk/Worker/Queries.antt =====
-- processQueryTask of sdk/worker/worker.go, and the choice of processWorkflowTask between it and a
-- workflow task: a query is answered in memory, with no new events taken
-- in by an execution that is cached.
use flowd_engine.Base.{◌⊎◌, Bool, true, false, Option, none, some, List, inl, inr, String}
use flowd_engine.Proto.{Payload}
use flowd_engine.History.Dispatch.Decode.{HistoryEvent}
use flowd_engine.Sdk.Cache.{ExecCacheKey, ExecutionCache, get, put}
use flowd_engine.Sdk.Replayer.{Execution, payload, not_marshaled, Marshaled}
use flowd_engine.Sdk.Replayer.Handlers.{invoke_query_handler}
use flowd_engine.Sdk.Replayer.Run.{first_panic}
use flowd_engine.Sdk.Worker.{
  TaskFailure, workflow_panic, no_query_handler, query_error, PolledQuery, PolledTask, Worker,
  CachedExecution, newest_event_id, replayed, still_running,
}
use flowd_engine.Sdk.Worker.Tasks.{Answer, process_workflow_task}

pub data QueryAnswer : Type 0 where
  answered : Payload → QueryAnswer
  query_failed : TaskFailure → QueryAnswer
  query_crashed : QueryAnswer

abbrev as_answer : String → Option Marshaled → QueryAnswer
as_answer type none = query_failed (no_query_handler type)
as_answer type (some (payload p)) = answered p
as_answer type (some (not_marshaled message)) = query_failed (query_error message)

module _ {U : Type 0} where
  -- What the workflow's handler answers.
  unfoldable pub ask : PolledQuery → Execution U → QueryAnswer
  unfolding invoke_query_handler
  ask q e = as_answer q.query_type (invoke_query_handler q.query_type q.query_args e)

  -- An execution that was replayed for the query is cached while its workflow runs.
  unfoldable pub ask_replayed :
      PolledQuery
      → ExecCacheKey
      → List HistoryEvent
      → String
      → Execution U
      → ExecutionCache (CachedExecution U)
      → QueryAnswer × ExecutionCache (CachedExecution U)
  unfolding ask first_panic still_running newest_event_id put
  ask_replayed q key history type e cache = elim (first_panic e.coroutines) [
    | some p ↦ (query_failed (workflow_panic p), cache)
    | none ↦ elim (still_running e) [
      | false ↦ (ask q e, cache)
      | true ↦ elim (newest_event_id history) [
        | none ↦ (query_crashed, cache)
        | some last ↦ (
          ask q e,
          put key (record { exec = e; workflow_type = type; last_event_id = last }) cache,
        )
      ]
    ]
  ]

  unfoldable pub process_query_task :
      Worker U
      → PolledQuery
      → ExecCacheKey
      → List HistoryEvent
      → ExecutionCache (CachedExecution U)
      → QueryAnswer × ExecutionCache (CachedExecution U)
  unfolding get replayed ask_replayed
  process_query_task w q key history cache =
      let (cached, cache') = get key cache in
      elim cached [
        | some c ↦ (ask q c.exec, cache')
        | none ↦ elim (replayed w history) [
          | inl failure ↦ (query_failed failure, cache')
          | inr (type, e) ↦ ask_replayed q key history type e cache'
        ]
      ]

  -- The first test of processWorkflowTask.
  unfoldable pub process_polled :
      Worker U
      → PolledTask
      → Option PolledQuery
      → Bool
      → ExecutionCache (CachedExecution U)
      → (QueryAnswer ⊎ Answer) × ExecutionCache (CachedExecution U)
  unfolding process_query_task process_workflow_task
  process_polled w task (some q) accepted cache =
      let (answer, cache') = process_query_task w q task.key task.history cache in
      (inl answer, cache')
  process_polled w task none accepted cache =
      let (answer, cache') = process_workflow_task w task accepted cache in (inr answer, cache')
