-- ===== src/History/WorkflowQuery.antt =====
-- internal/history/workflow_query.go: queries, which never touch history_events.
use flowd_engine.Base.{ℕ, String, Bool, true, false, Option, some, none, [], ◌∷◌, if◌then◌else◌}
use flowd_engine.Base.Result.{
  workflow_not_found, task_lease_expired, wrong_token_kind, unmarshal_error, Result, ok, err, Tx,
  ◌>>=◌, pure, renamed, no_rows_as, nonzero,
}
use flowd_engine.Proto.{External, Payload, Bytes}
use flowd_engine.Db.Types.{Db, TaskStatus, QueryTask}
use flowd_engine.Db.Executions.{get_workflow_execution}
use flowd_engine.Db.QueryTasks.{
  enqueue_query_task, get_query_task, delete_query_task_row, complete_query_task, fail_query_task,
}
use flowd_engine.History.Signal.{resolve_run}
use flowd_engine.History.Start.{run_key}
use flowd_engine.History.Store.{Store, State, with_tx, with_namespace, then_notify}
use flowd_engine.History.TaskToken.{TaskToken, TaskTokenKind, query}

pub record EnqueueQueryParams : Type 0 where
  pub namespace : String
  pub workflow_id : String
  pub run_id : String
  pub query_type : String
  pub query_args : Option Payload

-- Two reads and one insert; only the insert writes, so one transaction does what they do.
unfoldable pub enqueue_query_tx : Store → ℕ → ℕ → EnqueueQueryParams → Tx Db QueryTask
unfolding resolve_run get_workflow_execution enqueue_query_task
enqueue_query_tx s now ns p = do
  run_id ← renamed (no_rows_as workflow_not_found) (resolve_run ns p.workflow_id p.run_id)
  we ←
      renamed (no_rows_as workflow_not_found)
        (get_workflow_execution (run_key ns p.workflow_id run_id))
  enqueue_query_task now (run_key ns p.workflow_id run_id) we.task_queue p.query_type
      (s.ext.marshal_payload p.query_args)

abbrev query_id : ℕ → Result QueryTask × State → Result (ℕ × ℕ) × State
query_id ns (ok row, st) = (ok (ns, row.task_id), st)
query_id ns (err e, st) = (err e, st)

-- The namespace's id and the task's.
unfoldable pub enqueue_query : Store → ℕ → EnqueueQueryParams → State → Result (ℕ × ℕ) × State
unfolding enqueue_query_tx with_tx with_namespace then_notify
enqueue_query s now p = with_namespace p.namespace λ ns st.
    query_id ns (then_notify (λ _. []) st.notifier (with_tx (enqueue_query_tx s now ns p) st.db))

pub record QueryResult : Type 0 where
  pub status : TaskStatus
  pub result : Option Payload
  pub failure_message : String

abbrev message_or_empty : Option String → String
message_or_empty none = ""
message_or_empty (some m) = m

-- A payload that was read, or the error of proto.Unmarshal.
abbrev unmarshaled : Option Payload → Result (Option Payload)
unmarshaled none = err unmarshal_error
unmarshaled (some p) = ok (some p)

-- A result that is NULL or empty is no result.
abbrev result_of : External → Option Bytes → Result (Option Payload)
result_of ext none = ok none
result_of ext (some []) = ok none
result_of ext (some (b ∷ bs)) = unmarshaled (ext.unmarshal_payload (b ∷ bs))

abbrev query_result : QueryTask → Option Payload → QueryResult
query_result row result = record {
  status = row.lease.status;
  result = result;
  failure_message = message_or_empty row.failure_message;
}

abbrev or_error : {A : Type 0} → Result A → Tx Db A
or_error (ok a) db = ok (a, db)
or_error (err e) db = err e

unfoldable pub get_query_result : Store → ℕ → ℕ → Tx Db QueryResult
unfolding get_query_task
get_query_result s ns id = do
  row ← get_query_task id ns
  result ← or_error (result_of s.ext row.result)
  pure (query_result row result)

unfoldable pub delete_query_task : ℕ → Tx Db (Unit {0})
unfolding delete_query_task_row
delete_query_task id = delete_query_task_row id

abbrev pub is_query_token : TaskTokenKind → Bool
is_query_token query = true
is_query_token _ = false

unfoldable pub complete_query : Store → TaskToken → Option Payload → Db → Result (Unit {0}) × Db
unfolding complete_query_task with_tx
complete_query s token result db =
    if is_query_token token.kind
    then with_tx
        (do
          affected ←
              complete_query_task token.task_id (s.ext.uuid_parse token.lease_token)
                (s.ext.marshal_payload result)
          nonzero task_lease_expired affected)
        db
    else (err wrong_token_kind, db)

unfoldable pub fail_query : Store → TaskToken → String → Db → Result (Unit {0}) × Db
unfolding fail_query_task with_tx
fail_query s token message db =
    if is_query_token token.kind
    then with_tx
        (do
          affected ← fail_query_task token.task_id (s.ext.uuid_parse token.lease_token) message
          nonzero task_lease_expired affected)
        db
    else (err wrong_token_kind, db)
