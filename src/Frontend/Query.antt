-- ===== src/Frontend/Query.antt =====
-- QueryWorkflowExecution of internal/frontend/service.go: a query is enqueued, and its row is read
-- again and again until a worker has answered or the time is up.
pub mod Leaves
use flowd_engine.Base.{ℕ, Bool, Option, none, some, List, [], ◌∷◌, String, str_eq, if◌then◌else◌}
use flowd_engine.Base.Result.{Error, context_expired, Result, ok, err}
use flowd_engine.Proto.{Payload}
use flowd_engine.Db.Types.{Db, TaskStatus, completed, failed, pending}
use flowd_engine.History.Store.{Store, State, with_tx}
use flowd_engine.History.WorkflowQuery.{
  EnqueueQueryParams, enqueue_query, QueryResult, get_query_result, delete_query_task,
}
use flowd_engine.Frontend.{
  StatusCode, invalid_argument, internal_error, deadline_exceeded, to_grpc_error,
  check_payload_size, namespace_or_default,
}

pub data QueryReply : Type 0 where
  query_result : Option Payload → QueryReply
  query_status : StatusCode → QueryReply
  -- codes.Internal with the worker's message
  query_failure : String → QueryReply

abbrev pub deleted : ℕ → Db → Db
deleted id db = (with_tx (delete_query_task id) db).1

-- What a row's status makes of the loop's turn: a reply, or another turn.
abbrev pub settled : QueryResult → Option QueryReply
settled r = elim r.status [
  | completed ↦ some (query_result r.result)
  | failed ↦ some (query_failure r.failure_message)
  | _ ↦ none
]

abbrev pub reply_or : ℕ → Db → QueryReply × Db → Option QueryReply → QueryReply × Db
reply_or id db rest (some reply) = (reply, deleted id db)
reply_or id db rest none = rest

abbrev pub turn : ℕ → Db → QueryReply × Db → Result QueryResult → QueryReply × Db
turn id db rest (err e) = (query_status (to_grpc_error e), db)
turn id db rest (ok r) = reply_or id db rest (settled r)

-- Where the loop is when the time is up: in the select after a read, or at the next read, which
-- then fails because select took the ticker's case.
pub data Deadline : Type 0 where
  in_select in_read : Deadline

-- What GetQueryResult returns in the last turn.
abbrev pub last_read : Store → ℕ → ℕ → Deadline → Db → Result QueryResult
last_read s ns id in_select db = (with_tx (get_query_result s ns id) db).0
last_read s ns id in_read db = err context_expired

-- The loop. `waits` are the ticks before the deadline, each with what others do to the database
-- until then.
unfoldable pub await_query : Store → ℕ → ℕ → Deadline → List (Db → Db) → Db → QueryReply × Db
unfolding get_query_result with_tx delete_query_task
await_query s ns id end [] db =
    turn id db (query_status deadline_exceeded, deleted id db) (last_read s ns id end db)
await_query s ns id end (others ∷ waits) db =
    let rest = await_query s ns id end waits (others db) in
    turn id db rest (with_tx (get_query_result s ns id) db).0

abbrev enqueued : Store → Deadline → List (Db → Db) → Result (ℕ × ℕ) × State → QueryReply × State
enqueued s end waits (err e, st) = (query_status (to_grpc_error e), st)
enqueued s end waits (ok (ns, id), st) =
    let (reply, db) = await_query s ns id end waits st.db in (reply, record st { db = db })

abbrev asked :
    Store
    → ℕ
    → EnqueueQueryParams
    → Deadline
    → List (Db → Db)
    → Option StatusCode
    → State
    → QueryReply × State
asked s now p end waits (some code) st = (query_status code, st)
asked s now p end waits none st =
    if str_eq p.query_type ""
    then (query_status invalid_argument, st)
    else enqueued s end waits
        (enqueue_query s now (record p { namespace = namespace_or_default p.namespace }) st)

unfoldable pub query_workflow_execution :
    Store → ℕ → EnqueueQueryParams → Deadline → List (Db → Db) → State → QueryReply × State
unfolding check_payload_size enqueue_query namespace_or_default await_query
query_workflow_execution s now p end waits st =
    asked s now p end waits (check_payload_size p.query_args) st
