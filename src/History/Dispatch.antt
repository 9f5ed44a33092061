-- ===== src/History/Dispatch.antt =====
-- DispatchWorkflowTask, buildQueryDispatch and FailWorkflowTask of workflow_task.go, and
-- DispatchActivityTask of activity_task.go: statements and transactions in sequence, with no
-- transaction around them.
pub mod Decode
use flowd_engine.Base.{
  ℕ, ◌-◌, String, str_eq, Bool, true, false, Option, some, none, List, [], ◌∷◌, if◌then◌else◌,
}
use flowd_engine.Base.Result.{
  Error, no_rows, no_task_available, task_lease_expired, wrong_token_kind, unmarshal_error, Result,
  ok, err, Tx, no_rows_as, renamed, nonzero,
}
use flowd_engine.Base.Result
use flowd_engine.Base.Io.{Io, ◌>>=◌, ◌>>◌, pure, fail, continue}
use flowd_engine.Proto
use flowd_engine.Proto.{External, Bytes, Uuid, Payload}
use flowd_engine.Db.Types.{Db, RunKey, WorkflowExecution, WorkflowTask, QueryTask, ActivityTask}
use flowd_engine.Db.ActivityTasks.{dequeue_activity_task}
use flowd_engine.Db.Executions.{get_workflow_execution, set_sticky_execution}
use flowd_engine.Db.QueryTasks.{dequeue_query_task}
use flowd_engine.Db.WorkflowTasks.{
  DequeueParams, dequeue_workflow_task, complete_workflow_task_row, enqueue_workflow_task,
}
use flowd_engine.History.Activity.{token_key}
use flowd_engine.History.Append.{NewEvent, append_history}
use flowd_engine.History.Notifier.{workflow_queue_key, notify}
use flowd_engine.History.Sharding.{partition_for}
use flowd_engine.History.Store.{Store, State, with_tx, with_namespace}
use flowd_engine.History.TaskToken.{
  TaskToken, TaskTokenKind, workflow, activity, query, new_task_token, encode,
}
use flowd_engine.History.WorkflowTask.{is_workflow_token}
use Decode.{HistoryEvent, read_history}

-- What the database supplies at a dispatch: the time, the rows that other transactions have
-- locked, and what gen_random_uuid() returns.
pub record Moment : Type 0 where
  pub now : ℕ
  pub locked : ℕ → Bool
  pub token : Uuid

-- ten seconds
abbrev pub workflow_task_lease : ℕ
workflow_task_lease = 10_000_000_000

abbrev pub query_task_lease : ℕ
query_task_lease = 10_000_000_000

pub record DispatchedQuery : Type 0 where
  pub query_type : String
  pub query_args : Option Payload

pub record DispatchedWorkflowTask : Type 0 where
  pub task_token : Bytes
  pub key : RunKey
  pub workflow_type : String
  pub history : List HistoryEvent
  pub previous_started_event_id : ℕ
  pub query : Option DispatchedQuery

abbrev uuid_text : External → Option Uuid → String
uuid_text ext none = ""
uuid_text ext (some u) = ext.uuid_string u

-- The token for a row that was dequeued.
abbrev pub token_for : Store → TaskTokenKind → RunKey → ℕ → Option Uuid → Bytes
token_for s kind key id lease_token =
    encode s.codec
      (new_task_token kind key.namespace_id key.workflow_id key.run_id id
        (uuid_text s.ext lease_token))
      s.task_token_signing_key

-- proto.Unmarshal of a payload, which fails on malformed bytes.
abbrev unmarshaled : External → Bytes → Io Db Payload
unmarshaled ext bytes = elim (ext.unmarshal_payload bytes) [
  | none ↦ fail unmarshal_error
  | some p ↦ pure p
]

unfoldable pub build_query_dispatch : Store → QueryTask → Io Db DispatchedWorkflowTask
unfolding read_history with_tx get_workflow_execution encode new_task_token
build_query_dispatch s row = do
  events ← read_history s.ext row.key
  we ← with_tx (get_workflow_execution row.key)
  args ← unmarshaled s.ext row.query_args
  pure (record {
    task_token = token_for s query row.key row.task_id row.lease.lease_token;
    key = row.key;
    workflow_type = we.workflow_type;
    history = events;
    previous_started_event_id = 0;
    query = some (record { query_type = row.query_type; query_args = some args });
  })

-- ids[0]
abbrev first : List ℕ → ℕ
first [] = 0
first (i ∷ is) = i

abbrev started_event : NewEvent
started_event = record {
  event_type = Proto.HistoryEventType.workflow_task_started;
  attributes = Proto.Attributes.task_started;
}

-- The run's row is read and the event appended, in one transaction; it returns the event's id.
unfoldable pub append_one : Store → ℕ → RunKey → NewEvent → Tx Db ℕ
unfolding get_workflow_execution append_history
append_one s now key event = Result.◌>>=◌ (get_workflow_execution key) λ we.
    Result.◌>>=◌ (append_history s.ext now key we.next_event_id (event ∷ []))
      λ appended. Result.pure (first appended.1)

unfoldable pub dispatch_row : Store → ℕ → WorkflowTask → Io Db DispatchedWorkflowTask
unfolding append_one with_tx read_history encode new_task_token
dispatch_row s now row = do
  started ← with_tx (append_one s now row.key started_event)
  events ← read_history s.ext row.key
  we ← with_tx (get_workflow_execution row.key)
  pure (record {
    task_token = token_for s workflow row.key row.task_id row.lease.lease_token;
    key = row.key;
    workflow_type = we.workflow_type;
    history = events;
    previous_started_event_id = started;
    query = none;
  })

-- A pending query goes first; only if there is none is a workflow task dequeued.
abbrev query_or_task :
    Store → Moment → DequeueParams → Result QueryTask × Db → Result DispatchedWorkflowTask × Db
query_or_task s m p (ok row, db) = build_query_dispatch s row db
query_or_task s m p (err no_rows, db) =
    (do
      row ← with_tx (
          renamed (no_rows_as no_task_available)
            (dequeue_workflow_task m.now m.locked m.token workflow_task_lease p))
      dispatch_row s m.now row)
      db
query_or_task s m p (err e, db) = (err e, db)

unfoldable pub dispatch_db : Store → Moment → Moment → DequeueParams → Io Db DispatchedWorkflowTask
unfolding build_query_dispatch dispatch_row dequeue_query_task dequeue_workflow_task with_tx
dispatch_db s q m p db = query_or_task s m p (
    with_tx
      (dequeue_query_task q.now q.locked q.token query_task_lease p.task_queue_name p.namespace_id)
      db)

abbrev keep_notifier : {A : Type 0} → State → Result A × Db → Result A × State
keep_notifier st (r, db) = (r, record st { db = db })

-- `q` and `m` are the moments of the two dequeues.
unfoldable pub dispatch_workflow_task :
    Store
    → Moment
    → Moment
    → String
    → String
    → String
    → List ℕ
    → State
    → Result DispatchedWorkflowTask × State
unfolding dispatch_db with_namespace
dispatch_workflow_task s q m namespace queue worker partitions = with_namespace namespace λ ns st.
    keep_notifier st (
      dispatch_db s q m
        (record {
          task_queue_name = queue;
          namespace_id = ns;
          worker_identity = worker;
          partitions = partitions;
        })
        st.db)

pub record DispatchedActivityTask : Type 0 where
  pub task_token : Bytes
  pub key : RunKey
  pub activity_id : ℕ
  pub activity_type : String
  pub input : Option Payload
  pub current_attempt : ℕ
  pub start_to_close_timeout : ℕ

abbrev activity_started_event : ActivityTask → NewEvent
activity_started_event row = record {
  event_type = Proto.HistoryEventType.activity_task_started;
  attributes = Proto.Attributes.activity_started row.activity_id row.attempt;
}

unfoldable pub dispatch_activity_db : Store → Moment → DequeueParams → Io Db DispatchedActivityTask
unfolding dequeue_activity_task append_one with_tx encode new_task_token
dispatch_activity_db s m p = do
  row ←
      with_tx
        (renamed (no_rows_as no_task_available) (dequeue_activity_task m.now m.locked m.token p))
  _ ← with_tx (append_one s m.now row.key (activity_started_event row))
  input ← unmarshaled s.ext row.input
  pure (record {
    task_token = token_for s activity row.key row.task_id row.lease.lease_token;
    key = row.key;
    activity_id = row.activity_id;
    activity_type = row.activity_type;
    input = some input;
    current_attempt = row.attempt;
    start_to_close_timeout = row.start_to_close_timeout_ns;
  })

unfoldable pub dispatch_activity_task :
    Store → Moment → String → String → List ℕ → State → Result DispatchedActivityTask × State
unfolding dispatch_activity_db with_namespace
dispatch_activity_task s m namespace queue partitions = with_namespace namespace λ ns st.
    keep_notifier st (
      dispatch_activity_db s m
        (record {
          task_queue_name = queue;
          namespace_id = ns;
          worker_identity = "";
          partitions = partitions;
        })
        st.db)

-- Five statements, each a transaction by itself; it returns the queue to wake.
unfoldable pub fail_workflow_db : Store → ℕ → TaskToken → Io Db String
unfolding complete_workflow_task_row with_tx get_workflow_execution set_sticky_execution
    enqueue_workflow_task partition_for
fail_workflow_db s now token = do
  affected ← with_tx (complete_workflow_task_row token.task_id (s.ext.uuid_parse token.lease_token))
  with_tx (nonzero task_lease_expired affected)
  we ← with_tx (get_workflow_execution (token_key token))
  with_tx (set_sticky_execution now (token_key token) none none)
  with_tx (
      enqueue_workflow_task now (record {
        key = token_key token;
        task_queue_name = we.task_queue;
        task_queue_partition = partition_for s.ext token.workflow_id s.num_task_queue_partitions;
        scheduled_event_id = we.next_event_id - 1;
        preferred_worker_identity = none;
        sticky_deadline = none;
      }))
  pure we.task_queue

abbrev wake_one : ℕ → State → Result String × Db → Result String × State
wake_one ns st (ok queue, db) =
    (ok queue, record { db = db; notifier = notify (workflow_queue_key ns queue) st.notifier })
wake_one ns st (err e, db) = (err e, record st { db = db })

unfoldable pub fail_workflow_task : Store → ℕ → TaskToken → State → Result String × State
unfolding fail_workflow_db notify
fail_workflow_task s now token st =
    if is_workflow_token token.kind
    then wake_one token.namespace_id st (fail_workflow_db s now token st.db)
    else (err wrong_token_kind, st)
