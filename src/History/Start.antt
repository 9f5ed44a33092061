-- ===== src/History/Start.antt =====
-- internal/history/start.go: StartWorkflowExecution.
pub mod Idempotence
pub mod Current
pub mod Repeat
use flowd_engine.Base.{
  ℕ, String, str_eq, Bool, true, false, Option, some, none, List, [], ◌∷◌, ◌==◌, if◌then◌else◌,
}
use flowd_engine.Base.Result.{
  Error, Result, ok, err, Tx, ◌>>=◌, ◌>>◌, pure, fail, workflow_already_running, idempotent_replay,
}
use flowd_engine.Proto.{
  Int64, is_positive, Payload, RetryPolicy, workflow_execution_started, execution_started,
}
use flowd_engine.Db.Types.{Db, RunKey, ExecutionStatus, CurrentExecution, running}
use flowd_engine.Db.Executions.{
  NewExecution, insert_current_execution, get_current_execution, replace_current_execution,
  create_workflow_execution, get_workflow_execution,
}
use flowd_engine.Db.WorkflowTasks.{enqueue_workflow_task}
use flowd_engine.History.Append.{NewEvent, append_history}
use flowd_engine.History.Notifier.{workflow_queue_key, notify}
use flowd_engine.History.Sharding.{partition_for}
use flowd_engine.History.Store.{Store, State, with_tx, with_namespace}
use flowd_engine.History.Wake.{scheduled_event}

pub record StartWorkflowExecutionParams : Type 0 where
  pub namespace : String
  pub workflow_id : String
  pub workflow_type : String
  pub task_queue : String
  pub input : Option Payload
  pub workflow_execution_timeout : Int64
  pub workflow_run_timeout : Int64
  pub workflow_task_timeout : Int64
  pub retry_policy : Option RetryPolicy
  pub request_id : String

abbrev pub duration_to_pg_int8 : Int64 → Option Int64
duration_to_pg_int8 d = if is_positive d then some d else none

abbrev pub is_running : ExecutionStatus → Bool
is_running running = true
is_running _ = false

-- The row of current_executions for the new run.
abbrev pub current_row : ℕ → StartWorkflowExecutionParams → String → CurrentExecution
current_row ns p new_run_id = record {
  namespace_id = ns;
  workflow_id = p.workflow_id;
  run_id = new_run_id;
  create_request_id = p.request_id;
}

abbrev pub run_key : ℕ → String → String → RunKey
run_key ns workflow_id run_id = record {
  namespace_id = ns;
  workflow_id = workflow_id;
  run_id = run_id;
}

-- What the transaction decides: a new run, or (errIdempotentReplay, which rolls it back) the run
-- that the same request has started before.
pub data Started : Type 0 where
  new_run : Started
  same_run : String → Started

-- The branch `inserted == 0`: some run of the workflow_id is current. `none` goes on.
unfoldable pub take_over : ℕ → StartWorkflowExecutionParams → String → Tx Db (Option String)
unfolding get_current_execution get_workflow_execution replace_current_execution
take_over ns p new_run_id = do
  existing ← get_current_execution ns p.workflow_id
  if str_eq existing.create_request_id p.request_id then pure (some existing.run_id) else (do
    we ← get_workflow_execution (run_key ns p.workflow_id existing.run_id)
    if is_running we.status
        then fail workflow_already_running
        else (do replace_current_execution (current_row ns p new_run_id); pure none))

-- Events 1 and 2, and the first workflow task, of a new run.
unfoldable pub begin_run : Store → ℕ → ℕ → StartWorkflowExecutionParams → String → Tx Db (Unit {0})
unfolding create_workflow_execution append_history enqueue_workflow_task partition_for
begin_run s now ns p new_run_id = do
  create_workflow_execution now (run_key ns p.workflow_id new_run_id) (record {
    workflow_type = p.workflow_type;
    task_queue = p.task_queue;
    shard_id = partition_for s.ext p.workflow_id s.num_shards;
    execution_timeout_ns = duration_to_pg_int8 p.workflow_execution_timeout;
    run_timeout_ns = duration_to_pg_int8 p.workflow_run_timeout;
    task_timeout_ns = duration_to_pg_int8 p.workflow_task_timeout;
  })
  _ ← append_history s.ext now (run_key ns p.workflow_id new_run_id) 1 (
      record {
        event_type = workflow_execution_started;
        attributes = execution_started (record {
          workflow_type = p.workflow_type;
          task_queue = p.task_queue;
          input = p.input;
          retry_policy = p.retry_policy;
          continued_from_run_id = "";
        });
      }
      ∷ scheduled_event p.task_queue
      ∷ [])
  enqueue_workflow_task now (record {
    key = run_key ns p.workflow_id new_run_id;
    task_queue_name = p.task_queue;
    task_queue_partition = partition_for s.ext p.workflow_id s.num_task_queue_partitions;
    scheduled_event_id = 2;
    preferred_worker_identity = none;
    sticky_deadline = none;
  })

abbrev pub begin_unless :
    Store → ℕ → ℕ → StartWorkflowExecutionParams → String → Option String → Tx Db Started
begin_unless s now ns p new_run_id (some run_id) = pure (same_run run_id)
begin_unless s now ns p new_run_id none = do begin_run s now ns p new_run_id; pure new_run

unfoldable pub start_tx : Store → ℕ → ℕ → StartWorkflowExecutionParams → String → Tx Db Started
unfolding insert_current_execution take_over begin_run
start_tx s now ns p new_run_id = do
  inserted ← insert_current_execution (current_row ns p new_run_id)
  replay ← if inserted == 0 then take_over ns p new_run_id else pure none
  begin_unless s now ns p new_run_id replay

-- What is answered, and the rollback of a replay.
abbrev pub answer_start :
    ℕ → StartWorkflowExecutionParams → String → State → Result Started × Db → Result String × State
answer_start ns p new_run_id st (ok new_run, db) = (
  ok new_run_id,
  record { db = db; notifier = notify (workflow_queue_key ns p.task_queue) st.notifier },
)
answer_start ns p new_run_id st (ok (same_run run_id), _) = (ok run_id, st)
answer_start ns p new_run_id st (err e, db) = (err e, record st { db = db })

-- `new_run_id` is what uuid.NewString() returns.
unfoldable pub start_workflow_execution :
    Store → ℕ → String → StartWorkflowExecutionParams → State → Result String × State
unfolding start_tx with_namespace with_tx notify
start_workflow_execution s now new_run_id p =
    with_namespace p.namespace
      (λ ns st. answer_start ns p new_run_id st (with_tx (start_tx s now ns p new_run_id) st.db))
