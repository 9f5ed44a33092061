-- ===== src/Db/Types.antt =====
-- The rows of the tables of migrations/ (internal/persistence/postgres/sqlc/models.go), and the
-- database as the lists of them. Times are instants in nanoseconds.
use flowd_engine.Base.{
  ℕ, ◌≡◌, refl, ◌↔◌, String, Bool, true, ◌&&◌, Option, List, ◌==◌, str_eq, str_eq_iff, arith,
}
use flowd_engine.Proto.{Bytes, Uuid, Int64, HistoryEventType}

-- (namespace_id, workflow_id, run_id)
pub record RunKey : Type 0 where
  pub namespace_id : ℕ
  pub workflow_id : String
  pub run_id : String

unfoldable pub key_eq : RunKey → RunKey → Bool
key_eq a b =
    a.namespace_id == b.namespace_id
    && (str_eq a.workflow_id b.workflow_id && str_eq a.run_id b.run_id)

pub key_eq_iff : (a b : RunKey) → (key_eq a b ≡ true) ↔ (a ≡ b)
unfolding key_eq
key_eq_iff a b =
    ground (arith, str_eq_iff a.workflow_id b.workflow_id, str_eq_iff a.run_id b.run_id)

pub key_eq_refl : (a : RunKey) → key_eq a a ≡ true
key_eq_refl a = (key_eq_iff a a).1 refl

pub record Namespace : Type 0 where
  pub id : ℕ
  pub name : String
  pub created_at : ℕ

pub record CurrentExecution : Type 0 where
  pub namespace_id : ℕ
  pub workflow_id : String
  pub run_id : String
  pub create_request_id : String

-- workflow_executions.status
pub data ExecutionStatus : Type 0 where
  running completed failed terminated timed_out continued_as_new : ExecutionStatus

pub record WorkflowExecution : Type 0 where
  pub key : RunKey
  pub workflow_type : String
  pub task_queue : String
  pub status : ExecutionStatus
  pub next_event_id : ℕ
  pub shard_id : ℕ
  pub execution_timeout_ns : Option Int64
  pub run_timeout_ns : Option Int64
  pub task_timeout_ns : Option Int64
  pub start_time : ℕ
  pub close_time : Option ℕ
  pub updated_at : ℕ
  pub sticky_worker_identity : Option String
  pub sticky_expires_at : Option ℕ

pub record HistoryRow : Type 0 where
  pub key : RunKey
  pub event_id : ℕ
  pub event_time : ℕ
  pub event_type : HistoryEventType
  pub attributes : Bytes

-- The status of a row of a task table. Only query_tasks uses the last two.
pub data TaskStatus : Type 0 where
  pending started completed failed : TaskStatus

-- The columns that every task table has.
pub record Lease : Type 0 where
  pub status : TaskStatus
  pub visible_at : ℕ
  pub lease_expiry : Option ℕ
  pub lease_token : Option Uuid

pub record WorkflowTask : Type 0 where
  pub task_id : ℕ
  pub key : RunKey
  pub task_queue_name : String
  pub task_queue_partition : ℕ
  pub scheduled_event_id : ℕ
  pub lease : Lease
  pub preferred_worker_identity : Option String
  pub sticky_deadline : Option ℕ

pub record ActivityTask : Type 0 where
  pub task_id : ℕ
  pub key : RunKey
  pub task_queue_name : String
  pub task_queue_partition : ℕ
  pub activity_id : ℕ
  pub activity_type : String
  pub scheduled_event_id : ℕ
  pub input : Bytes
  pub lease : Lease
  pub attempt : ℕ
  pub schedule_to_start_timeout_ns : Int64
  pub start_to_close_timeout_ns : Int64
  pub retry_initial_interval_ns : Int64
  pub retry_backoff_coefficient : ℕ
  pub retry_max_interval_ns : Int64
  pub retry_max_attempts : ℕ
  pub retry_non_retryable_types : List String

pub record QueryTask : Type 0 where
  pub task_id : ℕ
  pub key : RunKey
  pub task_queue_name : String
  pub query_type : String
  pub query_args : Bytes
  pub result : Option Bytes
  pub failure_message : Option String
  pub lease : Lease

pub record Timer : Type 0 where
  pub key : RunKey
  pub timer_id : ℕ
  pub fire_at : ℕ
  pub scheduled_event_id : ℕ

-- `next_task_id` stands for the sequences of the three BIGSERIAL columns task_id.
pub record Db : Type 0 where
  pub namespaces : List Namespace
  pub current_executions : List CurrentExecution
  pub workflow_executions : List WorkflowExecution
  pub history_events : List HistoryRow
  pub workflow_tasks : List WorkflowTask
  pub activity_tasks : List ActivityTask
  pub query_tasks : List QueryTask
  pub timers : List Timer
  pub next_namespace_id : ℕ
  pub next_task_id : ℕ
