-- ===== src/Scenarios.antt =====
-- Concrete servers, databases and requests, on which the code runs and the theorems apply.
pub mod Histories
pub mod Queues
pub mod Requests
pub mod Planning
pub mod Caching
pub mod Workers
pub mod Calls
pub mod Listings
pub mod Paging
pub mod QueryFirst
use flowd_engine.Base.{
  ℕ, Option, none, some, List, [], ◌∷◌, String, Bool, true, false, str_eq, if◌then◌else◌,
}
use flowd_engine.Proto.{
  External, Attributes, workflow_execution_signaled, execution_signaled, task_started,
}
use flowd_engine.Db.Types.{
  Db, RunKey, WorkflowExecution, ActivityTask, WorkflowTask, Lease, running, pending,
  CurrentExecution,
}
use flowd_engine.History.Append.{NewEvent}
use flowd_engine.History.Notifier.{Notifier}
use flowd_engine.History.Start.{StartWorkflowExecutionParams}
use flowd_engine.History.Store.{Store, StoreOptions, State}
use flowd_engine.History.System.{empty_db}
use flowd_engine.History.TaskToken.{TaskToken, TokenCodec, activity, new_task_token}

-- Third-party functions of the simplest kind: every message is one byte, and the UUIDs have
-- one-letter texts.
abbrev pub ext : External
ext = record {
  marshal = λ a. some (1 ∷ []);
  unmarshal = λ t b. some task_started;
  marshal_payload = λ p. [];
  unmarshal_payload = λ b. none;
  uuid_parse = λ s. if str_eq s "a" then some 1 else none;
  uuid_string = λ u. "a";
  fnv32a = λ s. 11;
  pow_int64 = λ c n. 2;
  is_positive_float = λ c. true;
  two = 2;
}

abbrev pub zeros : List ℕ
zeros =
    0 ∷ 0 ∷ 0 ∷ 0 ∷ 0 ∷ 0 ∷ 0 ∷ 0 ∷ 0 ∷ 0 ∷ 0 ∷ 0 ∷ 0 ∷ 0 ∷ 0 ∷ 0 ∷ 0 ∷ 0 ∷ 0 ∷ 0 ∷ 0 ∷ 0 ∷ 0 ∷ 0
    ∷ 0 ∷ 0 ∷ 0 ∷ 0 ∷ 0 ∷ 0 ∷ 0 ∷ 0 ∷ []

abbrev pub activity_token : TaskToken
activity_token = record {
  v = 2;
  kind = activity;
  namespace_id = 1;
  workflow_id = "w";
  run_id = "r";
  task_id = 1;
  lease_token = "a";
}

abbrev pub codec : TokenCodec
codec = record { to_json = λ t. 5 ∷ []; of_json = λ b. some activity_token; hmac = λ key m. zeros }

abbrev pub options : StoreOptions
options = record { num_shards = 0; num_task_queue_partitions = 4; task_token_signing_key = 9 ∷ [] }

abbrev pub server : Store
server = record {
  num_shards = 4;
  num_task_queue_partitions = 2;
  task_token_signing_key = 9 ∷ [];
  ext = ext;
  codec = codec;
}

abbrev pub run_r : RunKey
run_r = record { namespace_id = 1; workflow_id = "w"; run_id = "r" }

abbrev pub run_row : WorkflowExecution
run_row = record {
  key = run_r;
  workflow_type = "t";
  task_queue = "q";
  status = running;
  next_event_id = 1;
  shard_id = 0;
  execution_timeout_ns = none;
  run_timeout_ns = none;
  task_timeout_ns = none;
  start_time = 0;
  close_time = none;
  updated_at = 0;
  sticky_worker_identity = none;
  sticky_expires_at = none;
}

abbrev pub current_r : CurrentExecution
current_r = record { namespace_id = 1; workflow_id = "w"; run_id = "r"; create_request_id = "req" }

-- A workflow "w" of the namespace "n" that has one run, without events so far.
abbrev pub db_with_run : Db
db_with_run = record empty_db {
  namespaces = record { id = 1; name = "n"; created_at = 0 } ∷ [];
  current_executions = current_r ∷ [];
  workflow_executions = run_row ∷ [];
}

abbrev pub signal : NewEvent
signal = record {
  event_type = workflow_execution_signaled;
  attributes = execution_signaled "s" none;
}

abbrev pub lease_of : Lease
lease_of = record { status = pending; visible_at = 0; lease_expiry = none; lease_token = none }

abbrev pub activity_row : ℕ → ActivityTask
activity_row id = record {
  task_id = id;
  key = run_r;
  task_queue_name = "q";
  task_queue_partition = 0;
  activity_id = id;
  activity_type = "act";
  scheduled_event_id = 3;
  input = [];
  lease = lease_of;
  attempt = 1;
  schedule_to_start_timeout_ns = 0;
  start_to_close_timeout_ns = 30;
  retry_initial_interval_ns = 10;
  retry_backoff_coefficient = 2;
  retry_max_interval_ns = 0;
  retry_max_attempts = 3;
  retry_non_retryable_types = [];
}

abbrev pub workflow_row : ℕ → WorkflowTask
workflow_row id = record {
  task_id = id;
  key = run_r;
  task_queue_name = "q";
  task_queue_partition = 0;
  scheduled_event_id = 2;
  lease = lease_of;
  preferred_worker_identity = none;
  sticky_deadline = none;
}

-- Two tasks of each kind wait.
abbrev pub db_with_tasks : Db
db_with_tasks = record db_with_run {
  activity_tasks = activity_row 1 ∷ activity_row 2 ∷ [];
  workflow_tasks = workflow_row 1 ∷ workflow_row 2 ∷ [];
  next_task_id = 3;
}

abbrev pub quiet : Notifier
quiet = record { waiters = []; signalled = [] }

abbrev pub state_of : Db → State
state_of db = record { db = db; notifier = quiet }

abbrev pub start_request : String → StartWorkflowExecutionParams
start_request id = record {
  namespace = "n";
  workflow_id = "w";
  workflow_type = "t";
  task_queue = "q";
  input = none;
  workflow_execution_timeout = 0;
  workflow_run_timeout = 0;
  workflow_task_timeout = 0;
  retry_policy = none;
  request_id = id;
}
