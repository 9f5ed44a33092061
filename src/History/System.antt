-- ===== src/History/System.antt =====
-- The server as a step relation on the database: each step is one transaction, or one statement
-- outside a transaction, of a handler of internal/history or of the reaper of internal/matching. Handlers that run at the
-- same time, in this process or in another, are sequences of such steps in any order, and a
-- handler that dies in between leaves a shorter sequence.
pub mod Reachable
use flowd_engine.Base.{ℕ, Bool, Option, List, [], String}
use flowd_engine.Base.Result.{Tx}
use flowd_engine.Proto.{Uuid, Bytes, Payload, Failure, Command}
use flowd_engine.Db.Types.{Db, RunKey, WorkflowExecution, ActivityTask}
use flowd_engine.Db.ActivityTasks.{dequeue_activity_task, reap_expired_activity_tasks}
use flowd_engine.Db.Executions.{set_sticky_execution}
use flowd_engine.Db.Namespaces.{create_namespace_row}
use flowd_engine.Db.QueryTasks.{
  enqueue_query_task, dequeue_query_task, complete_query_task, fail_query_task,
  delete_query_task_row, reap_expired_query_tasks,
}
use flowd_engine.Db.WorkflowTasks.{
  EnqueueWorkflowTaskParams, DequeueParams, enqueue_workflow_task, dequeue_workflow_task,
  complete_workflow_task_row, reap_expired_workflow_tasks,
}
use flowd_engine.History.Activity.{complete_activity_tx, retry_tx, fail_activity_tx}
use flowd_engine.History.Append.{NewEvent}
use flowd_engine.History.Dispatch.{append_one}
use flowd_engine.History.Query.{terminate_tx}
use flowd_engine.History.Start.{StartWorkflowExecutionParams, start_tx}
use flowd_engine.History.Store.{Store, with_tx}
use flowd_engine.History.TaskToken.{TaskToken}
use flowd_engine.History.Timers.{fire_tx}
use flowd_engine.History.Wake.{record_and_wake}
use flowd_engine.History.WorkflowTask.{StickyAttributes, complete_workflow_tx}

-- The database after a transaction, committed or rolled back.
abbrev pub after_tx : {A : Type 0} → Tx Db A → Db → Db
after_tx m db = (with_tx m db).1

-- No server has written yet.
abbrev pub empty_db : Db
empty_db = record {
  namespaces = [];
  current_executions = [];
  workflow_executions = [];
  history_events = [];
  workflow_tasks = [];
  activity_tasks = [];
  query_tasks = [];
  timers = [];
  next_namespace_id = 1;
  next_task_id = 1;
}

pub data Step (s : Store) (db : Db) : Db → Type 0 where
  create_namespace :
      (now : ℕ) (name : String) → Step s db (after_tx (create_namespace_row now name) db)
  start_workflow :
      (now ns : ℕ) (p : StartWorkflowExecutionParams) (run : String)
      → Step s db (after_tx (start_tx s now ns p run) db)
  -- the writes of signals and cancellations: the row `we` was read in another step
  signal_or_cancel :
      (now : ℕ) (key : RunKey) (we : WorkflowExecution) (event : NewEvent)
      → Step s db (after_tx (record_and_wake s now key we event) db)
  terminate_workflow :
      (now ns : ℕ) (workflow_id run_id reason : String)
      → Step s db (after_tx (terminate_tx s now ns workflow_id run_id reason) db)
  dequeue_workflow :
      (now : ℕ) (locked : ℕ → Bool) (token : Uuid) (n : ℕ) (p : DequeueParams)
      → Step s db (after_tx (dequeue_workflow_task now locked token n p) db)
  dequeue_activity :
      (now : ℕ) (locked : ℕ → Bool) (token : Uuid) (p : DequeueParams)
      → Step s db (after_tx (dequeue_activity_task now locked token p) db)
  dequeue_query :
      (now : ℕ) (locked : ℕ → Bool) (token : Uuid) (n : ℕ) (queue : String) (ns : ℕ)
      → Step s db (after_tx (dequeue_query_task now locked token n queue ns) db)
  record_started :
      (now : ℕ) (key : RunKey) (event : NewEvent)
      → Step s db (after_tx (append_one s now key event) db)
  complete_workflow :
      (now : ℕ) (run request : String) (token : TaskToken) (commands : List Command)
      (sticky : Option StickyAttributes)
      → Step s db (after_tx (complete_workflow_tx s now run request token commands sticky) db)
  -- the writes of FailWorkflowTask
  drop_workflow_task :
      (id : ℕ) (token : Option Uuid) → Step s db (after_tx (complete_workflow_task_row id token) db)
  set_sticky :
      (now : ℕ) (key : RunKey) (identity : Option String) (expires_at : Option ℕ)
      → Step s db (after_tx (set_sticky_execution now key identity expires_at) db)
  requeue_workflow_task :
      (now : ℕ) (p : EnqueueWorkflowTaskParams)
      → Step s db (after_tx (enqueue_workflow_task now p) db)
  complete_activity :
      (now : ℕ) (token : TaskToken) (result : Option Payload)
      → Step s db (after_tx (complete_activity_tx s now token result) db)
  -- the two outcomes of FailActivityTask: the row `row` was read in another step
  retry_activity :
      (now : ℕ) (token : TaskToken) (row : ActivityTask)
      → Step s db (after_tx (retry_tx s.ext now token row) db)
  fail_activity :
      (now : ℕ) (token : TaskToken) (row : ActivityTask) (failure : Option Failure)
      → Step s db (after_tx (fail_activity_tx s now token row failure) db)
  fire_timer :
      (now : ℕ) (locked : RunKey → ℕ → Bool) → Step s db (after_tx (fire_tx s now locked) db)
  enqueue_query :
      (now : ℕ) (key : RunKey) (queue type : String) (args : Bytes)
      → Step s db (after_tx (enqueue_query_task now key queue type args) db)
  complete_query :
      (id : ℕ) (token : Option Uuid) (result : Bytes)
      → Step s db (after_tx (complete_query_task id token result) db)
  fail_query :
      (id : ℕ) (token : Option Uuid) (message : String)
      → Step s db (after_tx (fail_query_task id token message) db)
  delete_query : (id : ℕ) → Step s db (after_tx (delete_query_task_row id) db)
  reap_workflow : (now : ℕ) → Step s db (reap_expired_workflow_tasks now db)
  reap_activity : (now : ℕ) → Step s db (reap_expired_activity_tasks now db)
  reap_query : (now : ℕ) → Step s db (reap_expired_query_tasks now db)

-- The steps in a row, the first one first.
pub data Reaches (s : Store) (db : Db) : Db → Type 0 where
  here : Reaches s db db
  next : (db' db'' : Db) → Reaches s db db' → Step s db' db'' → Reaches s db db''
