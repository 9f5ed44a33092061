-- ===== src/History/Signal/Writes.antt =====
-- What a signal or a cancellation that succeeds has written, whatever raced with it.
use flowd_engine.Base.{ℕ, suc, ◌≡◌, ◌⊎◌, some, List, [], ◌∷◌, ◌++◌, String, length, range_from}
use flowd_engine.Base.Result.{Result, ok, err}
use flowd_engine.Proto.{External}
use flowd_engine.Db.Types.{
  Db, CurrentExecution, RunKey, WorkflowExecution, WorkflowTask, HistoryRow,
}
use flowd_engine.Db.Executions.{find_current, find_execution}
use flowd_engine.Db.WorkflowTasks.{new_workflow_task}
use flowd_engine.History.Append.{NewEvent}
use flowd_engine.History.Append.Laws.{encode_rows}
use flowd_engine.History.Notifier.{Notifier}
use flowd_engine.History.Start.{run_key}
use flowd_engine.History.Store.{Store}
use flowd_engine.History.Sharding.{partition_for}
use flowd_engine.History.Wake.{scheduled_event, second, sticky_enqueue_fields}

-- The task that record_and_wake enqueues.
abbrev woken_task : Store → ℕ → RunKey → WorkflowExecution → List ℕ → ℕ → WorkflowTask
woken_task s now key we ids id = new_workflow_task id now (record {
  key = key;
  task_queue_name = we.task_queue;
  task_queue_partition = partition_for s.ext key.workflow_id s.num_task_queue_partitions;
  scheduled_event_id = second ids;
  preferred_worker_identity = (sticky_enqueue_fields now we).0;
  sticky_deadline = (sticky_enqueue_fields now we).1;
})

-- The event and its WorkflowTaskScheduled are the newest events of the run, and a workflow task
-- waits for them.
pub record IsWritten (ext : External) (now : ℕ) (key : RunKey) (event : NewEvent) (queue : String)
    (before after : Db) : Type 0 where
  pub row : WorkflowExecution
  pub found : find_execution key before ≡ some row
  pub rows : List HistoryRow
  pub encoded :
      encode_rows ext now key row.next_event_id (event ∷ scheduled_event queue ∷ []) ≡ some rows
  pub history : after.history_events ≡ before.history_events ++ rows
  pub task : WorkflowTask
  pub tasks : after.workflow_tasks ≡ before.workflow_tasks ++ task ∷ []
  pub task_key : task.key ≡ key
  pub task_queue : task.task_queue_name ≡ queue
  pub task_event : task.scheduled_event_id ≡ suc row.next_event_id

-- What is known of an append of some events that has succeeded.
abbrev Appended :
    External → ℕ → RunKey → ℕ → List NewEvent → Db → Result ((ℕ × List ℕ) × Db) → Type 0
Appended ext now key v evs db (ok ((n, ids), mid)) =
    (we : WorkflowExecution) × (rows : List HistoryRow) × (find_execution key db ≡ some we)
    × (we.next_event_id ≡ v)
    × (encode_rows ext now key v evs ≡ some rows)
    × (ids ≡ range_from v (length evs))
    × (mid.history_events ≡ db.history_events ++ rows)
    × (mid.workflow_tasks ≡ db.workflow_tasks)
Appended ext now key v evs db (err e) = Unit {0}

-- The run is the one that the request names, or the current one of the workflow if it names none.
abbrev pub IsNamed : ℕ → String → String → Db → String → Type 0
IsNamed ns workflow_id run_id db id =
    (id ≡ run_id)
    ⊎ ((c : CurrentExecution) × (run_id ≡ "")
        × (find_current ns workflow_id db ≡ some c)
        × (id ≡ c.run_id))

-- How a write of an event ends, where I is what is known of the database without the write: on
-- success a run was read from one such database, and the event is written to the one that the race
-- made of it; on failure nothing is written.
abbrev pub Outcome :
    Store
    → ℕ
    → (ℕ → Db → Db)
    → (Db → Type 0)
    → ℕ
    → String
    → String
    → NewEvent
    → Result String × Db
    → Type 0
Outcome s now race I ns workflow_id run_id event (ok queue, after) =
    (read : Db) × (k : ℕ) × (id : String) × I read
    × IsNamed ns workflow_id run_id read id
    × IsWritten s.ext now (run_key ns workflow_id id) event queue (race k read) after
Outcome s now race I ns workflow_id run_id event (err e, after) = I after
