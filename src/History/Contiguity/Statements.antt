-- ===== src/History/Contiguity/Statements.antt =====
-- The single statements, and the tail that most transactions share, keep the histories contiguous.
use flowd_engine.Base.{ℕ, refl, Option, none, some, List, [], ◌∷◌, ◌++◌, suc, String, find?}
use flowd_engine.Base.Result.{ok, err, not_null_violation, unique_violation}
use flowd_engine.Proto.{External, Uuid}
use flowd_engine.Db.Types.{Db, RunKey, WorkflowExecution, CurrentExecution, Timer}
use flowd_engine.Db.Executions.{
  get_current_execution, get_workflow_execution, insert_current_execution,
  replace_current_execution, find_current, find_execution,
}
use flowd_engine.Db.ActivityTasks.{
  EnqueueActivityTaskParams, enqueue_activity_task, get_activity_task_by_lease,
  complete_activity_task_rows, retry_activity_task, new_activity_task,
}
use flowd_engine.Db.WorkflowTasks.{
  EnqueueWorkflowTaskParams, enqueue_workflow_task, complete_workflow_task_row,
}
use flowd_engine.Db.Timers.{insert_timer, is_timer}
use flowd_engine.History.Append.{NewEvent, append_history}
use flowd_engine.History.Append.Contiguous.{IsContiguous}
use flowd_engine.History.Append.Preserve.{Leaves, append_history-IsContiguous}
use flowd_engine.History.Keeps.{
  keeps_rules, Keeps, >>=-Keeps, >>-Keeps, or_fail-Keeps, pure-Keeps, fail-Keeps, nonzero-Keeps,
  renamed-Keeps, if-Keeps,
}
use flowd_engine.History.Contiguity.{
  elsewhere, create_workflow_execution-Keeps, close_workflow_execution-Keeps,
  set_sticky_execution-Keeps,
}
use flowd_engine.History.Store.{Store}
use flowd_engine.History.Wake.{record_and_wake}

pub enqueue_workflow_task-Keeps :
    (now : ℕ) (p : EnqueueWorkflowTaskParams) → Keeps IsContiguous (enqueue_workflow_task now p)
unfolding enqueue_workflow_task
enqueue_workflow_task-Keeps now p = record { leaves = λ db c. elsewhere db _ refl refl c }

pub get_workflow_execution-Keeps : (key : RunKey) → Keeps IsContiguous (get_workflow_execution key)
unfolding get_workflow_execution
get_workflow_execution-Keeps key = record {
  leaves = λ db c. (or_fail-Keeps _ (find_execution key db)).leaves db c;
}

pub get_current_execution-Keeps :
    (ns : ℕ) (id : String) → Keeps IsContiguous (get_current_execution ns id)
unfolding get_current_execution
get_current_execution-Keeps ns id = record {
  leaves = λ db c. (or_fail-Keeps _ (find_current ns id db)).leaves db c;
}

pub append_history-Keeps :
    (ext : External) (now : ℕ) (key : RunKey) (expected : ℕ) (evs : List NewEvent)
    → Keeps IsContiguous (append_history ext now key expected evs)
append_history-Keeps ext now key expected evs = record {
  leaves = append_history-IsContiguous ext now key expected evs;
}

pub record_and_wake-Keeps :
    (s : Store) (now : ℕ) (key : RunKey) (we : WorkflowExecution) (event : NewEvent)
    → Keeps IsContiguous (record_and_wake s now key we event)
unfolding record_and_wake
record_and_wake-Keeps s now key we event =
    search (keeps_rules, append_history-Keeps, enqueue_workflow_task-Keeps)

pub get_activity_task_by_lease-Keeps :
    (id : ℕ) (token : Option Uuid) → Keeps IsContiguous (get_activity_task_by_lease id token)
unfolding get_activity_task_by_lease
get_activity_task_by_lease-Keeps id token = record {
  leaves = λ db c. (or_fail-Keeps _ (find? _ db.activity_tasks)).leaves db c;
}

pub complete_activity_task_rows-Keeps :
    (id : ℕ) (token : Option Uuid) → Keeps IsContiguous (complete_activity_task_rows id token)
unfolding complete_activity_task_rows
complete_activity_task_rows-Keeps id token = record { leaves = λ db c. elsewhere db _ refl refl c }

pub retry_activity_task-Keeps :
    (now id : ℕ) (token : Option Uuid) (d : ℕ)
    → Keeps IsContiguous (retry_activity_task now id token d)
unfolding retry_activity_task
retry_activity_task-Keeps now id token d = record { leaves = λ db c. elsewhere db _ refl refl c }

pub insert_current_execution-Keeps :
    (row : CurrentExecution) → Keeps IsContiguous (insert_current_execution row)
unfolding insert_current_execution
insert_current_execution-Keeps row = record {
  leaves = λ db c. split db c (find_current row.namespace_id row.workflow_id db);
}
  where
    split :
        (db : Db)
        → IsContiguous db
        → (o : Option CurrentExecution)
        → Leaves {A = ℕ} IsContiguous (elim o [
          | some _ ↦ ok (0, db)
          | none ↦ ok (1, record db { current_executions = db.current_executions ++ row ∷ [] })
        ])
    split db c (some _) = c
    split db c none = elsewhere db _ refl refl c

pub replace_current_execution-Keeps :
    (row : CurrentExecution) → Keeps IsContiguous (replace_current_execution row)
unfolding replace_current_execution
replace_current_execution-Keeps row = record { leaves = λ db c. elsewhere db _ refl refl c }

pub complete_workflow_task_row-Keeps :
    (id : ℕ) (token : Option Uuid) → Keeps IsContiguous (complete_workflow_task_row id token)
unfolding complete_workflow_task_row
complete_workflow_task_row-Keeps id token = record { leaves = λ db c. elsewhere db _ refl refl c }

pub enqueue_activity_task-Keeps :
    (now : ℕ) (p : EnqueueActivityTaskParams) → Keeps IsContiguous (enqueue_activity_task now p)
unfolding enqueue_activity_task
enqueue_activity_task-Keeps now p = record {
  leaves = λ db c. split db c p.retry_non_retryable_types;
}
  where
    split :
        (db : Db)
        → IsContiguous db
        → (o : Option (List String))
        → Leaves IsContiguous (elim o [
          | none ↦ err not_null_violation
          | some types ↦ ok (
            tt,
            record db {
              activity_tasks =
                  db.activity_tasks ++ new_activity_task db.next_task_id now p types ∷ [];
              next_task_id = suc db.next_task_id;
            },
          )
        ])
    split db c none = tt
    split db c (some types) = elsewhere db _ refl refl c

pub insert_timer-Keeps : (t : Timer) → Keeps IsContiguous (insert_timer t)
unfolding insert_timer
insert_timer-Keeps t = record {
  leaves = λ db c. split db c (find? (is_timer t.key t.timer_id) db.timers);
}
  where
    split :
        (db : Db)
        → IsContiguous db
        → (o : Option Timer)
        → Leaves IsContiguous (elim o [
          | some _ ↦ err unique_violation
          | none ↦ ok (tt, record db { timers = db.timers ++ t ∷ [] })
        ])
    split db c (some _) = tt
    split db c none = elsewhere db _ refl refl c

-- The statements that the transactions are made of.
pub ruleset statement_rules = (
  keeps_rules, enqueue_workflow_task-Keeps, get_workflow_execution-Keeps,
  get_current_execution-Keeps, append_history-Keeps, record_and_wake-Keeps,
  get_activity_task_by_lease-Keeps, complete_activity_task_rows-Keeps, retry_activity_task-Keeps,
  insert_current_execution-Keeps, replace_current_execution-Keeps, complete_workflow_task_row-Keeps,
  enqueue_activity_task-Keeps, insert_timer-Keeps, create_workflow_execution-Keeps,
  close_workflow_execution-Keeps, set_sticky_execution-Keeps,
)
