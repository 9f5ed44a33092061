-- ===== src/Db/Executions.antt =====
-- sqlc/executions.sql.go: current_executions and workflow_executions.
use flowd_engine.Base.{
  ℕ, ◌+◌, Option, none, some, [], ◌∷◌, ◌++◌, String, str_eq, find?, update, Bool, ◌&&◌, ◌==◌,
}
use flowd_engine.Base.Result.{no_rows, unique_violation, Tx, ok, err, or_fail, modify}
use flowd_engine.Proto.{Int64}
use flowd_engine.Db.Types.{
  Db, RunKey, key_eq, CurrentExecution, WorkflowExecution, ExecutionStatus, running,
}

-- namespace_id = $1 AND workflow_id = $2
unfoldable pub is_current : ℕ → String → CurrentExecution → Bool
is_current ns workflow_id c = c.namespace_id == ns && str_eq c.workflow_id workflow_id

unfoldable pub find_current : ℕ → String → Db → Option CurrentExecution
unfolding is_current
find_current ns workflow_id db = find? (is_current ns workflow_id) db.current_executions

unfoldable pub find_execution : RunKey → Db → Option WorkflowExecution
find_execution key db = find? (λ we. key_eq key we.key) db.workflow_executions

-- INSERT … ON CONFLICT (namespace_id, workflow_id) DO NOTHING: the number of rows inserted.
unfoldable pub insert_current_execution : CurrentExecution → Tx Db ℕ
unfolding find_current
insert_current_execution c db = elim (find_current c.namespace_id c.workflow_id db) [
  | some _ ↦ ok (0, db)
  | none ↦ ok (1, record db { current_executions = db.current_executions ++ c ∷ [] })
]

unfoldable pub get_current_execution : ℕ → String → Tx Db CurrentExecution
unfolding find_current
get_current_execution ns workflow_id db = or_fail no_rows (find_current ns workflow_id db) db

unfoldable pub replace_current_execution : CurrentExecution → Tx Db (Unit {0})
unfolding is_current
replace_current_execution c = modify λ db. record db {
  current_executions =
      update (is_current c.namespace_id c.workflow_id)
        (λ old. record old { run_id = c.run_id; create_request_id = c.create_request_id })
        db.current_executions;
}

pub record NewExecution : Type 0 where
  pub workflow_type : String
  pub task_queue : String
  pub shard_id : ℕ
  pub execution_timeout_ns : Option Int64
  pub run_timeout_ns : Option Int64
  pub task_timeout_ns : Option Int64

-- The row that CreateWorkflowExecution inserts: 'RUNNING', next_event_id 1, and the defaults.
unfoldable pub new_row : ℕ → RunKey → NewExecution → WorkflowExecution
new_row now key p = record {
  key = key;
  workflow_type = p.workflow_type;
  task_queue = p.task_queue;
  status = running;
  next_event_id = 1;
  shard_id = p.shard_id;
  execution_timeout_ns = p.execution_timeout_ns;
  run_timeout_ns = p.run_timeout_ns;
  task_timeout_ns = p.task_timeout_ns;
  start_time = now;
  close_time = none;
  updated_at = now;
  sticky_worker_identity = none;
  sticky_expires_at = none;
}

unfoldable pub create_workflow_execution : ℕ → RunKey → NewExecution → Tx Db (Unit {0})
unfolding find_execution new_row
create_workflow_execution now key p db = elim (find_execution key db) [
  | some _ ↦ err unique_violation
  | none ↦
      ok (tt, record db { workflow_executions = db.workflow_executions ++ new_row now key p ∷ [] })
]

unfoldable pub get_workflow_execution : RunKey → Tx Db WorkflowExecution
unfolding find_execution
get_workflow_execution key db = or_fail no_rows (find_execution key db) db

-- namespace_id, workflow_id, run_id = key AND next_event_id = expected
unfoldable pub has_version : RunKey → ℕ → WorkflowExecution → Bool
has_version key expected we = key_eq key we.key && we.next_event_id == expected

unfoldable pub advance_row : ℕ → ℕ → WorkflowExecution → WorkflowExecution
advance_row now increment we = record we {
  next_event_id = we.next_event_id + increment;
  updated_at = now;
}

-- The compare-and-set on next_event_id (ADR-0002, Mechanism B); it returns the new value.
unfoldable pub advance_next_event_id : ℕ → RunKey → ℕ → ℕ → Tx Db ℕ
advance_next_event_id now key increment expected db =
    elim (find? (has_version key expected) db.workflow_executions) [
      | none ↦ err no_rows
      | some we ↦ ok (
        we.next_event_id + increment,
        record db {
          workflow_executions =
              update (has_version key expected) (advance_row now increment) db.workflow_executions;
        },
      )
    ]

unfoldable pub close_workflow_execution : ℕ → RunKey → ExecutionStatus → Tx Db (Unit {0})
close_workflow_execution now key status = modify λ db. record db {
  workflow_executions =
      update (λ we. key_eq key we.key)
        (λ we. record we { status = status; close_time = some now; updated_at = now })
        db.workflow_executions;
}

unfoldable pub set_sticky_execution : ℕ → RunKey → Option String → Option ℕ → Tx Db (Unit {0})
set_sticky_execution now key identity expires_at = modify λ db. record db {
  workflow_executions =
      update (λ we. key_eq key we.key)
        (λ we. record we {
          sticky_worker_identity = identity;
          sticky_expires_at = expires_at;
          updated_at = now;
        })
        db.workflow_executions;
}
