-- ===== src/History/System/Reachable.antt =====
-- What holds of every database that the server can reach.
use flowd_engine.Base.{ℕ, refl, find?, select}
use flowd_engine.Db.Types.{Db, RunKey}
use flowd_engine.Db.Events.{rows_of}
use flowd_engine.History.Append.{NewEvent}
use flowd_engine.History.Append.Contiguous.{IsContiguous}
use flowd_engine.History.Contiguity.{set_sticky_execution-Keeps}
use flowd_engine.History.Keeps.{Keeps, with_tx-Keeps}
use flowd_engine.History.Contiguity.Statements.{
  statement_rules, record_and_wake-Keeps, complete_workflow_task_row-Keeps,
  enqueue_workflow_task-Keeps,
}
use flowd_engine.History.Contiguity.Handlers.{
  start_tx-Keeps, complete_workflow_tx-Keeps, complete_activity_tx-Keeps, retry_tx-Keeps,
  fail_activity_tx-Keeps, terminate_tx-Keeps, fire_tx-Keeps,
}
use flowd_engine.History.Contiguity.Queues.{
  dequeue_workflow_task-Keeps, dequeue_activity_task-Keeps, dequeue_query_task-Keeps,
  complete_query_task-Keeps, fail_query_task-Keeps, enqueue_query_task-Keeps,
  delete_query_task_row-Keeps, reap_expired-IsContiguous, create_namespace_row-Keeps,
}
use flowd_engine.History.Dispatch.{append_one}
use flowd_engine.History.Store.{Store}
use flowd_engine.History.System.{
  Step, create_namespace, start_workflow, signal_or_cancel, terminate_workflow, dequeue_workflow,
  dequeue_activity, dequeue_query, record_started, complete_workflow, drop_workflow_task,
  set_sticky, requeue_workflow_task, complete_activity, retry_activity, fail_activity, fire_timer,
  enqueue_query, complete_query, fail_query, delete_query, reap_workflow, reap_activity, reap_query,
  Reaches, here, next, empty_db,
}

append_one-Keeps :
    (s : Store) (now : ℕ) (key : RunKey) (event : NewEvent)
    → Keeps IsContiguous (append_one s now key event)
unfolding append_one
append_one-Keeps s now key event = search statement_rules

-- Every step keeps the histories contiguous: the transaction of each constructor does.
Step-IsContiguous : (s : Store) (db db' : Db) → Step s db db' → IsContiguous db → IsContiguous db'
Step-IsContiguous s db _ (create_namespace now name) c =
    with_tx-Keeps _ (create_namespace_row-Keeps now name) db c
Step-IsContiguous s db _ (start_workflow now ns p run) c =
    with_tx-Keeps _ (start_tx-Keeps s now ns p run) db c
Step-IsContiguous s db _ (signal_or_cancel now key we event) c =
    with_tx-Keeps _ (record_and_wake-Keeps s now key we event) db c
Step-IsContiguous s db _ (terminate_workflow now ns id run reason) c =
    with_tx-Keeps _ (terminate_tx-Keeps s now ns id run reason) db c
Step-IsContiguous s db _ (dequeue_workflow now locked token n p) c =
    with_tx-Keeps _ (dequeue_workflow_task-Keeps now locked token n p) db c
Step-IsContiguous s db _ (dequeue_activity now locked token p) c =
    with_tx-Keeps _ (dequeue_activity_task-Keeps now locked token p) db c
Step-IsContiguous s db _ (dequeue_query now locked token n queue ns) c =
    with_tx-Keeps _ (dequeue_query_task-Keeps now locked token n queue ns) db c
Step-IsContiguous s db _ (record_started now key event) c =
    with_tx-Keeps _ (append_one-Keeps s now key event) db c
Step-IsContiguous s db _ (complete_workflow now run request token commands sticky) c =
    with_tx-Keeps _ (complete_workflow_tx-Keeps s now run request token commands sticky) db c
Step-IsContiguous s db _ (drop_workflow_task id token) c =
    with_tx-Keeps _ (complete_workflow_task_row-Keeps id token) db c
Step-IsContiguous s db _ (set_sticky now key identity expires_at) c =
    with_tx-Keeps _ (set_sticky_execution-Keeps now key identity expires_at) db c
Step-IsContiguous s db _ (requeue_workflow_task now p) c =
    with_tx-Keeps _ (enqueue_workflow_task-Keeps now p) db c
Step-IsContiguous s db _ (complete_activity now token result) c =
    with_tx-Keeps _ (complete_activity_tx-Keeps s now token result) db c
Step-IsContiguous s db _ (retry_activity now token row) c =
    with_tx-Keeps _ (retry_tx-Keeps s.ext now token row) db c
Step-IsContiguous s db _ (fail_activity now token row failure) c =
    with_tx-Keeps _ (fail_activity_tx-Keeps s now token row failure) db c
Step-IsContiguous s db _ (fire_timer now locked) c =
    with_tx-Keeps _ (fire_tx-Keeps s now locked) db c
Step-IsContiguous s db _ (enqueue_query now key queue type args) c =
    with_tx-Keeps _ (enqueue_query_task-Keeps now key queue type args) db c
Step-IsContiguous s db _ (complete_query id token result) c =
    with_tx-Keeps _ (complete_query_task-Keeps id token result) db c
Step-IsContiguous s db _ (fail_query id token message) c =
    with_tx-Keeps _ (fail_query_task-Keeps id token message) db c
Step-IsContiguous s db _ (delete_query id) c = with_tx-Keeps _ (delete_query_task_row-Keeps id) db c
Step-IsContiguous s db _ (reap_workflow now) c = (reap_expired-IsContiguous now db c).0
Step-IsContiguous s db _ (reap_activity now) c = (reap_expired-IsContiguous now db c).1
Step-IsContiguous s db _ (reap_query now) c = (reap_expired-IsContiguous now db c).2

empty_db-IsContiguous : IsContiguous empty_db
unfolding find? rows_of select
empty_db-IsContiguous = record { runs = tt; ids = λ j. refl }

pub Reaches-IsContiguous : (s : Store) (a b : Db) → Reaches s a b → IsContiguous a → IsContiguous b
Reaches-IsContiguous s a _ here c = c
Reaches-IsContiguous s a _ (next b b' r step) c =
    Step-IsContiguous s b b' step (Reaches-IsContiguous s a b r c)

-- In every database that the server can reach from the empty one, by whatever transactions in
-- whatever order, the primary key of workflow_executions is unique, and the ids of each run's
-- events are 1, 2, … without a gap or a repetition, up to one below its next_event_id.
pub reachable-IsContiguous : (s : Store) (db : Db) → Reaches s empty_db db → IsContiguous db
reachable-IsContiguous s db r = Reaches-IsContiguous s empty_db db r empty_db-IsContiguous
