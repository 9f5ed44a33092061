-- ===== src/History/Frames.antt =====
-- The tables that recording an event, and waking its workflow, does not touch.
use flowd_engine.Base.{
  ℕ, ◌+◌, ◌≡◌, refl, Option, none, some, List, [], ◌∷◌, ◌++◌, String, find?, update, suc, ◌∙◌, ◌&&◌,
  ◌==◌,
}
use flowd_engine.Base.Result.{
  ok, err, marshal_error, unique_violation, no_rows, Tx, ◌>>=◌, pure, or_fail,
}
use flowd_engine.Proto.{External}
use flowd_engine.Db.Types.{
  Db, RunKey, key_eq, Namespace, CurrentExecution, ActivityTask, HistoryRow, WorkflowExecution,
}
use flowd_engine.Db.Events.{insert_history_event}
use flowd_engine.Db.Executions.{
  NewExecution, new_row, create_workflow_execution, find_execution, advance_next_event_id,
  has_version, advance_row, get_workflow_execution,
}
use flowd_engine.Db.WorkflowTasks.{EnqueueWorkflowTaskParams, enqueue_workflow_task}
use flowd_engine.History.Append.{
  NewEvent, append_history, insert_events, advance_or_conflict, or_conflict,
}
use flowd_engine.History.Append.Laws.{event_row}
use flowd_engine.History.Append.Preserve.{Leaves}
use flowd_engine.History.Keeps.{Keeps, keeps_rules, >>=-Keeps, or_fail-Keeps}
use flowd_engine.History.Start.{StartWorkflowExecutionParams, begin_run}
use flowd_engine.History.Store.{Store}
use flowd_engine.History.Wake.{record_and_wake}

-- The namespaces, the current runs and the activity tasks are these.
pub record Others (n : List Namespace) (c : List CurrentExecution) (a : List ActivityTask) (db : Db)
    : Type 0 where
  pub namespaces : db.namespaces ≡ n
  pub current_executions : db.current_executions ≡ c
  pub activity_tasks : db.activity_tasks ≡ a

module _ (n : List Namespace) (c : List CurrentExecution) (a : List ActivityTask) where
  abbrev P : Db → Type 0
  P = Others n c a

  carried :
      (db db' : Db)
      → db'.namespaces ≡ db.namespaces
      → db'.current_executions ≡ db.current_executions
      → db'.activity_tasks ≡ db.activity_tasks
      → P db
      → P db'
  carried db db' x y z o = record {
    namespaces = x ∙ o.namespaces;
    current_executions = y ∙ o.current_executions;
    activity_tasks = z ∙ o.activity_tasks;
  }

  insert_history_event-Others : (row : HistoryRow) → Keeps P (insert_history_event row)
  unfolding insert_history_event
  insert_history_event-Others row = record {
    leaves = λ db o.
        split db o
          (find? (λ r. key_eq row.key r.key && r.event_id == row.event_id) db.history_events);
  }
    where
      split :
          (db : Db)
          → P db
          → (o : Option HistoryRow)
          → Leaves {A = Unit {0}} P (elim o [
            | some _ ↦ err unique_violation
            | none ↦ ok (tt, record db { history_events = db.history_events ++ row ∷ [] })
          ])
      split db o (some _) = tt
      split db o none = carried db _ refl refl refl o

  insert_events-Others :
      (ext : External) (now : ℕ) (key : RunKey) (id : ℕ) (evs : List NewEvent)
      → Keeps P (insert_events ext now key id evs)
  unfolding insert_events
  insert_events-Others ext now key id [] = search keeps_rules
  insert_events-Others ext now key id (ev ∷ evs) =
      >>=-Keeps (or_fail marshal_error (ext.marshal ev.attributes)) rest (or_fail-Keeps _ _)
        (λ bytes.
          >>=-Keeps (insert_history_event (event_row now key id ev bytes)) (λ _. more)
            (insert_history_event-Others _)
            (λ _. more-Others (insert_events-Others ext now key (suc id) evs)))
    where
      more : Tx Db (List ℕ)
      more = do ids ← insert_events ext now key (suc id) evs; pure (id ∷ ids)

      rest : List ℕ → Tx Db (List ℕ)
      rest bytes = do _ ← insert_history_event (event_row now key id ev bytes); more

      more-Others : Keeps P (insert_events ext now key (suc id) evs) → Keeps P more
      more-Others k = search (keeps_rules, k)

  advance_or_conflict-Others :
      (now : ℕ) (key : RunKey) (k expected : ℕ) → Keeps P (advance_or_conflict now key k expected)
  unfolding advance_or_conflict advance_next_event_id
  advance_or_conflict-Others now key k expected = record {
    leaves = λ db o. split db o (find? (has_version key expected) db.workflow_executions);
  }
    where
      split :
          (db : Db)
          → P db
          → (o : Option WorkflowExecution)
          → Leaves {A = ℕ} P (
              or_conflict (elim o [
                | none ↦ err no_rows
                | some we ↦ ok (
                  we.next_event_id + k,
                  record db {
                    workflow_executions =
                        update
                          (has_version key expected)
                          (advance_row now k)
                          db.workflow_executions;
                  },
                )
              ]))
      split db o none = tt
      split db o (some we) = carried db _ refl refl refl o

  append_history-Others :
      (ext : External) (now : ℕ) (key : RunKey) (expected : ℕ) (evs : List NewEvent)
      → Keeps P (append_history ext now key expected evs)
  unfolding append_history
  append_history-Others ext now key expected [] = search keeps_rules
  append_history-Others ext now key expected (ev ∷ evs) =
      search (keeps_rules, advance_or_conflict-Others, insert_events-Others)

  enqueue_workflow_task-Others :
      (now : ℕ) (p : EnqueueWorkflowTaskParams) → Keeps P (enqueue_workflow_task now p)
  unfolding enqueue_workflow_task
  enqueue_workflow_task-Others now p = record { leaves = λ db o. carried db _ refl refl refl o }

  create_workflow_execution-Others :
      (now : ℕ) (key : RunKey) (p : NewExecution) → Keeps P (create_workflow_execution now key p)
  unfolding create_workflow_execution
  create_workflow_execution-Others now key p = record {
    leaves = λ db o. split db o (find_execution key db);
  }
    where
      split :
          (db : Db)
          → P db
          → (o : Option WorkflowExecution)
          → Leaves {A = Unit {0}} P (elim o [
            | some _ ↦ err unique_violation
            | none ↦ ok (
              tt,
              record db { workflow_executions = db.workflow_executions ++ new_row now key p ∷ [] },
            )
          ])
      split db o (some _) = tt
      split db o none = carried db _ refl refl refl o

  pub record_and_wake-Others :
      (s : Store) (now : ℕ) (key : RunKey) (we : WorkflowExecution) (event : NewEvent)
      → Keeps P (record_and_wake s now key we event)
  unfolding record_and_wake
  record_and_wake-Others s now key we event =
      search (keeps_rules, append_history-Others, enqueue_workflow_task-Others)

  pub begin_run-Others :
      (s : Store) (now ns : ℕ) (p : StartWorkflowExecutionParams) (run : String)
      → Keeps P (begin_run s now ns p run)
  unfolding begin_run
  begin_run-Others s now ns p run = search (
    keeps_rules, append_history-Others, enqueue_workflow_task-Others,
    create_workflow_execution-Others,
  )

  pub get_workflow_execution-Others : (key : RunKey) → Keeps P (get_workflow_execution key)
  unfolding get_workflow_execution
  get_workflow_execution-Others key = record {
    leaves = λ db o. (or_fail-Keeps {P = P} no_rows (find_execution key db)).leaves db o;
  }
