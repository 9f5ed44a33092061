-- ===== src/History/Contiguity/Handlers.antt =====
-- The transactions of the handlers keep the histories contiguous, one after the other.
use flowd_engine.Base.{
  ℕ, refl, Bool, Option, none, some, List, [], ◌∷◌, String, min_by, select, leb, not, ◌&&◌, delete,
}
use flowd_engine.Base.Result.{Result, ok, err, no_rows, Tx, ◌>>=◌, pure}
use flowd_engine.Proto.{
  External, Failure, Payload, Command, ContinueAsNewCommand, StartTimerCommand,
}
use flowd_engine.Db.Types.{Db, RunKey, WorkflowExecution, ExecutionStatus, ActivityTask, Timer}
use flowd_engine.Db.Executions.{get_workflow_execution}
use flowd_engine.Db.ActivityTasks.{EnqueueActivityTaskParams, enqueue_activity_task, shift}
use flowd_engine.Db.Timers.{dequeue_due_timer, is_timer}
use flowd_engine.History.Activity.{
  complete_activity_task_row, complete_activity_tx, retry_tx, fail_activity_tx,
}
use flowd_engine.History.Append.Contiguous.{IsContiguous}
use flowd_engine.History.Append.Preserve.{Leaves}
use flowd_engine.History.Keeps.{keeps_rules, Keeps, >>-Keeps}
use flowd_engine.History.Contiguity.{elsewhere}
use flowd_engine.History.Query.{terminate_tx}
use flowd_engine.History.Signal.{resolve_run}
use flowd_engine.History.Start.{
  StartWorkflowExecutionParams, take_over, begin_run, begin_unless, start_tx,
}
use flowd_engine.History.Store.{Store}
use flowd_engine.History.TaskToken.{TaskToken}
use flowd_engine.History.Timers.{fire_tx, timer_fired_event}
use flowd_engine.History.Notifier.{QueueKey, workflow_queue_key}
use flowd_engine.History.Wake.{record_and_wake}
use flowd_engine.History.WorkflowTask.{
  nth, as_duration, StickyAttributes, enqueue_activities, insert_timers, continue_workflow_as_new,
  check_plan, close_if, continue_if, stick_if, complete_workflow_tx,
}
use flowd_engine.History.WorkflowTask.Plan.{CommandPlan, plan_commands, plan_from, empty_plan}
use flowd_engine.History.Contiguity.Statements.{
  statement_rules, enqueue_activity_task-Keeps, insert_timer-Keeps,
}

pub complete_activity_tx-Keeps :
    (s : Store) (now : ℕ) (token : TaskToken) (result : Option Payload)
    → Keeps IsContiguous (complete_activity_tx s now token result)
unfolding complete_activity_tx complete_activity_task_row
complete_activity_tx-Keeps s now token result = search statement_rules

pub retry_tx-Keeps :
    (ext : External) (now : ℕ) (token : TaskToken) (row : ActivityTask)
    → Keeps IsContiguous (retry_tx ext now token row)
unfolding retry_tx
retry_tx-Keeps ext now token row = search statement_rules

pub fail_activity_tx-Keeps :
    (s : Store) (now : ℕ) (token : TaskToken) (row : ActivityTask) (failure : Option Failure)
    → Keeps IsContiguous (fail_activity_tx s now token row failure)
unfolding fail_activity_tx
fail_activity_tx-Keeps s now token row failure = search statement_rules

pub terminate_tx-Keeps :
    (s : Store) (now ns : ℕ) (workflow_id run_id reason : String)
    → Keeps IsContiguous (terminate_tx s now ns workflow_id run_id reason)
unfolding terminate_tx resolve_run
terminate_tx-Keeps s now ns workflow_id run_id reason = search statement_rules

begin_run-Keeps :
    (s : Store) (now ns : ℕ) (p : StartWorkflowExecutionParams) (new_run_id : String)
    → Keeps IsContiguous (begin_run s now ns p new_run_id)
unfolding begin_run
begin_run-Keeps s now ns p new_run_id = search statement_rules

take_over-Keeps :
    (ns : ℕ) (p : StartWorkflowExecutionParams) (new_run_id : String)
    → Keeps IsContiguous (take_over ns p new_run_id)
unfolding take_over
take_over-Keeps ns p new_run_id = search statement_rules depth 12

begin_unless-Keeps :
    (s : Store) (now ns : ℕ) (p : StartWorkflowExecutionParams) (new_run_id : String)
    (replay : Option String)
    → Keeps IsContiguous (begin_unless s now ns p new_run_id replay)
begin_unless-Keeps s now ns p new_run_id none = search (statement_rules, begin_run-Keeps)
begin_unless-Keeps s now ns p new_run_id (some id) = search statement_rules

pub start_tx-Keeps :
    (s : Store) (now ns : ℕ) (p : StartWorkflowExecutionParams) (new_run_id : String)
    → Keeps IsContiguous (start_tx s now ns p new_run_id)
unfolding start_tx
start_tx-Keeps s now ns p new_run_id = search (statement_rules, take_over-Keeps, begin_unless-Keeps)

enqueue_activities-Keeps :
    (now : ℕ) (ids : List ℕ) (ps : List (ℕ × EnqueueActivityTaskParams))
    → Keeps IsContiguous (enqueue_activities now ids ps)
unfolding enqueue_activities
enqueue_activities-Keeps now ids [] = search keeps_rules
enqueue_activities-Keeps now ids ((i, p) ∷ ps) =
    >>-Keeps (enqueue_activity_task now (record p { scheduled_event_id = nth ids i }))
      (enqueue_activities now ids ps) (enqueue_activity_task-Keeps now _)
      (enqueue_activities-Keeps now ids ps)

insert_timers-Keeps :
    (now : ℕ) (key : RunKey) (ids : List ℕ) (ts : List (ℕ × StartTimerCommand))
    → Keeps IsContiguous (insert_timers now key ids ts)
unfolding insert_timers
insert_timers-Keeps now key ids [] = search keeps_rules
insert_timers-Keeps now key ids ((i, t) ∷ ts) =
    >>-Keeps _ (insert_timers now key ids ts)
      (insert_timer-Keeps (record {
        key = key;
        timer_id = t.timer_id;
        fire_at = shift now (as_duration t.duration);
        scheduled_event_id = nth ids i;
      }))
      (insert_timers-Keeps now key ids ts)

continue_workflow_as_new-Keeps :
    (s : Store) (now : ℕ) (token : TaskToken) (we : WorkflowExecution) (run request : String)
    (cmd : ContinueAsNewCommand)
    → Keeps IsContiguous (continue_workflow_as_new s now token we run request cmd)
unfolding continue_workflow_as_new
continue_workflow_as_new-Keeps s now token we run request cmd = search statement_rules

close_if-Keeps :
    (now : ℕ) (key : RunKey) (o : Option ExecutionStatus) → Keeps IsContiguous (close_if now key o)
unfolding close_if
close_if-Keeps now key none = search statement_rules
close_if-Keeps now key (some status) = search statement_rules

continue_if-Keeps :
    (s : Store) (now : ℕ) (token : TaskToken) (we : WorkflowExecution) (run request : String)
    (o : Option ContinueAsNewCommand)
    → Keeps IsContiguous (continue_if s now token we run request o)
unfolding continue_if
continue_if-Keeps s now token we run request none = search statement_rules
continue_if-Keeps s now token we run request (some cmd) = search continue_workflow_as_new-Keeps

stick_if-Keeps :
    (now : ℕ) (key : RunKey) (o : Option ExecutionStatus) (sticky : Option StickyAttributes)
    → Keeps IsContiguous (stick_if now key o sticky)
unfolding stick_if
stick_if-Keeps now key none sticky = search statement_rules
stick_if-Keeps now key (some status) sticky = search statement_rules

check_plan-Keeps : (p : CommandPlan) → Keeps IsContiguous (check_plan p)
unfolding check_plan
check_plan-Keeps p = search statement_rules

plan_commands-Keeps :
    (s : Store) (token : TaskToken) (we : WorkflowExecution) (run : String) (cs : List Command)
    → Keeps IsContiguous (plan_commands s token we run cs)
unfolding plan_commands
plan_commands-Keeps s token we run cs = record {
  leaves = λ db c. split db c (plan_from s token we run empty_plan cs);
}
  where
    split :
        (db : Db)
        → IsContiguous db
        → (r : Result CommandPlan)
        → Leaves {A = CommandPlan} IsContiguous (elim r [ ok p ↦ ok (p, db) | err e ↦ err e ])
    split db c (ok p) = c
    split db c (err e) = tt

ruleset completion_rules = (
  statement_rules, enqueue_activities-Keeps, insert_timers-Keeps, close_if-Keeps, continue_if-Keeps,
  stick_if-Keeps, check_plan-Keeps, plan_commands-Keeps,
)

pub complete_workflow_tx-Keeps :
    (s : Store) (now : ℕ) (run request : String) (token : TaskToken) (commands : List Command)
    (sticky : Option StickyAttributes)
    → Keeps IsContiguous (complete_workflow_tx s now run request token commands sticky)
unfolding complete_workflow_tx
complete_workflow_tx-Keeps s now run request token commands sticky =
    search completion_rules depth 20 fits 4000

pub fire_tx-Keeps :
    (s : Store) (now : ℕ) (locked : RunKey → ℕ → Bool) → Keeps IsContiguous (fire_tx s now locked)
unfolding fire_tx dequeue_due_timer
fire_tx-Keeps s now locked = record {
  leaves = λ db c. split db c (
      min_by (λ t. t.fire_at)
        (select (λ t. leb t.fire_at now && not (locked t.key t.timer_id)) db.timers));
}
  where
    fire : Timer → Tx Db (Option QueueKey)
    fire t = do
      we ← get_workflow_execution t.key
      queue ← record_and_wake s now t.key we (timer_fired_event t.timer_id)
      pure (some (workflow_queue_key t.key.namespace_id queue))

    fire-Keeps : (t : Timer) → Keeps IsContiguous (fire t)
    fire-Keeps t = search statement_rules

    found : Db → Option Timer → Result (Timer × Db)
    found db o = elim o [
      | none ↦ err no_rows
      | some t ↦ ok (t, record db { timers = delete (is_timer t.key t.timer_id) db.timers })
    ]

    split :
        (db : Db)
        → IsContiguous db
        → (o : Option Timer)
        → Leaves IsContiguous (elim (found db o) [
          | err no_rows ↦ ok (none, db)
          | err e ↦ err e
          | ok (t, db') ↦ fire t db'
        ])
    split db c none = c
    split db c (some t) = (fire-Keeps t).leaves _ (elsewhere db _ refl refl c)
