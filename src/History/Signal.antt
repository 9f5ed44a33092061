-- ===== src/History/Signal.antt =====
-- internal/history/signal.go and cancel.go: writes from outside that wake a workflow.
pub mod Writes
use flowd_engine.Base.{ℕ, String, str_eq, Option, [], ◌∷◌, if◌then◌else◌}
use flowd_engine.Base.Result.{Result, ok, err, Tx, ◌>>=◌, pure}
use flowd_engine.Proto.{
  Payload, workflow_execution_signaled, execution_signaled, workflow_execution_cancel_requested,
  cancel_requested,
}
use flowd_engine.Db.Types.{Db, RunKey, WorkflowExecution}
use flowd_engine.Db.Executions.{get_current_execution, get_workflow_execution}
use flowd_engine.History.Append.{NewEvent}
use flowd_engine.History.Notifier.{workflow_queue_key}
use flowd_engine.History.Retry.{with_tx_retry_on_conflict}
use flowd_engine.History.Start.{run_key}
use flowd_engine.History.Store.{Store, State, with_tx, with_namespace, then_notify}
use flowd_engine.History.Wake.{record_and_wake}

-- The run_id of the request, or of the current run if that is empty.
unfoldable pub resolve_run : ℕ → String → String → Tx Db String
unfolding get_current_execution
resolve_run ns workflow_id run_id =
    if str_eq run_id ""
    then (do cur ← get_current_execution ns workflow_id; pure cur.run_id)
    else pure run_id

pub record ResolvedRun : Type 0 where
  pub key : RunKey
  pub row : WorkflowExecution

unfoldable pub resolve : ℕ → String → String → Tx Db ResolvedRun
unfolding resolve_run get_workflow_execution
resolve ns workflow_id run_id = do
  id ← resolve_run ns workflow_id run_id
  we ← get_workflow_execution (run_key ns workflow_id id)
  pure (record { key = run_key ns workflow_id id; row = we })

-- One attempt: the run is read; then other transactions may commit (`race`, by the number of
-- attempts that may follow); then the event is written at the version that was read.
unfoldable pub write_attempt :
    Store → ℕ → (ℕ → Db → Db) → ℕ → String → String → NewEvent → ℕ → Db → Result String × Db
unfolding resolve record_and_wake with_tx
write_attempt s now race ns workflow_id run_id event k db =
    elim (resolve ns workflow_id run_id db) [
      | err e ↦ (err e, db)
      | ok (run, _) ↦ with_tx (record_and_wake s now run.key run.row event) (race k db)
    ]

unfoldable pub write_event :
    Store → ℕ → (ℕ → Db → Db) → String → String → String → NewEvent → State → Result String × State
unfolding write_attempt with_tx_retry_on_conflict with_namespace then_notify
write_event s now race namespace workflow_id run_id event = with_namespace namespace λ ns st.
    then_notify (λ queue. workflow_queue_key ns queue ∷ []) st.notifier
      (with_tx_retry_on_conflict (write_attempt s now race ns workflow_id run_id event) st.db)

pub record SignalWorkflowExecutionParams : Type 0 where
  pub namespace : String
  pub workflow_id : String
  pub run_id : String
  pub signal_name : String
  pub input : Option Payload

abbrev pub signal_event : SignalWorkflowExecutionParams → NewEvent
signal_event p = record {
  event_type = workflow_execution_signaled;
  attributes = execution_signaled p.signal_name p.input;
}

unfoldable pub signal_workflow_execution :
    Store → ℕ → (ℕ → Db → Db) → SignalWorkflowExecutionParams → State → Result String × State
unfolding write_event
signal_workflow_execution s now race p =
    write_event s now race p.namespace p.workflow_id p.run_id (signal_event p)

pub record RequestCancelParams : Type 0 where
  pub namespace : String
  pub workflow_id : String
  pub run_id : String
  pub reason : String

abbrev pub cancel_event : RequestCancelParams → NewEvent
cancel_event p = record {
  event_type = workflow_execution_cancel_requested;
  attributes = cancel_requested p.reason;
}

unfoldable pub request_cancel_workflow_execution :
    Store → ℕ → (ℕ → Db → Db) → RequestCancelParams → State → Result String × State
unfolding write_event
request_cancel_workflow_execution s now race p =
    write_event s now race p.namespace p.workflow_id p.run_id (cancel_event p)
