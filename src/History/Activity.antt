-- ===== src/History/Activity.antt =====
-- internal/history/activity_task.go: CompleteActivityTask and FailActivityTask.
pub mod Failed
pub mod Leases
pub mod Once
pub mod Retries
use flowd_engine.Base.{
  ℕ, ◌+◌, ◌-◌, ◌*◌, ◌%◌, String, str_eq, Bool, true, false, not, ◌&&◌, ◌||◌, Option, some, none,
  List, [], ◌∷◌, ◌==◌, if◌then◌else◌,
}
use flowd_engine.Base.Result.{
  Error, Result, ok, err, Tx, ◌>>=◌, ◌>>◌, pure, fail, nonzero, renamed, no_rows_as,
  task_lease_expired, wrong_token_kind, nil_dereference,
}
use flowd_engine.Proto.{
  Int64, is_positive, signed_ltb, signed32_ltb, External, Payload, Failure, Uuid,
  activity_task_completed, activity_completed, activity_task_failed, activity_failed,
}
use flowd_engine.Db.Types.{Db, RunKey, ActivityTask}
use flowd_engine.Db.Executions.{get_workflow_execution}
use flowd_engine.Db.ActivityTasks.{
  get_activity_task_by_lease, complete_activity_task_rows, retry_activity_task,
}
use flowd_engine.History.Append.{NewEvent}
use flowd_engine.History.Notifier.{QueueKey, workflow_queue_key}
use flowd_engine.History.Start.{run_key}
use flowd_engine.History.Store.{Store, State, with_tx, then_notify}
use flowd_engine.History.TaskToken.{TaskToken, TaskTokenKind, workflow, activity, query}
use flowd_engine.History.Wake.{record_and_wake}

abbrev pub token_key : TaskToken → RunKey
token_key t = run_key t.namespace_id t.workflow_id t.run_id

abbrev pub is_activity_token : TaskTokenKind → Bool
is_activity_token activity = true
is_activity_token _ = false

unfoldable pub complete_activity_task_row : External → TaskToken → Tx Db ActivityTask
unfolding get_activity_task_by_lease complete_activity_task_rows
complete_activity_task_row ext token = do
  row ←
      renamed (no_rows_as task_lease_expired)
        (get_activity_task_by_lease token.task_id (ext.uuid_parse token.lease_token))
  affected ← complete_activity_task_rows token.task_id (ext.uuid_parse token.lease_token)
  nonzero task_lease_expired affected
  pure row

abbrev pub completed_event : ℕ → Option Payload → NewEvent
completed_event id result = record {
  event_type = activity_task_completed;
  attributes = activity_completed id result;
}

unfoldable pub complete_activity_tx : Store → ℕ → TaskToken → Option Payload → Tx Db String
unfolding complete_activity_task_row get_workflow_execution record_and_wake
complete_activity_tx s now token result = do
  row ← complete_activity_task_row s.ext token
  we ← get_workflow_execution (token_key token)
  record_and_wake s now (token_key token) we (completed_event row.activity_id result)

unfoldable pub complete_activity_task :
    Store → ℕ → TaskToken → Option Payload → State → Result String × State
unfolding complete_activity_tx with_tx then_notify
complete_activity_task s now token result st =
    if is_activity_token token.kind
    then then_notify (λ queue. workflow_queue_key token.namespace_id queue ∷ []) st.notifier
        (with_tx (complete_activity_tx s now token result) st.db)
    else (err wrong_token_kind, st)

-- Whether the failure's type is listed; with a type to compare, a missing failure is a nil
-- dereference.
unfoldable pub is_listed : String → List String → Bool
is_listed type [] = false
is_listed type (t ∷ ts) = str_eq t type || is_listed type ts

unfoldable pub is_non_retryable : Option Failure → List String → Result Bool
unfolding is_listed
is_non_retryable failure [] = ok false
is_non_retryable none (t ∷ ts) = err nil_dereference
is_non_retryable (some f) (t ∷ ts) = ok (is_listed f.type (t ∷ ts))

-- Both numbers are int32; a negative limit is below every attempt.
abbrev pub attempts_remain : ActivityTask → Bool
attempts_remain row = row.retry_max_attempts == 0 || signed32_ltb row.attempt row.retry_max_attempts

-- The product of two int64, and the cap on it.
unfoldable pub backoff : External → ActivityTask → Int64
backoff ext row =
    let delay : ℕ =
      row.retry_initial_interval_ns
      * ext.pow_int64 row.retry_backoff_coefficient (row.attempt - 1)
      % 18446744073709551616 in
    if is_positive row.retry_max_interval_ns && signed_ltb row.retry_max_interval_ns delay
    then row.retry_max_interval_ns
    else delay

abbrev pub failed_event : ActivityTask → Option Failure → NewEvent
failed_event row failure = record {
  event_type = activity_task_failed;
  attributes = activity_failed row.activity_id failure row.attempt;
}

-- The queue to wake, if the workflow was woken.
abbrev woken : ℕ → Option String → List QueueKey
woken ns none = []
woken ns (some queue) = workflow_queue_key ns queue ∷ []

unfoldable pub retry_tx : External → ℕ → TaskToken → ActivityTask → Tx Db (Unit {0})
unfolding retry_activity_task backoff
retry_tx ext now token row = do
  affected ←
      retry_activity_task now token.task_id (ext.uuid_parse token.lease_token) (backoff ext row)
  nonzero task_lease_expired affected

unfoldable pub fail_activity_tx :
    Store → ℕ → TaskToken → ActivityTask → Option Failure → Tx Db String
unfolding complete_activity_task_rows get_workflow_execution record_and_wake
fail_activity_tx s now token row failure = do
  affected ← complete_activity_task_rows token.task_id (s.ext.uuid_parse token.lease_token)
  nonzero task_lease_expired affected
  we ← get_workflow_execution (token_key token)
  record_and_wake s now (token_key token) we (failed_event row failure)

-- With the row read, a failed attempt is either put back in the queue or recorded.
unfoldable pub fail_attempt :
    Store
    → ℕ
    → TaskToken
    → Option Failure
    → ActivityTask
    → Bool
    → State
    → Result (Option String) × State
unfolding retry_tx fail_activity_tx with_tx then_notify
fail_attempt s now token failure row true st =
    then_notify (λ _. []) st.notifier (with_tx (do retry_tx s.ext now token row; pure none) st.db)
fail_attempt s now token failure row false st =
    then_notify (woken token.namespace_id) st.notifier
      (with_tx (do queue ← fail_activity_tx s now token row failure; pure (some queue)) st.db)

unfoldable pub fail_activity_task :
    Store → ℕ → TaskToken → Option Failure → State → Result (Option String) × State
unfolding get_activity_task_by_lease is_non_retryable fail_attempt
fail_activity_task s now token failure st =
    if is_activity_token token.kind
    then elim (get_activity_task_by_lease token.task_id (s.ext.uuid_parse token.lease_token)
        st.db) [
          | err e ↦ (err (no_rows_as task_lease_expired e), st)
          | ok (row, _) ↦ elim (is_non_retryable failure row.retry_non_retryable_types) [
            | err e ↦ (err e, st)
            | ok listed ↦
                fail_attempt s now token failure row (attempts_remain row && not listed) st
          ]
        ]
    else (err wrong_token_kind, st)
