-- ===== src/History/WorkflowTask.antt =====
-- internal/history/workflow_task.go: CompleteWorkflowTask and continueWorkflowAsNew.
pub mod Plan
pub mod Stamps
pub mod Leases
use flowd_engine.Base.{
  ℕ, zero, suc, String, str_eq, Bool, true, false, Option, some, none, List, [], ◌∷◌, ◌++◌, ltb,
  ◌&&◌, if◌then◌else◌,
}
use flowd_engine.Base.Result.{
  Error, Result, ok, err, Tx, ◌>>=◌, ◌>>◌, pure, fail, nonzero, task_lease_expired,
  wrong_token_kind, too_many_terminal_commands, continue_as_new_not_alone,
}
use flowd_engine.Proto.{
  Int64, ContinueAsNewCommand, StartTimerCommand, Command, workflow_execution_started,
  execution_started,
}
use flowd_engine.Db.Types.{Db, RunKey, WorkflowExecution, ExecutionStatus}
use flowd_engine.Db.ActivityTasks.{EnqueueActivityTaskParams, enqueue_activity_task, shift}
use flowd_engine.Db.Executions.{
  get_workflow_execution, close_workflow_execution, set_sticky_execution, replace_current_execution,
  create_workflow_execution,
}
use flowd_engine.Db.Timers.{insert_timer}
use flowd_engine.Db.WorkflowTasks.{complete_workflow_task_row, enqueue_workflow_task}
use flowd_engine.History.Activity.{token_key}
use flowd_engine.History.Append.{append_history}
use flowd_engine.History.Notifier.{QueueKey, workflow_queue_key, activity_queue_key}
use flowd_engine.History.Sharding.{partition_for}
use flowd_engine.History.Start.{run_key, duration_to_pg_int8}
use flowd_engine.History.Store.{Store, State, with_tx, then_notify}
use flowd_engine.History.TaskToken.{TaskToken, TaskTokenKind, workflow, activity, query}
use flowd_engine.History.Wake.{scheduled_event}
use Plan.{CommandPlan, string_or_fallback, plan_commands}

abbrev pub is_workflow_token : TaskTokenKind → Bool
is_workflow_token workflow = true
is_workflow_token _ = false

pub record StickyAttributes : Type 0 where
  pub worker_identity : String
  pub schedule_to_start_timeout : Int64

abbrev pub duration_or_fallback : Option Int64 → Option Int64 → Option Int64
duration_or_fallback none fallback = fallback
duration_or_fallback (some d) fallback = duration_to_pg_int8 d

-- ids[i]; the indices are those of the plan's events.
abbrev pub nth : List ℕ → ℕ → ℕ
nth [] i = 0
nth (x ∷ xs) zero = x
nth (x ∷ xs) (suc i) = nth xs i

unfoldable pub enqueue_activities :
    ℕ → List ℕ → List (ℕ × EnqueueActivityTaskParams) → Tx Db (Unit {0})
unfolding enqueue_activity_task
enqueue_activities now ids [] = pure tt
enqueue_activities now ids ((i, p) ∷ ps) = do
  enqueue_activity_task now (record p { scheduled_event_id = nth ids i })
  enqueue_activities now ids ps

abbrev pub as_duration : Option Int64 → Int64
as_duration none = 0
as_duration (some d) = d

unfoldable pub insert_timers : ℕ → RunKey → List ℕ → List (ℕ × StartTimerCommand) → Tx Db (Unit {0})
unfolding insert_timer
insert_timers now key ids [] = pure tt
insert_timers now key ids ((i, st) ∷ ts) = do
  insert_timer (record {
    key = key;
    timer_id = st.timer_id;
    fire_at = shift now (as_duration st.duration);
    scheduled_event_id = nth ids i;
  })
  insert_timers now key ids ts

-- `new_run_id` and `new_request_id` are what the two calls of uuid.NewString() return.
unfoldable pub continue_workflow_as_new :
    Store
    → ℕ
    → TaskToken
    → WorkflowExecution
    → String
    → String
    → ContinueAsNewCommand
    → Tx Db (Unit {0})
unfolding replace_current_execution create_workflow_execution append_history enqueue_workflow_task
    partition_for
continue_workflow_as_new s now token we new_run_id new_request_id cmd = do
  let key = run_key token.namespace_id token.workflow_id new_run_id
  let new_type = string_or_fallback cmd.workflow_type we.workflow_type
  let new_queue = string_or_fallback cmd.task_queue we.task_queue
  replace_current_execution (record {
    namespace_id = token.namespace_id;
    workflow_id = token.workflow_id;
    run_id = new_run_id;
    create_request_id = new_request_id;
  })
  create_workflow_execution now key (record {
    workflow_type = new_type;
    task_queue = new_queue;
    shard_id = partition_for s.ext token.workflow_id s.num_shards;
    execution_timeout_ns = we.execution_timeout_ns;
    run_timeout_ns = duration_or_fallback cmd.workflow_run_timeout we.run_timeout_ns;
    task_timeout_ns = duration_or_fallback cmd.workflow_task_timeout we.task_timeout_ns;
  })
  _ ← append_history s.ext now key 1 (
      record {
        event_type = workflow_execution_started;
        attributes = execution_started (record {
          workflow_type = new_type;
          task_queue = new_queue;
          input = cmd.input;
          retry_policy = cmd.retry_policy;
          continued_from_run_id = token.run_id;
        });
      }
      ∷ scheduled_event new_queue
      ∷ [])
  enqueue_workflow_task now (record {
    key = key;
    task_queue_name = new_queue;
    task_queue_partition = partition_for s.ext token.workflow_id s.num_task_queue_partitions;
    scheduled_event_id = 2;
    preferred_worker_identity = none;
    sticky_deadline = none;
  })

abbrev has_continue : Option ContinueAsNewCommand → Bool
has_continue none = false
has_continue (some c) = true

-- The two checks on the commands together.
unfoldable pub check_plan : CommandPlan → Tx Db (Unit {0})
check_plan p =
    if ltb 1 p.terminal_commands
    then fail too_many_terminal_commands
    else (if has_continue p.continue_as_new && ltb 0 p.schedule_or_timer_commands
        then fail continue_as_new_not_alone
        else pure tt)

unfoldable pub close_if : ℕ → RunKey → Option ExecutionStatus → Tx Db (Unit {0})
unfolding close_workflow_execution
close_if now key none = pure tt
close_if now key (some status) = close_workflow_execution now key status

unfoldable pub continue_if :
    Store
    → ℕ
    → TaskToken
    → WorkflowExecution
    → String
    → String
    → Option ContinueAsNewCommand
    → Tx Db (Unit {0})
unfolding continue_workflow_as_new
continue_if s now token we new_run_id new_request_id none = pure tt
continue_if s now token we new_run_id new_request_id (some cmd) =
    continue_workflow_as_new s now token we new_run_id new_request_id cmd

-- The registration of this round, or none, on a run that stays open.
abbrev sticky_fields : ℕ → Option StickyAttributes → Option String × Option ℕ
sticky_fields now none = (none, none)
sticky_fields now (some a) =
    if str_eq a.worker_identity ""
    then (none, none)
    else (some a.worker_identity, some (shift now a.schedule_to_start_timeout))

unfoldable pub stick_if :
    ℕ → RunKey → Option ExecutionStatus → Option StickyAttributes → Tx Db (Unit {0})
unfolding set_sticky_execution
stick_if now key (some status) sticky = pure tt
stick_if now key none sticky =
    set_sticky_execution now key (sticky_fields now sticky).0 (sticky_fields now sticky).1

-- The queues to wake: the activities', if one was enqueued, and the new run's.
abbrev activity_wakes : ℕ → String → List (ℕ × EnqueueActivityTaskParams) → List QueueKey
activity_wakes ns queue [] = []
activity_wakes ns queue (_ ∷ _) = activity_queue_key ns queue ∷ []

abbrev continue_wakes : ℕ → String → Option ContinueAsNewCommand → List QueueKey
continue_wakes ns queue none = []
continue_wakes ns queue (some cmd) =
    if str_eq (string_or_fallback cmd.task_queue queue) ""
    then []
    else workflow_queue_key ns (string_or_fallback cmd.task_queue queue) ∷ []

unfoldable pub complete_workflow_tx :
    Store
    → ℕ
    → String
    → String
    → TaskToken
    → List Command
    → Option StickyAttributes
    → Tx Db (List QueueKey)
unfolding complete_workflow_task_row get_workflow_execution plan_commands append_history
    enqueue_activities insert_timers close_if continue_if stick_if check_plan
complete_workflow_tx s now new_run_id new_request_id token commands sticky = do
  let key = token_key token
  affected ← complete_workflow_task_row token.task_id (s.ext.uuid_parse token.lease_token)
  nonzero task_lease_expired affected
  we ← get_workflow_execution key
  plan ← plan_commands s token we new_run_id commands
  check_plan plan
  appended ← append_history s.ext now key we.next_event_id plan.events
  enqueue_activities now appended.1 plan.activities
  insert_timers now key appended.1 plan.timers
  close_if now key plan.close_status
  continue_if s now token we new_run_id new_request_id plan.continue_as_new
  stick_if now key plan.close_status sticky
  pure (
      activity_wakes token.namespace_id we.task_queue plan.activities
      ++ continue_wakes token.namespace_id we.task_queue plan.continue_as_new)

unfoldable pub complete_workflow_task :
    Store
    → ℕ
    → String
    → String
    → TaskToken
    → List Command
    → Option StickyAttributes
    → State
    → Result (List QueueKey) × State
unfolding complete_workflow_tx with_tx then_notify
complete_workflow_task s now new_run_id new_request_id token commands sticky st =
    if is_workflow_token token.kind
    then then_notify (λ keys. keys) st.notifier
        (with_tx (complete_workflow_tx s now new_run_id new_request_id token commands sticky) st.db)
    else (err wrong_token_kind, st)
