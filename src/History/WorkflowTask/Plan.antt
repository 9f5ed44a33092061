-- ===== src/History/WorkflowTask/Plan.antt =====
-- The loop over the commands of CompleteWorkflowTask (workflow_task.go), and
-- activityEnqueueParams (util.go): what the commands ask for, before anything is written.
pub mod Indices
use flowd_engine.Base.{
  ℕ, ◌+◌, String, str_eq, Option, some, none, List, [], ◌∷◌, ◌++◌, length, if◌then◌else◌,
}
use flowd_engine.Base.Result.{unsupported_command, Result, ok, err, Tx}
use flowd_engine.Proto
use flowd_engine.Proto.{
  Int64, is_positive, External, RetryPolicy, ScheduleActivityTaskCommand, StartTimerCommand,
  ContinueAsNewCommand, Command, schedule_activity_task, start_timer, complete_workflow_execution,
  fail_workflow_execution, continue_as_new_workflow_execution, no_command,
}
use flowd_engine.Db.Types
use flowd_engine.Db.Types.{Db, RunKey, WorkflowExecution, ExecutionStatus}
use flowd_engine.Db.ActivityTasks.{EnqueueActivityTaskParams}
use flowd_engine.History.Append.{NewEvent}
use flowd_engine.History.Activity.{token_key}
use flowd_engine.History.Sharding.{partition_for}
use flowd_engine.History.Store.{Store}
use flowd_engine.History.TaskToken.{TaskToken}

abbrev pub string_or_fallback : String → String → String
string_or_fallback v fallback = if str_eq v "" then fallback else v

-- What the loop has gathered. Beside an enqueue or a timer stands the index of its event.
pub record CommandPlan : Type 0 where
  pub events : List NewEvent
  pub close_status : Option ExecutionStatus
  pub activities : List (ℕ × EnqueueActivityTaskParams)
  pub timers : List (ℕ × StartTimerCommand)
  pub terminal_commands : ℕ
  pub schedule_or_timer_commands : ℕ
  pub continue_as_new : Option ContinueAsNewCommand

abbrev pub empty_plan : CommandPlan
empty_plan = record {
  events =
      record {
        event_type = Proto.HistoryEventType.workflow_task_completed;
        attributes = Proto.Attributes.task_completed;
      }
      ∷ [];
  close_status = none;
  activities = [];
  timers = [];
  terminal_commands = 0;
  schedule_or_timer_commands = 0;
  continue_as_new = none;
}

abbrev duration_ns : Option Int64 → Int64
duration_ns none = 0
duration_ns (some d) = d

abbrev pub default_start_to_close_ns : Int64
default_start_to_close_ns = 30_000_000_000

-- An unset list of types is a nil slice, which the insert binds as NULL; without a policy the list
-- is the empty one.
abbrev non_retryable : Option RetryPolicy → Option (List String)
non_retryable none = some []
non_retryable (some rp) = elim rp.non_retryable_error_types [ [] ↦ none | t ∷ ts ↦ some (t ∷ ts) ]

abbrev initial_ns : Option RetryPolicy → Int64
initial_ns none = 0
initial_ns (some rp) = duration_ns rp.initial_interval

abbrev max_interval_ns : Option RetryPolicy → Int64
max_interval_ns none = 0
max_interval_ns (some rp) = duration_ns rp.max_interval

abbrev coefficient : External → Option RetryPolicy → ℕ
coefficient ext none = ext.two
coefficient ext (some rp) =
    if ext.is_positive_float rp.backoff_coefficient then rp.backoff_coefficient else ext.two

abbrev max_attempts : Option RetryPolicy → ℕ
max_attempts none = 0
max_attempts (some rp) = rp.max_attempts

unfoldable pub activity_enqueue_params :
    External → RunKey → String → ℕ → ScheduleActivityTaskCommand → EnqueueActivityTaskParams
activity_enqueue_params ext key queue partition cmd = record {
  key = key;
  task_queue_name = queue;
  task_queue_partition = partition;
  activity_id = cmd.activity_id;
  activity_type = cmd.activity_type;
  scheduled_event_id = 0;
  input = ext.marshal_payload cmd.input;
  schedule_to_start_timeout_ns = duration_ns cmd.schedule_to_start_timeout;
  start_to_close_timeout_ns =
      if is_positive (duration_ns cmd.start_to_close_timeout)
      then duration_ns cmd.start_to_close_timeout
      else default_start_to_close_ns;
  retry_initial_interval_ns = initial_ns cmd.retry_policy;
  retry_backoff_coefficient = coefficient ext cmd.retry_policy;
  retry_max_interval_ns = max_interval_ns cmd.retry_policy;
  retry_max_attempts = max_attempts cmd.retry_policy;
  retry_non_retryable_types = non_retryable cmd.retry_policy;
}

abbrev continued_event : WorkflowExecution → String → ContinueAsNewCommand → NewEvent
continued_event we new_run_id cmd = record {
  event_type = Proto.HistoryEventType.workflow_execution_continued_as_new;
  attributes = Proto.Attributes.continued_as_new (record {
    new_run_id = new_run_id;
    workflow_type = string_or_fallback cmd.workflow_type we.workflow_type;
    task_queue = string_or_fallback cmd.task_queue we.task_queue;
    input = cmd.input;
  });
}

-- One command. `new_run_id` is what uuid.NewString() returns; a response with two of them is
-- rejected later.
unfoldable pub plan_command :
    Store → TaskToken → WorkflowExecution → String → CommandPlan → Command → Result CommandPlan
unfolding activity_enqueue_params partition_for
plan_command s token we new_run_id p (schedule_activity_task cmd) = ok (record p {
  schedule_or_timer_commands = p.schedule_or_timer_commands + 1;
  events =
      p.events
      ++ record {
        event_type = Proto.HistoryEventType.activity_task_scheduled;
        attributes = Proto.Attributes.activity_scheduled cmd;
      }
        ∷ [];
  activities =
      p.activities
      ++ (
        length p.events,
        activity_enqueue_params s.ext (token_key token) we.task_queue
            (partition_for s.ext token.workflow_id s.num_task_queue_partitions) cmd,
      )
        ∷ [];
})
plan_command s token we new_run_id p (start_timer st) = ok (record p {
  schedule_or_timer_commands = p.schedule_or_timer_commands + 1;
  events =
      p.events
      ++ record {
        event_type = Proto.HistoryEventType.timer_started;
        attributes = Proto.Attributes.timer_started st;
      }
        ∷ [];
  timers = p.timers ++ (length p.events, st) ∷ [];
})
plan_command s token we new_run_id p (complete_workflow_execution result) = ok (record p {
  terminal_commands = p.terminal_commands + 1;
  events =
      p.events
      ++ record {
        event_type = Proto.HistoryEventType.workflow_execution_completed;
        attributes = Proto.Attributes.execution_completed result;
      }
        ∷ [];
  close_status = some Types.ExecutionStatus.completed;
})
plan_command s token we new_run_id p (fail_workflow_execution failure) = ok (record p {
  terminal_commands = p.terminal_commands + 1;
  events =
      p.events
      ++ record {
        event_type = Proto.HistoryEventType.workflow_execution_failed;
        attributes = Proto.Attributes.execution_failed failure;
      }
        ∷ [];
  close_status = some Types.ExecutionStatus.failed;
})
plan_command s token we new_run_id p (continue_as_new_workflow_execution cmd) = ok (record p {
  terminal_commands = p.terminal_commands + 1;
  continue_as_new = some cmd;
  events = p.events ++ continued_event we new_run_id cmd ∷ [];
  close_status = some Types.ExecutionStatus.continued_as_new;
})
plan_command s token we new_run_id p no_command = err unsupported_command

unfoldable pub plan_from :
    Store → TaskToken → WorkflowExecution → String → CommandPlan → List Command → Result CommandPlan
unfolding plan_command
plan_from s token we new_run_id p [] = ok p
plan_from s token we new_run_id p (c ∷ cs) = elim (plan_command s token we new_run_id p c) [
  | ok p' ↦ plan_from s token we new_run_id p' cs
  | err e ↦ err e
]

unfoldable pub plan_commands :
    Store → TaskToken → WorkflowExecution → String → List Command → Tx Db CommandPlan
unfolding plan_from
plan_commands s token we new_run_id commands db =
    elim (plan_from s token we new_run_id empty_plan commands) [ ok p ↦ ok (p, db) | err e ↦ err e ]
