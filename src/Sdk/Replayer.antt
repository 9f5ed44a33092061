-- ===== src/Sdk/Replayer.antt =====
-- sdk/internal/replayer: a workflow's execution and its coroutines. Goroutines hand control to one
-- another by channels, one at a time, so a round is a sequence of runs; a coroutine that is
-- parked in Yield is the code that is left of it.
pub mod Handlers
pub mod Run
pub mod Load
pub mod Parks
pub mod Recorded
pub mod Ready
pub mod Later
pub mod Past
pub mod Sticky
use flowd_engine.Base.{
  ℕ, zero, suc, ◌+◌, String, str_eq, Bool, true, false, ◌&&◌, Option, none, some, List, [], ◌∷◌,
  ◌++◌, ◌==◌, find?, get_elem?, if◌then◌else◌,
}
use flowd_engine.Proto.{
  Int64, is_positive, Payload, Failure, RetryPolicy, Command, ContinueAsNewCommand,
  schedule_activity_task, start_timer, complete_workflow_execution, fail_workflow_execution,
  continue_as_new_workflow_execution,
}

-- A panic of workflow code: the data of a NonDeterministicError's message, for an activity and for
-- a timer, or any other panic.
pub data WorkflowPanic : Type 0 where
  activity_mismatch : ℕ → String → ℕ → String → WorkflowPanic
  timer_mismatch : ℕ → ℕ → WorkflowPanic
  other_panic : String → WorkflowPanic

pub record ActivityOutcome : Type 0 where
  pub result : Option Payload
  pub failure : Option Failure

pub record ActivityOptions : Type 0 where
  pub retry_policy : Option RetryPolicy
  pub schedule_to_start_timeout : Int64
  pub start_to_close_timeout : Int64

pub record ScheduledActivity : Type 0 where
  pub activity_id : ℕ
  pub activity_type : String

pub record ScheduledTimer : Type 0 where
  pub timer_id : ℕ
  pub duration : Int64

pub record ContinueAsNewOptions : Type 0 where
  pub task_queue : String
  pub retry_policy : Option RetryPolicy
  pub workflow_run_timeout : Int64
  pub workflow_task_timeout : Int64

-- What the converter makes of a value: a payload, or the text of an error.
pub data Marshaled : Type 0 where
  payload : Payload → Marshaled
  not_marshaled : String → Marshaled

-- What a workflow function returns: a value, the ContinueAsNewError sentinel, or another error.
pub data WorkflowReturn : Type 0 where
  returned : Marshaled → WorkflowReturn
  continue_error : String → Marshaled → ContinueAsNewOptions → WorkflowReturn
  returned_error : String → String → WorkflowReturn

pub record PendingSignal : Type 0 where
  pub name : String
  pub payload : Option Payload

-- The variables that a workflow's functions share are of the type `U`.
module _ (U : Type 0) where
  -- A signal handler may panic; a query handler only reads, and answers or fails. Handlers that
  -- call package workflow themselves are left out.
  abbrev pub SignalHandler : Type 0
  SignalHandler = Option Payload → U → U × Option WorkflowPanic

  abbrev pub QueryHandler : Type 0
  QueryHandler = Option Payload → U → Marshaled

  -- Workflow code, as the calls that it makes of package workflow: what comes after a call is a
  -- function of what the call gives. Code that runs on forever without a call is left out.
  pub data Code : Type 0 where
    finish : WorkflowReturn → Code
    stop : Code
    throw : String → Code
    schedule_activity : String → Option Payload → ActivityOptions → (ℕ → Code) → Code
    schedule_timer : Int64 → (ℕ → Code) → Code
    -- ActivityFuture.Get and TimerFuture.Get
    get_activity : ℕ → (ActivityOutcome → Code) → Code
    get_timer : ℕ → Code → Code
    now : (ℕ → Code) → Code
    cancellation : (Bool → String → Code) → Code
    go : Code → Code → Code
    set_query_handler : String → QueryHandler → Code → Code
    set_signal_handler : String → SignalHandler → Code → Code
    -- the code's own variables
    modify : (U → U) → (U → Code) → Code

  -- `waiting`: not begun, or parked in Yield; `pump`: the loop that SetSignalHandler starts.
  pub data Coroutine : Type 0 where
    waiting : Code → Coroutine
    pump : Coroutine
    finished : Coroutine
    panicked : WorkflowPanic → Coroutine

  -- Execution, with its Dispatcher's coroutines in the order of creation. A map is a list with
  -- the latest entry first.
  pub record Execution : Type 0 where
    pub coroutines : List Coroutine
    pub vars : U
    pub now_time : ℕ
    pub scheduled_activities : List ScheduledActivity
    pub scheduled_timers : List ScheduledTimer
    pub activity_outcomes : List (ℕ × ActivityOutcome)
    pub fired_timers : List ℕ
    pub next_activity_idx : ℕ
    pub next_timer_idx : ℕ
    pub new_commands : List Command
    pub result : Option Payload
    pub failure : Option Failure
    pub continued_as_new : Option ContinueAsNewCommand
    pub is_cancel_requested : Bool
    pub cancel_reason : String
    pub query_handlers : List (String × QueryHandler)
    pub signal_handlers : List (String × SignalHandler)
    pub pending_signals : List PendingSignal
    pub signal_pump_started : Bool

-- The entry of a key in a map.
unfoldable pub outcome_of : ℕ → List (ℕ × ActivityOutcome) → Option ActivityOutcome
outcome_of id [] = none
outcome_of id ((k, o) ∷ os) = if k == id then some o else outcome_of id os

abbrev pub duration_or_nil : Int64 → Option Int64
duration_or_nil d = if is_positive d then some d else none

abbrev pub command_of : ℕ → String → Option Payload → ActivityOptions → Command
command_of id type input opts = schedule_activity_task (record {
  activity_id = id;
  activity_type = type;
  input = input;
  retry_policy = opts.retry_policy;
  schedule_to_start_timeout = duration_or_nil opts.schedule_to_start_timeout;
  start_to_close_timeout = duration_or_nil opts.start_to_close_timeout;
})

abbrev continue_command : String → Option Payload → ContinueAsNewOptions → ContinueAsNewCommand
continue_command type input opts = record {
  workflow_type = type;
  task_queue = opts.task_queue;
  input = input;
  retry_policy = opts.retry_policy;
  workflow_run_timeout = duration_or_nil opts.workflow_run_timeout;
  workflow_task_timeout = duration_or_nil opts.workflow_task_timeout;
}

module _ {U : Type 0} where
  -- The zero Execution, over the variables' first values. `time.Time{}` is the instant 0.
  unfoldable pub new_execution : U → Execution U
  new_execution u = record {
    coroutines = [];
    vars = u;
    now_time = 0;
    scheduled_activities = [];
    scheduled_timers = [];
    activity_outcomes = [];
    fired_timers = [];
    next_activity_idx = 0;
    next_timer_idx = 0;
    new_commands = [];
    result = none;
    failure = none;
    continued_as_new = none;
    is_cancel_requested = false;
    cancel_reason = "";
    query_handlers = [];
    signal_handlers = [];
    pending_signals = [];
    signal_pump_started = false;
  }

  unfoldable pub reset_round_output : Execution U → Execution U
  reset_round_output e = record e {
    new_commands = [];
    result = none;
    failure = none;
    continued_as_new = none;
  }

  -- ScheduleActivity against what history has recorded at the same place: the panic if there is
  -- one. The id is the counter's new value, and the counter moves on every branch.
  unfoldable pub schedule_against :
      Option ScheduledActivity
      → String
      → Option Payload
      → ActivityOptions
      → Execution U
      → Option WorkflowPanic × Execution U
  schedule_against (some recorded) type input opts e =
      let id = suc e.next_activity_idx in
      (
        if recorded.activity_id == id && str_eq recorded.activity_type type
            then none
            else some (activity_mismatch id type recorded.activity_id recorded.activity_type),
        record e { next_activity_idx = id },
      )
  schedule_against none type input opts e =
      let id = suc e.next_activity_idx in
      (
        none,
        record e {
          next_activity_idx = id;
          new_commands = e.new_commands ++ command_of id type input opts ∷ [];
        },
      )

  unfoldable pub schedule :
      String → Option Payload → ActivityOptions → Execution U → Option WorkflowPanic × Execution U
  unfolding schedule_against
  schedule type input opts e =
      schedule_against (get_elem? e.scheduled_activities e.next_activity_idx) type input opts e

  -- ScheduleTimer. Only the id is compared, not the duration.
  unfoldable pub start_against :
      Option ScheduledTimer → Int64 → Execution U → Option WorkflowPanic × Execution U
  start_against (some recorded) d e =
      let id = suc e.next_timer_idx in
      (
        if recorded.timer_id == id then none else some (timer_mismatch id recorded.timer_id),
        record e { next_timer_idx = id },
      )
  start_against none d e =
      let id = suc e.next_timer_idx in
      (
        none,
        record e {
          next_timer_idx = id;
          new_commands =
              e.new_commands ++ start_timer (record { timer_id = id; duration = some d }) ∷ [];
        },
      )

  unfoldable pub start : Int64 → Execution U → Option WorkflowPanic × Execution U
  unfolding start_against
  start d e = start_against (get_elem? e.scheduled_timers e.next_timer_idx) d e

  unfoldable pub complete : Option Payload → Option Failure → Execution U → Execution U
  complete result (some f) e = record e {
    failure = some f;
    new_commands = e.new_commands ++ fail_workflow_execution (some f) ∷ [];
  }
  complete result none e = record e {
    result = result;
    new_commands = e.new_commands ++ complete_workflow_execution result ∷ [];
  }

  unfoldable pub continue_as_new :
      String → Option Payload → ContinueAsNewOptions → Execution U → Execution U
  continue_as_new type input opts e = record e {
    continued_as_new = some (continue_command type input opts);
    new_commands =
        e.new_commands
        ++ continue_as_new_workflow_execution (continue_command type input opts) ∷ [];
  }
