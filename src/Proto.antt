-- ===== src/Proto.antt =====
-- The messages of api/proto/flow/api/v1 that the engine builds and reads, and the external
-- functions that it calls: the protobuf codec, UUID text, FNV-1a and float64 powers.
use flowd_engine.Base.{ℕ, ◌+◌, ◌%◌, String, Bool, ◌&&◌, Option, List, ltb}

-- An int64 or int32, as its two's complement bit pattern.
abbrev pub Int64 : Type 0
Int64 = ℕ

-- d > 0
abbrev pub is_positive : Int64 → Bool
is_positive d = ltb 0 d && ltb d 9223372036854775808

-- a < b on int64
abbrev pub signed_ltb : Int64 → Int64 → Bool
signed_ltb a b =
    ltb ((a + 9223372036854775808) % 18446744073709551616)
      ((b + 9223372036854775808) % 18446744073709551616)

-- a < b on int32
abbrev pub signed32_ltb : ℕ → ℕ → Bool
signed32_ltb a b = ltb ((a + 2147483648) % 4294967296) ((b + 2147483648) % 4294967296)

-- The data of a Payload, and a marshaled message: bytes. A UUID: its 128 bits.
abbrev pub Bytes : Type 0
Bytes = List ℕ

abbrev pub Uuid : Type 0
Uuid = ℕ

pub record Payload : Type 0 where
  pub metadata : Bytes
  pub content : Bytes

-- A float64 is its bit pattern; the code only compares it with 0 and takes powers of it.
pub record RetryPolicy : Type 0 where
  pub initial_interval : Option Int64
  pub backoff_coefficient : ℕ
  pub max_interval : Option Int64
  pub max_attempts : ℕ
  pub non_retryable_error_types : List String

pub record Failure : Type 0 where
  pub message : String
  pub type : String

pub data HistoryEventType : Type 0 where
  unspecified workflow_execution_started workflow_execution_completed workflow_execution_failed
        workflow_execution_terminated workflow_execution_signaled workflow_task_scheduled
        workflow_task_started workflow_task_completed workflow_task_failed activity_task_scheduled
        activity_task_started activity_task_completed activity_task_failed timer_started timer_fired
        workflow_execution_continued_as_new workflow_execution_cancel_requested :
      HistoryEventType

pub record ScheduleActivityTaskCommand : Type 0 where
  pub activity_id : ℕ
  pub activity_type : String
  pub input : Option Payload
  pub retry_policy : Option RetryPolicy
  pub schedule_to_start_timeout : Option Int64
  pub start_to_close_timeout : Option Int64

pub record StartTimerCommand : Type 0 where
  pub timer_id : ℕ
  pub duration : Option Int64

pub record ContinueAsNewCommand : Type 0 where
  pub workflow_type : String
  pub task_queue : String
  pub input : Option Payload
  pub retry_policy : Option RetryPolicy
  pub workflow_run_timeout : Option Int64
  pub workflow_task_timeout : Option Int64

pub record StartedAttributes : Type 0 where
  pub workflow_type : String
  pub task_queue : String
  pub input : Option Payload
  pub retry_policy : Option RetryPolicy
  pub continued_from_run_id : String

pub record ContinuedAsNewAttributes : Type 0 where
  pub new_run_id : String
  pub workflow_type : String
  pub task_queue : String
  pub input : Option Payload

-- The attributes of a history event, one constructor for each message.
pub data Attributes : Type 0 where
  execution_started : StartedAttributes → Attributes
  execution_completed : Option Payload → Attributes
  execution_failed : Option Failure → Attributes
  execution_terminated : String → Attributes
  execution_signaled : String → Option Payload → Attributes
  task_scheduled : String → Attributes
  -- their `identity` is never set
  task_started task_completed : Attributes
  task_failed : Option Failure → Attributes
  activity_scheduled : ScheduleActivityTaskCommand → Attributes
  activity_started : ℕ → ℕ → Attributes
  activity_completed : ℕ → Option Payload → Attributes
  activity_failed : ℕ → Option Failure → ℕ → Attributes
  timer_started : StartTimerCommand → Attributes
  timer_fired : ℕ → Attributes
  continued_as_new : ContinuedAsNewAttributes → Attributes
  cancel_requested : String → Attributes

-- A `Command` whose oneof is not set is `no_command`.
pub data Command : Type 0 where
  schedule_activity_task : ScheduleActivityTaskCommand → Command
  start_timer : StartTimerCommand → Command
  complete_workflow_execution : Option Payload → Command
  fail_workflow_execution : Option Failure → Command
  continue_as_new_workflow_execution : ContinueAsNewCommand → Command
  no_command : Command

-- What the engine calls and does not implement.
pub record External : Type 0 where
  -- proto.Marshal and proto.Unmarshal, of the attributes of an event of a given type
  pub marshal : Attributes → Option Bytes
  pub unmarshal : HistoryEventType → Bytes → Option Attributes
  -- the same for a Payload
  pub marshal_payload : Option Payload → Bytes
  pub unmarshal_payload : Bytes → Option Payload
  -- uuid.Parse and UUID.String
  pub uuid_parse : String → Option Uuid
  pub uuid_string : Uuid → String
  -- hash/fnv's New32a over the bytes of a string
  pub fnv32a : String → ℕ
  -- int64(math.Pow(c, n)), as a bit pattern; the test c > 0; the constant 2.0
  pub pow_int64 : ℕ → ℕ → Int64
  pub is_positive_float : ℕ → Bool
  pub two : ℕ
