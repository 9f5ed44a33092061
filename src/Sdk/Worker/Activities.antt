-- ===== src/Sdk/Worker/Activities.antt =====
-- processActivityTask of sdk/worker/worker.go.
use flowd_engine.Base.{Option, none, some, List, String}
use flowd_engine.Proto.{Payload}
use flowd_engine.Sdk.Replayer.{Marshaled, payload, not_marshaled}
use flowd_engine.Sdk.Replayer.Handlers.{handler_of}

-- What comes of an activity function: the converter's error on the input, a panic or an error
-- with its type and text, or a value.
pub data ActivityRun : Type 0 where
  input_not_converted : String → ActivityRun
  activity_panicked : String → String → ActivityRun
  activity_returned : Marshaled → ActivityRun
  activity_error : String → String → ActivityRun

-- An activity function of the input, as it runs in an attempt.
abbrev pub ActivityFunc : Type 0
ActivityFunc = Option Payload → ActivityRun

-- The text of a failure, or the name that "unregistered activity type" is said of.
pub data ActivityMessage : Type 0 where
  text : String → ActivityMessage
  unregistered_activity : String → ActivityMessage

pub data ActivityAnswer : Type 0 where
  activity_task_completed : Payload → ActivityAnswer
  activity_task_failed : String → ActivityMessage → ActivityAnswer

abbrev answer_of : ActivityRun → ActivityAnswer
answer_of (input_not_converted message) = activity_task_failed "InputUnmarshalError" (text message)
answer_of (activity_panicked type message) = activity_task_failed type (text message)
answer_of (activity_error type message) = activity_task_failed type (text message)
answer_of (activity_returned (not_marshaled message)) =
    activity_task_failed "MarshalError" (text message)
answer_of (activity_returned (payload p)) = activity_task_completed p

unfoldable pub process_activity_task :
    List (String × ActivityFunc) → String → Option Payload → ActivityAnswer
unfolding handler_of
process_activity_task activities type input = elim (handler_of type activities) [
  | none ↦ activity_task_failed "UnregisteredActivityType" (unregistered_activity type)
  | some f ↦ answer_of (f input)
]
