-- ===== src/Sdk/Worker.antt =====
-- sdk/worker/worker.go: what a worker makes of the tasks that it polls. The polling loops, the
-- semaphore and the logging are left out.
pub mod Tasks
pub mod Unseen
pub mod Hits
pub mod Evicts
pub mod Queries
pub mod Activities
pub mod Golden
use flowd_engine.Base.{
  ℕ, ◌≡◌, ltb, Bool, true, false, Option, none, some, List, [], ◌∷◌, ◌⊎◌, inl, inr, String,
  if◌then◌else◌,
}
use flowd_engine.Proto.{Payload, Command, Int64}
use flowd_engine.History.Dispatch.Decode.{HistoryEvent}
use flowd_engine.Sdk.Cache.{ExecCacheKey}
use flowd_engine.Sdk.Replayer.{WorkflowPanic, Code, waiting, Execution, new_execution}
use flowd_engine.Sdk.Replayer.Handlers.{handler_of}
use flowd_engine.Sdk.Replayer.Load.{run_of, load_history}
use flowd_engine.Sdk.Replayer.Run.{spawn, execute_round, first_panic}

-- The causes of a failed task, each with the texts that its message is made of.
pub data TaskFailure : Type 0 where
  unregistered_workflow : String → TaskFailure
  input_unmarshal : String → TaskFailure
  workflow_panic : WorkflowPanic → TaskFailure
  no_query_handler : String → TaskFailure
  query_error : String → TaskFailure

pub record PolledQuery : Type 0 where
  pub query_type : String
  pub query_args : Option Payload

-- A PollWorkflowTaskQueueResponse that has a task, less its token and its query.
pub record PolledTask : Type 0 where
  pub key : ExecCacheKey
  pub history : List HistoryEvent

pub record StickyExecutionAttributes : Type 0 where
  pub worker_identity : String
  pub schedule_to_start_timeout : ℕ

module _ (U : Type 0) where
  -- A registered function: its variables' first values, and its code once the input is converted,
  -- or the converter's error.
  pub record WorkflowFunc : Type 0 where
    pub variables : U
    pub body : Option Payload → String ⊎ Code U

  pub record Worker : Type 0 where
    pub identity : String
    pub workflows : List (String × WorkflowFunc)
    pub sticky_schedule_to_start_timeout : ℕ

  pub record CachedExecution : Type 0 where
    pub exec : Execution U
    pub workflow_type : String
    pub last_event_id : ℕ

-- The events whose id is above the last one that was seen.
unfoldable pub events_after : List HistoryEvent → ℕ → List HistoryEvent
events_after [] last = []
events_after (ev ∷ evs) last =
    let rest = events_after evs last in if ltb last ev.event_id then ev ∷ evs else rest

-- The id of the last event; an index out of range if there is none.
unfoldable pub newest_event_id : List HistoryEvent → Option ℕ
newest_event_id [] = none
newest_event_id (ev ∷ []) = some ev.event_id
newest_event_id (ev ∷ evs) = newest_event_id evs

module _ {U : Type 0} where
  -- runWorkflowFunc (replay.go): the converter's error, or the execution after a round.
  unfoldable pub run_workflow_func :
      WorkflowFunc U → Option Payload → Execution U → String ⊎ Execution U
  unfolding spawn execute_round
  run_workflow_func fn input e = elim (fn.body input) [
    | inl message ↦ inl message
    | inr code ↦ inr (execute_round (spawn (waiting code) e))
  ]

  -- A new execution for the input and the type of a run. What LoadHistory takes from the events
  -- does not depend on the workflow's variables.
  unfoldable pub replay_as :
      Worker U → Option Payload × String → List HistoryEvent → TaskFailure ⊎ String × Execution U
  unfolding load_history new_execution handler_of run_workflow_func
  replay_as w (input, type) events = elim (handler_of type w.workflows) [
    | none ↦ inl (unregistered_workflow type)
    | some fn ↦
        elim (run_workflow_func fn input (load_history events (new_execution fn.variables)).1) [
          | inl message ↦ inl (input_unmarshal message)
          | inr e ↦ inr (type, e)
        ]
  ]

  -- The execution of a run that is not cached, and the type of its workflow.
  unfoldable pub replayed : Worker U → List HistoryEvent → TaskFailure ⊎ String × Execution U
  unfolding run_of replay_as
  replayed w events = replay_as w (run_of events (none, "")) events

  -- Neither a result, nor a failure, nor a continuation.
  unfoldable pub still_running : Execution U → Bool
  still_running e = elim e.result [
    | some r ↦ false
    | none ↦ elim e.failure [
      | some f ↦ false
      | none ↦ elim e.continued_as_new [ some c ↦ false | none ↦ true ]
    ]
  ]
