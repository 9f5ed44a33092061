-- ===== src/Sdk/Worker/Golden.antt =====
-- ReplayWorkflowHistory of sdk/worker/replay.go: a history replayed without a server.
pub mod Agrees
use flowd_engine.Base.{Bool, true, false, Option, none, some, List, inl, inr, String}
use flowd_engine.Proto.{Payload}
use flowd_engine.History.Dispatch.Decode.{HistoryEvent}
use flowd_engine.Sdk.Replayer.{
  WorkflowPanic, activity_mismatch, timer_mismatch, Execution, new_execution,
}
use flowd_engine.Sdk.Replayer.Load.{load_history}
use flowd_engine.Sdk.Replayer.Run.{first_panic}
use flowd_engine.Sdk.Worker.{WorkflowFunc, run_workflow_func}

pub data ReplayResult : Type 0 where
  replay_result : Option Payload → ReplayResult
  replay_input_unmarshal : String → ReplayResult
  replay_panic : WorkflowPanic → ReplayResult
  replay_continued : String → ReplayResult
  replay_failed : String → ReplayResult

-- IsNonDeterministic.
unfoldable pub is_non_deterministic : ReplayResult → Bool
is_non_deterministic (replay_panic (activity_mismatch id type id' type')) = true
is_non_deterministic (replay_panic (timer_mismatch id id')) = true
is_non_deterministic _ = false

module _ {U : Type 0} where
  unfoldable pub outcome_after : Execution U → ReplayResult
  unfolding first_panic
  outcome_after e = elim (first_panic e.coroutines) [
    | some p ↦ replay_panic p
    | none ↦ elim e.continued_as_new [
      | some c ↦ replay_continued c.workflow_type
      | none ↦ elim e.failure [ some f ↦ replay_failed f.message | none ↦ replay_result e.result ]
    ]
  ]

  unfoldable pub replay_workflow_history : List HistoryEvent → WorkflowFunc U → ReplayResult
  unfolding load_history new_execution run_workflow_func outcome_after
  replay_workflow_history events fn =
      let ((input, type), e) = load_history events (new_execution fn.variables) in
      elim (run_workflow_func fn input e) [
        | inl message ↦ replay_input_unmarshal message
        | inr e' ↦ outcome_after e'
      ]
