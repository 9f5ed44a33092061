-- ===== src/History/Start/Idempotence.antt =====
-- A start that is repeated.
use flowd_engine.Base.{ℕ, ◌≡◌, some, String, str_eq_iff, arith}
use flowd_engine.Base.Result.{ok}
use flowd_engine.Db.Types.{CurrentExecution}
use flowd_engine.Db.Executions.{find_current, insert_current_execution, get_current_execution}
use flowd_engine.History.Start.{
  StartWorkflowExecutionParams, take_over, start_tx, start_workflow_execution,
}
use flowd_engine.History.Store.{Store, State, with_tx, with_namespace, get_namespace_id}

-- A start with the request id that the current run was started with answers with that run, and
-- changes nothing.
pub start_workflow_execution-replay :
    (s : Store) (now ns : ℕ) (run : String) (p : StartWorkflowExecutionParams) (st : State)
    (c : CurrentExecution)
    → get_namespace_id st.db p.namespace ≡ ok ns
    → find_current ns p.workflow_id st.db ≡ some c
    → c.create_request_id ≡ p.request_id
    → start_workflow_execution s now run p st ≡ (ok c.run_id, st)
unfolding start_workflow_execution with_namespace with_tx start_tx insert_current_execution
    take_over get_current_execution
start_workflow_execution-replay s now ns run p st c n f r =
    ground (arith, str_eq_iff c.create_request_id p.request_id)
