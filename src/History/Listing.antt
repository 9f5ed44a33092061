-- ===== src/History/Listing.antt =====
-- ListWorkflowExecutions of internal/history/list.go, over its query in sqlc/executions.sql.go. The
-- comparison of rows (start_time, workflow_id, run_id) is the database's, and the JSON of a cursor
-- is encoding/json's. A status is kept as data, so that its text is not modelled.
pub mod Following
use flowd_engine.Base.{
  ℕ, zero, suc, Bool, true, false, ◌&&◌, Option, none, some, List, [], ◌∷◌, map, String, str_eq,
  length, take, ◌==◌, select, if◌then◌else◌,
}
use flowd_engine.Base.Result.{Result, ok, err, unmarshal_error}
use flowd_engine.Base.Ordered.{sort_desc}
use flowd_engine.Proto.{Bytes}
use flowd_engine.Db.Types.{
  Db, WorkflowExecution, ExecutionStatus, running, completed, failed, terminated, timed_out,
  continued_as_new,
}
use flowd_engine.History.Store.{State, with_namespace}

pub record ListWorkflowsCursor : Type 0 where
  pub start_time : ℕ
  pub workflow_id : String
  pub run_id : String

-- Row comparison, json.Marshal and json.Unmarshal of cursors.
pub record ListLibrary : Type 0 where
  pub less : ListWorkflowsCursor → ListWorkflowsCursor → Bool
  pub to_json : ListWorkflowsCursor → Bytes
  pub of_json : Bytes → Option ListWorkflowsCursor

abbrev pub cursor_of : WorkflowExecution → ListWorkflowsCursor
cursor_of r = record {
  start_time = r.start_time;
  workflow_id = r.key.workflow_id;
  run_id = r.key.run_id;
}

abbrev pub row_less : ListLibrary → WorkflowExecution → WorkflowExecution → Bool
row_less lib r r' = lib.less (cursor_of r) (cursor_of r')

unfoldable pub status_eq : ExecutionStatus → ExecutionStatus → Bool
status_eq running running = true
status_eq completed completed = true
status_eq failed failed = true
status_eq terminated terminated = true
status_eq timed_out timed_out = true
status_eq continued_as_new continued_as_new = true
status_eq _ _ = false

-- ListWorkflowExecutionsParams, the namespace looked up. A filter that is none matches every status,
-- an empty task queue every one.
pub record ListParams : Type 0 where
  pub namespace : String
  pub status_filter : Option ExecutionStatus
  pub task_queue : String
  pub page_size : ℕ
  pub page_token : Bytes

abbrev has_status : Option ExecutionStatus → WorkflowExecution → Bool
has_status none r = true
has_status (some status) r = status_eq r.status status

abbrev has_queue : String → WorkflowExecution → Bool
has_queue queue r = if str_eq queue "" then true else str_eq r.task_queue queue

-- The filters of the query.
unfoldable pub matches : ℕ → ListParams → WorkflowExecution → Bool
unfolding status_eq
matches ns p r =
    r.key.namespace_id == ns && (has_status p.status_filter r && has_queue p.task_queue r)

abbrev pub before_cursor : ListLibrary → Option ListWorkflowsCursor → WorkflowExecution → Bool
before_cursor lib none r = true
before_cursor lib (some c) r = lib.less (cursor_of r) c

-- The query: filters, cursor, ORDER BY … DESC, LIMIT.
unfoldable pub list_rows :
    ListLibrary → ℕ → ListParams → Option ListWorkflowsCursor → ℕ → Db → List WorkflowExecution
unfolding matches
list_rows lib ns p cursor limit db = take limit (
    sort_desc (row_less lib)
      (select (λ r. matches ns p r && before_cursor lib cursor r) db.workflow_executions))

pub record WorkflowExecutionInfo : Type 0 where
  pub workflow_id : String
  pub run_id : String
  pub workflow_type : String
  pub task_queue : String
  pub status : ExecutionStatus
  pub start_time : ℕ
  pub close_time : Option ℕ

abbrev info_of : WorkflowExecution → WorkflowExecutionInfo
info_of r = record {
  workflow_id = r.key.workflow_id;
  run_id = r.key.run_id;
  workflow_type = r.workflow_type;
  task_queue = r.task_queue;
  status = r.status;
  start_time = r.start_time;
  close_time = r.close_time;
}

abbrev pub default_list_workflows_page_size : ℕ
default_list_workflows_page_size = 50

-- A negative page size is out of range here, and is treated as 0 is.
abbrev pub list_page_size : ℕ → ℕ
list_page_size zero = default_list_workflows_page_size
list_page_size (suc n) = suc n

unfoldable pub cursor_from : ListLibrary → Bytes → Result (Option ListWorkflowsCursor)
cursor_from lib token =
    if length token == 0
    then ok none
    else elim (lib.of_json token) [ none ↦ err unmarshal_error | some c ↦ ok (some c) ]

abbrev last_row : WorkflowExecution → List WorkflowExecution → WorkflowExecution
last_row r [] = r
last_row r (r' ∷ rs) = last_row r' rs

-- The token of a full page is the cursor of its last row.
abbrev pub token_of : ListLibrary → ℕ → List WorkflowExecution → Option Bytes
token_of lib size [] = none
token_of lib size (r ∷ rs) =
    if length (r ∷ rs) == size then some (lib.to_json (cursor_of (last_row r rs))) else none

abbrev pub list_page :
    ListLibrary → ℕ → List WorkflowExecution → List WorkflowExecutionInfo × Option Bytes
list_page lib size rows = (map info_of rows, token_of lib size rows)

abbrev pub page_at :
    ListLibrary
    → ℕ
    → ListParams
    → Db
    → Result (Option ListWorkflowsCursor)
    → Result (List WorkflowExecutionInfo × Option Bytes)
page_at lib ns p db (err e) = err e
page_at lib ns p db (ok cursor) =
    let size = list_page_size p.page_size in
    ok (list_page lib size (list_rows lib ns p cursor size db))

unfoldable pub list_workflow_executions :
    ListLibrary → ListParams → State → Result (List WorkflowExecutionInfo × Option Bytes) × State
unfolding list_rows cursor_from with_namespace
list_workflow_executions lib p =
    with_namespace p.namespace λ ns st. (page_at lib ns p st.db (cursor_from lib p.page_token), st)
