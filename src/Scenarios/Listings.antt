-- ===== src/Scenarios/Listings.antt =====
-- The theorem on lists of executions, at three runs of a workflow.
use flowd_engine.Base.{
  ℕ, ◌≡◌, refl, inl, inr, some, [], ◌∷◌, ◌++◌, String, ltb, select, find?, arith,
}
use flowd_engine.Base.Ordered.{AreComparable, IsOrder, sort_desc}
use flowd_engine.Base.Result.{ok}
use flowd_engine.Db.Types.{Db, WorkflowExecution, running}
use flowd_engine.History.Listing.{
  ListLibrary, ListParams, cursor_of, row_less, matches, list_page, list_workflow_executions,
}
use flowd_engine.History.Listing.Following.{listed_rows, IsKept, list_workflow_executions-after}
use flowd_engine.History.Store.{get_namespace_id}
use flowd_engine.Db.Namespaces.{get_namespace_by_name}
use flowd_engine.Scenarios.{db_with_run, run_row, state_of}

abbrev run_at : String → ℕ → WorkflowExecution
run_at run time = record run_row {
  key = record { namespace_id = 1; workflow_id = "w"; run_id = run };
  start_time = time;
}

abbrev three_runs : Db
three_runs = record db_with_run {
  workflow_executions = run_at "a" 5 ∷ run_at "b" 9 ∷ run_at "c" 7 ∷ [];
}

-- Rows by their times, and a JSON for the cursor of the second row.
abbrev by_time : ListLibrary
by_time = record {
  less = λ c c'. ltb c.start_time c'.start_time;
  to_json = λ c. c.start_time ∷ [];
  of_json = λ b. some (cursor_of (run_at "c" 7));
}

abbrev two_each : ListParams
two_each = record {
  namespace = "n";
  status_filter = some running;
  task_queue = "";
  page_size = 2;
  page_token = [];
}

namespace_of_runs : get_namespace_id three_runs "n" ≡ ok 1
unfolding get_namespace_id get_namespace_by_name find?
namespace_of_runs = refl

row-IsKept : IsKept by_time (cursor_of (run_at "c" 7))
row-IsKept = record { round_trip = refl; not_empty = refl }

time-IsOrder : IsOrder (row_less by_time)
time-IsOrder = record {
  asymmetric = λ x y h. ground (arith, h);
  irreflexive = λ x. ground arith;
  transitive = λ x y z h k. ground (arith, h, k);
}

runs-AreComparable :
    AreComparable (row_less by_time) (select (matches 1 two_each) three_runs.workflow_executions)
unfolding AreComparable select matches
runs-AreComparable = ((inr refl, (inr refl, tt)), ((inl refl, tt), (tt, tt)))

newest_first :
    listed_rows by_time 1 two_each three_runs
    ≡ (run_at "b" 9 ∷ []) ++ run_at "c" 7 ∷ (run_at "a" 5 ∷ [])
unfolding sort_desc select matches
newest_first = refl

list_workflow_executions-after_example :
    list_workflow_executions by_time (record two_each { page_token = 7 ∷ [] }) (state_of three_runs)
    ≡ (ok (list_page by_time 2 (run_at "a" 5 ∷ [])), state_of three_runs)
list_workflow_executions-after_example =
    list_workflow_executions-after by_time two_each 1 (state_of three_runs) (run_at "b" 9 ∷ [])
      (run_at "c" 7) (run_at "a" 5 ∷ []) namespace_of_runs row-IsKept time-IsOrder
      runs-AreComparable newest_first
