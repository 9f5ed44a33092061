-- ===== src/Scenarios/Histories.antt =====
-- The theorems on histories, at a workflow with one run and no events so far.
use flowd_engine.Base.{ap, str_eq_iff, ◌⊎◌}
use flowd_engine.Base.{
  Option, List, ◌++◌, ◌≢◌, ◌≡◌, refl, none, some, [], ◌∷◌, find?, select, arith,
}
use flowd_engine.Base.Result.{ok, err, concurrent_modification}
use flowd_engine.Db.Types.{Db, RunKey, key_eq}
use flowd_engine.Db.Events.{rows_of}
use flowd_engine.Db.Executions.{find_execution}
use flowd_engine.History.Append.{append_history}
use flowd_engine.History.Append.Contiguous.{IsContiguous}
use flowd_engine.History.Append.Laws.{append_history-stale, encode_rows}
use flowd_engine.History.Append.Writes.{append_history-writes}
use flowd_engine.History.Append.Preserve.{Appends, append_history-Appends}
use flowd_engine.History.System.{
  Reaches, here, next, empty_db, after_tx, create_namespace, start_workflow,
}
use flowd_engine.History.System.Reachable.{reachable-IsContiguous}
use flowd_engine.Db.Namespaces.{create_namespace_row}
use flowd_engine.History.Start.{start_tx}
use flowd_engine.Base.{ℕ, ◌≤◌, ◌-◌, map, take, range_from}
use flowd_engine.Proto.{unspecified}
use flowd_engine.Db.Types.{HistoryRow}
use flowd_engine.Db.Events.{list_history_events}
use flowd_engine.History.Append.Contiguous.{event_count}
use flowd_engine.History.Query.Pages.{list_history_events-ids}
use flowd_engine.Scenarios.{ext, server, run_r, run_row, db_with_run, signal, start_request}

db_with_run-IsContiguous : IsContiguous db_with_run
unfolding find? rows_of select key_eq
db_with_run-IsContiguous = record { runs = (refl, ground arith, tt); ids = λ j. ground arith }

run_row_found : find_execution run_r db_with_run ≡ some run_row
unfolding find_execution find? key_eq
run_row_found = refl

abbrev rows_or_nil : Option (List HistoryRow) → List HistoryRow
rows_or_nil none = []
rows_or_nil (some rows) = rows

abbrev two_signals : List HistoryRow
two_signals = rows_or_nil (encode_rows ext 5 run_r 1 (signal ∷ signal ∷ []))

two_encoded : encode_rows ext 5 run_r 1 (signal ∷ signal ∷ []) ≡ some two_signals
unfolding encode_rows
two_encoded = refl

abbrev run_s : RunKey
run_s = record run_r { run_id = "s" }

run_s-other : run_s ≢ run_r
run_s-other e = ground (arith, str_eq_iff "s" "r", ap (λ (k : RunKey). k.run_id) e)

append_history-writes_example :
    (db' : Db) × (append_history ext 5 run_r 1 (signal ∷ signal ∷ []) db_with_run
      ≡ ok ((3, 1 ∷ 2 ∷ []), db'))
    × (find_execution run_r db' ≡ some (record run_row { next_event_id = 3; updated_at = 5 }))
    × (find_execution run_s db' ≡ find_execution run_s db_with_run)
    × (db'.history_events ≡ db_with_run.history_events ++ two_signals)
append_history-writes_example =
    append_history-writes ext 5 run_r signal (signal ∷ []) db_with_run run_row two_signals run_s
      db_with_run-IsContiguous run_row_found run_s-other two_encoded

append_history-stale_example :
    append_history ext 5 run_r 7 (signal ∷ []) db_with_run ≡ err concurrent_modification
append_history-stale_example =
    append_history-stale ext 5 run_r 7 signal [] db_with_run run_row db_with_run-IsContiguous
      run_row_found (ground arith)

append_history-Appends_example :
    Appends ext 5 run_r 1
      (signal ∷ [])
      db_with_run
      (append_history ext 5 run_r 1 (signal ∷ []) db_with_run)
append_history-Appends_example =
    append_history-Appends ext 5 run_r 1 (signal ∷ []) db_with_run db_with_run-IsContiguous

-- A namespace is created, then a workflow is started in it.
abbrev db_named : Db
db_named = after_tx (create_namespace_row 0 "n") empty_db

abbrev db_started : Db
db_started = after_tx (start_tx server 1 1 (start_request "req") "r") db_named

db_started_reached : Reaches server empty_db db_started
db_started_reached =
    next db_named db_started (next empty_db db_named here (create_namespace 0 "n"))
      (start_workflow 1 1 (start_request "req") "r")

reachable-IsContiguous_example : IsContiguous db_started
reachable-IsContiguous_example = reachable-IsContiguous server db_started db_started_reached

abbrev event_of : ℕ → HistoryRow
event_of id = record {
  key = run_r;
  event_id = id;
  event_time = 0;
  event_type = unspecified;
  attributes = [];
}

abbrev db_with_events : Db
db_with_events = record db_with_run {
  workflow_executions = record run_row { next_event_id = 4 } ∷ [];
  history_events = event_of 1 ∷ event_of 2 ∷ event_of 3 ∷ [];
}

db_with_events-IsContiguous : IsContiguous db_with_events
unfolding find? rows_of select key_eq
db_with_events-IsContiguous = record { runs = (refl, ground arith, tt); ids = λ j. ground arith }

two_are_there : 1 ≤ event_count run_r db_with_events.workflow_executions
unfolding find? key_eq
two_are_there = ground arith

list_history_events-ids_example :
    map (λ r. r.event_id) (list_history_events run_r 1 2 db_with_events)
    ≡ take 2 (range_from 2 (event_count run_r db_with_events.workflow_executions - 1))
list_history_events-ids_example =
    list_history_events-ids run_r 1 2 db_with_events db_with_events-IsContiguous two_are_there

-- Between the read and the write of each attempt, others write up to the third event.
abbrev others : ℕ → Db → Db
others k db = db_with_events

abbrev One : Db → Type 0
One db = (db ≡ db_with_run) ⊎ (db ≡ db_with_events)
