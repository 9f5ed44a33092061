-- ===== src/Scenarios/Paging.antt =====
-- The theorem on the pages of GetHistory, at a run with three events and pages of two.
use flowd_engine.Base.{
  ℕ, ◌≡◌, ◌<◌, refl, some, Option, List, [], ◌∷◌, find?, select, arith, take, range_from,
}
use flowd_engine.Base.Result.{Result, ok, err}
use flowd_engine.Proto.{Bytes, workflow_task_completed}
use flowd_engine.Db.Types.{Db, key_eq, HistoryRow}
use flowd_engine.Db.Events.{rows_of, list_history_events, order_by_id, insert_by_id}
use flowd_engine.History.Append.Contiguous.{IsContiguous, event_count}
use flowd_engine.History.Dispatch.Decode.{HistoryEvent, decode_all, decode_history_event}
use flowd_engine.History.Query.{get_history_page, put_uint64}
use flowd_engine.History.Query.Paging.{ids_of_events, IsFollowed, get_history_page-IsFollowed}
use flowd_engine.Scenarios.{ext, run_r, run_row, db_with_run}

abbrev event_of : ℕ → HistoryRow
event_of id = record {
  key = run_r;
  event_id = id;
  event_time = 0;
  event_type = workflow_task_completed;
  attributes = [];
}

abbrev three_events : Db
three_events = record db_with_run {
  workflow_executions = record run_row { next_event_id = 4 } ∷ [];
  history_events = event_of 1 ∷ event_of 2 ∷ event_of 3 ∷ [];
}

three_events-IsContiguous : IsContiguous three_events
unfolding find? rows_of select key_eq
three_events-IsContiguous = record { runs = (refl, ground arith, tt); ids = λ j. ground arith }

few : event_count run_r three_events.workflow_executions < 9223372036854775808
unfolding find? key_eq
few = ground arith

abbrev events_or_none : Result (List HistoryEvent × Option Bytes) → List HistoryEvent
events_or_none (ok (events, next)) = events
events_or_none (err e) = []

abbrev first_page : List HistoryEvent
first_page = events_or_none (get_history_page ext run_r 2 [] three_events)

first_page_read :
    get_history_page ext run_r 2 [] three_events ≡ ok (first_page, some (put_uint64 2))
unfolding get_history_page decode_all decode_history_event list_history_events order_by_id
    insert_by_id select key_eq
first_page_read = refl

get_history_page-IsFollowed_example :
    (ids_of_events first_page
      ≡ take 2 (range_from 1 (event_count run_r three_events.workflow_executions)))
    × IsFollowed 0 2
        (event_count run_r three_events.workflow_executions)
        first_page
        (some (put_uint64 2))
unfolding find? key_eq
get_history_page-IsFollowed_example =
    get_history_page-IsFollowed ext run_r 2 [] three_events first_page (some (put_uint64 2))
      three_events-IsContiguous few (ground arith) first_page_read
