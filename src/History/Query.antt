-- ===== src/History/Query.antt =====
-- internal/history/query.go and namespace.go: reads of a run, and its termination.
pub mod Paging
pub mod Pages
use flowd_engine.Base.{
  ℕ, zero, suc, ◌+◌, ◌*◌, ◌/◌, ◌%◌, ◌^◌, String, str_eq, Bool, true, false, Option, some, none,
  List, [], ◌∷◌, length, ltb, ◌==◌, if◌then◌else◌,
}
use flowd_engine.Base.Result.{
  Error, no_rows, namespace_already_exists, Result, ok, err, Tx, ◌>>=◌, ◌>>◌, pure, renamed,
  no_rows_as,
}
use flowd_engine.Proto
use flowd_engine.Proto.{External, Bytes}
use flowd_engine.Db.Types
use flowd_engine.Db.Types.{Db, RunKey, ExecutionStatus, Namespace}
use flowd_engine.Db.Events.{list_history_events}
use flowd_engine.Db.Executions.{get_workflow_execution, close_workflow_execution}
use flowd_engine.Db.Namespaces.{create_namespace_row}
use flowd_engine.History.Append.{NewEvent, append_history}
use flowd_engine.History.Dispatch.Decode.{HistoryEvent, decode_all}
use flowd_engine.History.Signal.{resolve_run}
use flowd_engine.History.Start.{run_key}
use flowd_engine.History.Store.{Store, State, with_tx, with_namespace, then_notify}

abbrev terminated_event : String → NewEvent
terminated_event reason = record {
  event_type = Proto.HistoryEventType.workflow_execution_terminated;
  attributes = Proto.Attributes.execution_terminated reason;
}

unfoldable pub terminate_tx : Store → ℕ → ℕ → String → String → String → Tx Db (Unit {0})
unfolding resolve_run get_workflow_execution append_history close_workflow_execution
terminate_tx s now ns workflow_id run_id reason = do
  id ← resolve_run ns workflow_id run_id
  we ← get_workflow_execution (run_key ns workflow_id id)
  _ ←
      append_history s.ext now (run_key ns workflow_id id) we.next_event_id
        (terminated_event reason ∷ [])
  close_workflow_execution now (run_key ns workflow_id id) Types.ExecutionStatus.terminated

unfoldable pub terminate_workflow_execution :
    Store → ℕ → String → String → String → String → State → Result (Unit {0}) × State
unfolding terminate_tx with_tx with_namespace then_notify
terminate_workflow_execution s now namespace workflow_id run_id reason =
    with_namespace namespace λ ns st.
      then_notify (λ _. []) st.notifier
        (with_tx (terminate_tx s now ns workflow_id run_id reason) st.db)

-- binary.BigEndian, eight bytes: the value of the bytes, and the bytes of a value.
unfoldable pub big_endian_from : ℕ → Bytes → ℕ
big_endian_from acc [] = acc
big_endian_from acc (b ∷ bs) = big_endian_from (acc * 256 + b) bs

unfoldable pub uint64 : Bytes → ℕ
unfolding big_endian_from
uint64 bs = big_endian_from 0 bs

unfoldable pub put_uint64 : ℕ → Bytes
put_uint64 n =
    n / 72057594037927936 % 256
    ∷ n / 281474976710656 % 256
    ∷ n / 1099511627776 % 256
    ∷ n / 4294967296 % 256
    ∷ n / 16777216 % 256
    ∷ n / 65536 % 256
    ∷ n / 256 % 256
    ∷ n % 256
    ∷ []

abbrev pub default_history_page_size : ℕ
default_history_page_size = 1000

-- A negative page size is out of range here, and is treated as 0 is.
abbrev pub page_size_or_default : ℕ → ℕ
page_size_or_default zero = default_history_page_size
page_size_or_default (suc n) = suc n

-- int64(v): from 2^63 on it is negative, and so below every event's id, as 0 is.
abbrev pub id_of_int64 : ℕ → ℕ
id_of_int64 v = if ltb v 9223372036854775808 then v else 0

-- A page token of another length than 8 starts at the beginning.
abbrev pub after_of : Bytes → ℕ
after_of token = if length token == 8 then id_of_int64 (uint64 token) else 0

abbrev last_id : ℕ → List HistoryEvent → ℕ
last_id id [] = id
last_id id (e ∷ es) = last_id e.event_id es

-- A full page comes with the token of its last event; a shorter one is the last page.
abbrev pub next_token : ℕ → List HistoryEvent → Option Bytes
next_token size events =
    if length events == size then some (put_uint64 (last_id 0 events)) else none

abbrev page_of : ℕ → Result (List HistoryEvent) → Result (List HistoryEvent × Option Bytes)
page_of size (ok events) = ok (events, next_token size events)
page_of size (err e) = err e

-- One page of a run's history.
unfoldable pub get_history_page :
    External → RunKey → ℕ → Bytes → Db → Result (List HistoryEvent × Option Bytes)
unfolding decode_all list_history_events uint64 put_uint64
get_history_page ext key size token db =
    page_of (page_size_or_default size)
      (decode_all ext (list_history_events key (after_of token) (page_size_or_default size) db))

unfoldable pub create_namespace : ℕ → String → Db → Result Namespace × Db
unfolding create_namespace_row with_tx
create_namespace now name =
    with_tx (renamed (no_rows_as namespace_already_exists) (create_namespace_row now name))
