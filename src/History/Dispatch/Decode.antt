-- ===== src/History/Dispatch/Decode.antt =====
-- decodeHistoryEvent of internal/history/attributes.go, and the reading of a run's history.
use flowd_engine.Base.{ℕ, Option, some, none, List, [], ◌∷◌}
use flowd_engine.Base.Result.{Result, ok, err, unknown_event_type, unmarshal_error}
use flowd_engine.Base.Io.{Io}
use flowd_engine.Proto.{External, HistoryEventType, unspecified, Attributes}
use flowd_engine.Db.Types.{Db, RunKey, HistoryRow}
use flowd_engine.Db.Events.{list_history_events}

pub record HistoryEvent : Type 0 where
  pub event_id : ℕ
  pub event_time : ℕ
  pub event_type : HistoryEventType
  pub attributes : Attributes

abbrev pub max_history_fetch : ℕ
max_history_fetch = 100_000

abbrev pub with_attributes : HistoryRow → Option Attributes → Result HistoryEvent
with_attributes row none = err unmarshal_error
with_attributes row (some a) = ok (record {
  event_id = row.event_id;
  event_time = row.event_time;
  event_type = row.event_type;
  attributes = a;
})

-- Every type but the unspecified one has a message to unmarshal.
abbrev pub decode_typed : External → HistoryRow → HistoryEventType → Result HistoryEvent
decode_typed ext row unspecified = err unknown_event_type
decode_typed ext row type = with_attributes row (ext.unmarshal type row.attributes)

unfoldable pub decode_history_event : External → HistoryRow → Result HistoryEvent
decode_history_event ext row = decode_typed ext row row.event_type

unfoldable pub decode_all : External → List HistoryRow → Result (List HistoryEvent)
unfolding decode_history_event
decode_all ext [] = ok []
decode_all ext (r ∷ rs) = elim (decode_history_event ext r) [
  | err e ↦ err e
  | ok ev ↦ elim (decode_all ext rs) [ err e ↦ err e | ok evs ↦ ok (ev ∷ evs) ]
]

-- The full history of a run, up to the fetch limit.
unfoldable pub read_history : External → RunKey → Io Db (List HistoryEvent)
unfolding decode_all list_history_events
read_history ext key db = (decode_all ext (list_history_events key 0 max_history_fetch db), db)
