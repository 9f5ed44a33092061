-- ===== src/History/Append.antt =====
-- internal/history/append.go: AppendHistory, through which every event is written.
pub mod Contiguous
pub mod Laws
pub mod Preserve
pub mod Writes
use flowd_engine.Base.{ℕ, suc, List, [], ◌∷◌, length}
use flowd_engine.Base.Result.{
  no_rows, concurrent_modification, marshal_error, Error, Result, ok, err, Tx, ◌>>=◌, pure, or_fail,
}
use flowd_engine.Proto.{External, HistoryEventType, Attributes}
use flowd_engine.Db.Types.{Db, RunKey}
use flowd_engine.Db.Executions.{advance_next_event_id}
use flowd_engine.Db.Events.{insert_history_event}

-- NewEvent of attributes.go.
pub record NewEvent : Type 0 where
  pub event_type : HistoryEventType
  pub attributes : Attributes

-- The loop over the events: the ids count up from `id`. It returns them.
unfoldable pub insert_events : External → ℕ → RunKey → ℕ → List NewEvent → Tx Db (List ℕ)
insert_events ext now key id [] = pure []
insert_events ext now key id (ev ∷ evs) = do
  bytes ← or_fail marshal_error (ext.marshal ev.attributes)
  _ ← insert_history_event (record {
    key = key;
    event_id = id;
    event_time = now;
    event_type = ev.event_type;
    attributes = bytes;
  })
  ids ← insert_events ext now key (suc id) evs
  pure (id ∷ ids)

abbrev pub conflict : Error → Error
conflict no_rows = concurrent_modification
conflict e = e

abbrev pub or_conflict : {A : Type 0} → Result A → Result A
or_conflict (ok a) = ok a
or_conflict (err e) = err (conflict e)

-- No row to advance means that another writer was faster.
unfoldable pub advance_or_conflict : ℕ → RunKey → ℕ → ℕ → Tx Db ℕ
advance_or_conflict now key increment expected db =
    or_conflict (advance_next_event_id now key increment expected db)

-- The new next_event_id, and the ids of the events.
unfoldable pub append_history : External → ℕ → RunKey → ℕ → List NewEvent → Tx Db (ℕ × List ℕ)
unfolding insert_events advance_or_conflict
append_history ext now key expected [] = pure (expected, [])
append_history ext now key expected (ev ∷ evs) = do
  next ← advance_or_conflict now key (length (ev ∷ evs)) expected
  ids ← insert_events ext now key expected (ev ∷ evs)
  pure (next, ids)
