-- ===== src/History/Append/Laws.antt =====
-- What AppendHistory does on every branch, against a description by rows, and that it keeps the
-- histories contiguous.
use flowd_engine.Base.{
  ℕ, suc, ◌+◌, ◌-◌, ◌≤◌, ◌≡◌, ◌≢◌, refl, sym, ap, subst, ◌∙◌, inl, inr, ◌&&◌, Option, none, some,
  List, [], ◌∷◌, ◌++◌, append-nil, append_assoc, arith, ◌==◌, Option-cases, is_some, find?, update,
  select, contains, find?-append-none, contains-upto_above, range_from, upto, length,
}
use flowd_engine.Base.Result.{ok, err, concurrent_modification, marshal_error}
use flowd_engine.Proto.{External}
use flowd_engine.Db.Types.{Db, RunKey, key_eq, WorkflowExecution, HistoryRow}
use flowd_engine.Db.Executions.{find_execution, has_version, advance_row, advance_next_event_id}
use flowd_engine.Db.Events.{rows_of, insert_history_event}
use flowd_engine.History.Append.{NewEvent, insert_events, append_history, advance_or_conflict}
use flowd_engine.History.Append.Contiguous.{
  ids_of, events_before, AreRuns, IsContiguous, find?-has_version, find?-has_version-none,
  AreRuns-positive,
}

-- The rows that the events become, or `none` if one of them cannot be marshaled.
unfoldable pub encode_rows : External → ℕ → RunKey → ℕ → List NewEvent → Option (List HistoryRow)
encode_rows ext now key id [] = some []
encode_rows ext now key id (ev ∷ evs) = elim (ext.marshal ev.attributes) [
  | none ↦ none
  | some bytes ↦ elim (encode_rows ext now key (suc id) evs) [
    | none ↦ none
    | some rows ↦ some (
        record {
          key = key;
          event_id = id;
          event_time = now;
          event_type = ev.event_type;
          attributes = bytes;
        }
        ∷ rows)
  ]
]

-- No event of the run has an id from `id` on.
abbrev pub IsFree : RunKey → ℕ → List HistoryRow → Type 0
IsFree key id rows = (i : ℕ) → id ≤ i → find? (λ r. key_eq key r.key && r.event_id == i) rows ≡ none

find?-ids :
    (key : RunKey) (i : ℕ) (rows : List HistoryRow)
    → is_some (find? (λ r. key_eq key r.key && r.event_id == i) rows) ≡ contains i (ids_of key rows)
unfolding find? rows_of select
find?-ids key i [] = refl
find?-ids key i (r ∷ rows) = ground (arith, find?-ids key i rows)

pub ids-IsFree :
    (key : RunKey) (m : ℕ) (rows : List HistoryRow)
    → ids_of key rows ≡ upto m
    → IsFree key (suc m) rows
ids-IsFree key m rows h i le =
    ground (arith, find?-ids key i rows, ap (contains i) h, contains-upto_above i m le)

IsFree-append :
    (key : RunKey) (id : ℕ) (rows : List HistoryRow) (r : HistoryRow)
    → r.event_id ≡ id
    → IsFree key id rows
    → IsFree key (suc id) (rows ++ r ∷ [])
unfolding find?
IsFree-append key id rows r e free i le =
    ground
      (arith, free i, find?-append-none (λ r. key_eq key r.key && r.event_id == i) rows (r ∷ []))

-- The row of an event.
abbrev pub event_row : ℕ → RunKey → ℕ → NewEvent → List ℕ → HistoryRow
event_row now key id ev bytes = record {
  key = key;
  event_id = id;
  event_time = now;
  event_type = ev.event_type;
  attributes = bytes;
}

abbrev add_rows : Db → List HistoryRow → Db
add_rows db rows = record db { history_events = db.history_events ++ rows }

insert_history_event_free :
    (row : HistoryRow) (db : Db)
    → find? (λ r. key_eq row.key r.key && r.event_id == row.event_id) db.history_events ≡ none
    → insert_history_event row db ≡ ok (tt, add_rows db (row ∷ []))
unfolding insert_history_event
insert_history_event_free row db h = ground arith

add_rows-add_rows :
    (db : Db) (r : HistoryRow) (rows : List HistoryRow)
    → add_rows (add_rows db (r ∷ [])) rows ≡ add_rows db (r ∷ rows)
add_rows-add_rows db r rows =
    ap (λ l. record db { history_events = l }) (append_assoc db.history_events (r ∷ []) rows)

abbrev bytes_of : Option (List ℕ) → List ℕ
bytes_of none = []
bytes_of (some bytes) = bytes

abbrev rows_or_nil : Option (List HistoryRow) → List HistoryRow
rows_or_nil none = []
rows_or_nil (some rows) = rows

-- The loop of inserts is one insert of all rows.
pub insert_events_lem :
    (ext : External) (now : ℕ) (key : RunKey) (id : ℕ) (evs : List NewEvent) (db : Db)
    → IsFree key id db.history_events
    → insert_events ext now key id evs db ≡ elim (encode_rows ext now key id evs) [
      | none ↦ err marshal_error
      | some rows ↦ ok (range_from id (length evs), add_rows db rows)
    ]
unfolding insert_events encode_rows
insert_events_lem ext now key id [] db free =
    ap (λ l. ok ([], record db { history_events = l })) (sym (append-nil db.history_events))
insert_events_lem ext now key id (ev ∷ evs) db free = ground (
  arith,
  insert_events_lem ext now key (suc id) evs
      (add_rows db (event_row now key id ev (bytes_of (ext.marshal ev.attributes)) ∷ []))
      (IsFree-append key id db.history_events
        (event_row now key id ev (bytes_of (ext.marshal ev.attributes))) refl free),
  insert_history_event_free (event_row now key id ev (bytes_of (ext.marshal ev.attributes))) db
      (free id (omega arith)),
  add_rows-add_rows db (event_row now key id ev (bytes_of (ext.marshal ev.attributes)))
      (rows_or_nil (encode_rows ext now key (suc id) evs)),
)

-- The database after an append at the run's current version.
unfoldable pub appended : ℕ → RunKey → WorkflowExecution → ℕ → List HistoryRow → Db → Db
appended now key we n rows db = record db {
  workflow_executions =
      update (has_version key we.next_event_id) (advance_row now n) db.workflow_executions;
  history_events = db.history_events ++ rows;
}

find?-has_version_current :
    (key : RunKey) (wes : List WorkflowExecution) (we : WorkflowExecution)
    → find? (λ r. key_eq key r.key) wes ≡ some we
    → AreRuns wes
    → find? (has_version key we.next_event_id) wes ≡ some we
unfolding find? has_version
find?-has_version_current key [] we h a = ground arith
find?-has_version_current key (w ∷ wes) we h a =
    ground (arith, find?-has_version_current key wes we)

-- A run's next id is free, and stays so while its counter moves.
next-IsFree :
    (key : RunKey) (db : Db) (we : WorkflowExecution)
    → IsContiguous db
    → find_execution key db ≡ some we
    → IsFree key we.next_event_id db.history_events
unfolding find_execution
next-IsFree key db we c h =
    let pos = AreRuns-positive key db.workflow_executions we c.runs h in
    let e : suc (we.next_event_id - 1) ≡ we.next_event_id = omega arith in
    subst (λ n. IsFree key n db.history_events) e
      (ids-IsFree key (we.next_event_id - 1) db.history_events
        (c.ids key ∙ ap (λ o. upto (events_before o)) h))

-- On a database with contiguous histories, appending at the version that the run has: the
-- counter moves by the number of events, the events are stored with the ids in a row from it,
-- and these ids are returned; or an event cannot be marshaled.
pub append_history-current :
    (ext : External) (now : ℕ) (key : RunKey) (ev : NewEvent) (evs : List NewEvent) (db : Db)
    (we : WorkflowExecution)
    → IsContiguous db
    → find_execution key db ≡ some we
    → let n = length (ev ∷ evs) in
      append_history ext now key we.next_event_id (ev ∷ evs) db
      ≡ elim (encode_rows ext now key we.next_event_id (ev ∷ evs)) [
        | none ↦ err marshal_error
        | some rows ↦
            ok
              ((we.next_event_id + n, range_from we.next_event_id n), appended now key we n rows db)
      ]
unfolding append_history advance_or_conflict advance_next_event_id find_execution appended
append_history-current ext now key ev evs db we c h = ground (
  arith,
  find?-has_version_current key db.workflow_executions we h c.runs,
  insert_events_lem ext now key we.next_event_id (ev ∷ evs)
      (record db {
        workflow_executions =
            update (has_version key we.next_event_id) (advance_row now (length (ev ∷ evs)))
              db.workflow_executions;
      })
      (next-IsFree key db we c h),
)

-- On a database with contiguous histories, a writer of events who expects another version of a
-- run than it has is refused with a concurrent modification.
pub append_history-stale :
    (ext : External) (now : ℕ) (key : RunKey) (expected : ℕ) (ev : NewEvent) (evs : List NewEvent)
    (db : Db) (we : WorkflowExecution)
    → IsContiguous db
    → find_execution key db ≡ some we
    → expected ≢ we.next_event_id
    → append_history ext now key expected (ev ∷ evs) db ≡ err concurrent_modification
unfolding append_history advance_or_conflict advance_next_event_id find_execution
append_history-stale ext now key expected ev evs db we c h ne = ground (
  arith,
  find?-has_version-none key expected db.workflow_executions we c.runs h (λ e. ne (sym e)),
)

-- So is a writer of a run that does not exist.
pub append_history-missing :
    (ext : External) (now : ℕ) (key : RunKey) (expected : ℕ) (ev : NewEvent) (evs : List NewEvent)
    (db : Db)
    → IsContiguous db
    → find_execution key db ≡ none
    → append_history ext now key expected (ev ∷ evs) db ≡ err concurrent_modification
unfolding append_history advance_or_conflict advance_next_event_id find_execution
append_history-missing ext now key expected ev evs db c h =
    elim (Option-cases (find? (has_version key expected) db.workflow_executions)) [
      | inl e ↦ ground arith
      | inr (w, e) ↦
          ground (arith, find?-has_version key expected db.workflow_executions w c.runs e)
    ]
