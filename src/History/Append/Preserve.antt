-- ===== src/History/Append/Preserve.antt =====
-- AppendHistory keeps the histories contiguous, whatever version its caller expects.
use flowd_engine.Base.{
  ℕ, suc, ◌+◌, ◌-◌, ◌≡◌, refl, sym, ap, subst, ◌∙◌, Option, none, some, List, [], ◌∷◌, ◌++◌, map,
  map-append, append-nil, arith, if◌then◌else◌, select, select-append, range_from, upto,
  upto-append-range, length,
}
use native.Mathlib.Decide.{ℕ_discrete}
use flowd_engine.Base.Result.{Error, Result, ok, err, marshal_error}
use flowd_engine.Proto.{External}
use flowd_engine.Db.Types.{Db, RunKey, key_eq, key_eq_iff, WorkflowExecution, HistoryRow}
use flowd_engine.Db.Executions.{find_execution, has_version, advance_row}
use flowd_engine.Db.Events.{rows_of}
use flowd_engine.History.Append.{NewEvent, append_history}
use flowd_engine.History.Append.Contiguous.{
  ids_of, event_count, IsContiguous, AreRuns-positive, AreRuns-update, event_count-advance,
}
use flowd_engine.History.Append.Laws.{
  encode_rows, appended, append_history-current, append_history-stale, append_history-missing,
}

ids_of-append :
    (key : RunKey) (xs ys : List HistoryRow)
    → ids_of key (xs ++ ys) ≡ ids_of key xs ++ ids_of key ys
unfolding rows_of
ids_of-append key xs ys =
    ap (map (λ r. r.event_id)) (select-append (λ r. key_eq key r.key) xs ys)
    ∙ map-append (λ r. r.event_id) _ _

-- The new rows have ids in a row, all of the one run.
ids_of-encode_rows :
    (ext : External) (now : ℕ) (key j : RunKey) (id : ℕ) (evs : List NewEvent)
    (rows : List HistoryRow)
    → encode_rows ext now key id evs ≡ some rows
    → ids_of j rows ≡ (if key_eq j key then range_from id (length evs) else [])
unfolding encode_rows rows_of select
ids_of-encode_rows ext now key j id [] rows h = ground arith
ids_of-encode_rows ext now key j id (ev ∷ evs) rows h =
    split (ext.marshal ev.attributes) (encode_rows ext now key (suc id) evs) refl refl
      (ids_of-encode_rows ext now key j (suc id) evs)
  where
    split :
        (m : Option (List ℕ)) (tail : Option (List HistoryRow))
        → ext.marshal ev.attributes ≡ m
        → encode_rows ext now key (suc id) evs ≡ tail
        → ((rest : List HistoryRow)
            → encode_rows ext now key (suc id) evs ≡ some rest
            → ids_of j rest ≡ (if key_eq j key then range_from (suc id) (length evs) else []))
        → ids_of j rows ≡ (if key_eq j key then range_from id (length (ev ∷ evs)) else [])
    split none tail e f ih = ground arith
    split (some b) none e f ih = ground arith
    split (some b) (some rest) e f ih = ground (arith, ih rest f)

key_eq_comm : (a b : RunKey) → key_eq a b ≡ key_eq b a
key_eq_comm a b = ground (arith, key_eq_iff a b, key_eq_iff b a)

appended-ids :
    (ext : External) (now : ℕ) (key j : RunKey) (evs : List NewEvent) (rows : List HistoryRow)
    (db : Db) (we : WorkflowExecution)
    → IsContiguous db
    → find_execution key db ≡ some we
    → encode_rows ext now key we.next_event_id evs ≡ some rows
    → let db' = appended now key we (length evs) rows db in
      ids_of j db'.history_events ≡ upto (event_count j db'.workflow_executions)
unfolding find_execution appended
appended-ids ext now key j evs rows db we c h e = ground (
  arith,
  key_eq_comm j key,
  key_eq_iff key j,
  c.ids j,
  ap (λ k. event_count k db.workflow_executions) {x = key} {y = j},
  ids_of-append j db.history_events rows,
  ids_of-encode_rows ext now key j we.next_event_id evs rows e,
  upto-append-range (we.next_event_id - 1) (length evs),
  append-nil (ids_of j db.history_events),
  AreRuns-positive key db.workflow_executions we c.runs h,
  event_count-advance now (length evs) key j db.workflow_executions we c.runs h,
)

pub appended-IsContiguous :
    (ext : External) (now : ℕ) (key : RunKey) (evs : List NewEvent) (rows : List HistoryRow)
    (db : Db) (we : WorkflowExecution)
    → IsContiguous db
    → find_execution key db ≡ some we
    → encode_rows ext now key we.next_event_id evs ≡ some rows
    → IsContiguous (appended now key we (length evs) rows db)
unfolding appended
appended-IsContiguous ext now key evs rows db we c h e = record {
  runs =
      AreRuns-update (has_version key we.next_event_id) (advance_row now (length evs))
        db.workflow_executions (unfold advance_row in λ r. refl)
        (unfold advance_row in λ r p. omega arith) c.runs;
  ids = λ j. unfold appended in appended-ids ext now key j evs rows db we c h e;
}

-- Every branch of an append in one statement: nothing to append changes nothing; else the run
-- exists at the expected version and the rows are added, or the append fails.
pub data Appends (ext : External) (now : ℕ) (key : RunKey) (expected : ℕ) (evs : List NewEvent)
    (db : Db) : Result ((ℕ × List ℕ) × Db) → Type 0 where
  unchanged : evs ≡ [] → Appends ext now key expected evs db (ok ((expected, []), db))
  added :
      (we : WorkflowExecution) (rows : List HistoryRow)
      → find_execution key db ≡ some we
      → we.next_event_id ≡ expected
      → encode_rows ext now key expected evs ≡ some rows
      → Appends ext now key expected evs db (
          ok (
            (expected + length evs, range_from expected (length evs)),
            appended now key we (length evs) rows db,
          ))
  refused : (e : Error) → Appends ext now key expected evs db (err e)

at_version :
    (ext : External) (now : ℕ) (key : RunKey) (ev : NewEvent) (evs : List NewEvent) (db : Db)
    (we : WorkflowExecution)
    → IsContiguous db
    → find_execution key db ≡ some we
    → Appends ext now key we.next_event_id
        (ev ∷ evs)
        db
        (append_history ext now key we.next_event_id (ev ∷ evs) db)
at_version ext now key ev evs db we c h =
    rw (append_history-current ext now key ev evs db we c h)
      (split (encode_rows ext now key we.next_event_id (ev ∷ evs)) refl)
  where
    split :
        (m : Option (List HistoryRow))
        → encode_rows ext now key we.next_event_id (ev ∷ evs) ≡ m
        → Appends ext now key we.next_event_id (ev ∷ evs) db (elim m [
          | none ↦ err marshal_error
          | some rows ↦ ok (
            (we.next_event_id + length (ev ∷ evs), range_from we.next_event_id (length (ev ∷ evs))),
            appended now key we (length (ev ∷ evs)) rows db,
          )
        ])
    split none e = refused _
    split (some rows) e = added we rows h refl e

not_at_version :
    (ext : External) (now : ℕ) (key : RunKey) (expected : ℕ) (ev : NewEvent) (evs : List NewEvent)
    (db : Db)
    → IsContiguous db
    → (o : Option WorkflowExecution) → find_execution key db ≡ o
    → Appends ext now key expected (ev ∷ evs) db (append_history ext now key expected (ev ∷ evs) db)
not_at_version ext now key expected ev evs db c none e =
    rw (append_history-missing ext now key expected ev evs db c e) (refused _)
not_at_version ext now key expected ev evs db c (some we) e =
    elim (ℕ_discrete we.next_event_id expected) [
      | yes same ↦
          subst
            (λ n. Appends ext now key n (ev ∷ evs) db (append_history ext now key n (ev ∷ evs) db))
            same (at_version ext now key ev evs db we c e)
      | no other ↦
          rw (append_history-stale ext now key expected ev evs db we c e (λ p. other (sym p)))
            (refused _)
    ]

-- On a database with contiguous histories an append does one of three things: with no events, it
-- changes nothing; or the run is at the expected version, the rows of the events are added under
-- the next ids, and these ids and the next version are returned; or it fails.
pub append_history-Appends :
    (ext : External) (now : ℕ) (key : RunKey) (expected : ℕ) (evs : List NewEvent) (db : Db)
    → IsContiguous db
    → Appends ext now key expected evs db (append_history ext now key expected evs db)
append_history-Appends ext now key expected [] db c = unfold append_history in unchanged refl
append_history-Appends ext now key expected (ev ∷ evs) db c =
    not_at_version ext now key expected ev evs db c (find_execution key db) refl

-- What holds of the database that a computation leaves, if it succeeds.
abbrev pub Leaves : {A : Type 0} → (Db → Type 0) → Result (A × Db) → Type 0
Leaves P (ok (a, db)) = P db
Leaves P (err e) = Unit {0}

Appends-IsContiguous :
    {ext : External} {now : ℕ} {key : RunKey} {expected : ℕ} {evs : List NewEvent} {db : Db}
    {r : Result ((ℕ × List ℕ) × Db)}
    → IsContiguous db
    → Appends ext now key expected evs db r
    → Leaves IsContiguous r
Appends-IsContiguous c (unchanged e) = c
Appends-IsContiguous {ext} {now} {key} {expected} {evs} {db} c (added we rows f v e) =
    appended-IsContiguous ext now key evs rows db we c f (rw v e)
Appends-IsContiguous c (refused e) = tt

-- AppendHistory leaves every history contiguous.
pub append_history-IsContiguous :
    (ext : External) (now : ℕ) (key : RunKey) (expected : ℕ) (evs : List NewEvent) (db : Db)
    → IsContiguous db
    → Leaves IsContiguous (append_history ext now key expected evs db)
append_history-IsContiguous ext now key expected evs db c =
    Appends-IsContiguous c (append_history-Appends ext now key expected evs db c)
