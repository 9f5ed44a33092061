-- ===== src/History/Append/Writes.antt =====
-- What an append at the run's version leaves in the two tables that it writes.
use flowd_engine.Base.{
  ℕ, ◌+◌, ◌≡◌, ◌≢◌, if◌then◌else◌, refl, inl, inr, Option-cases, none, some, List, ◌∷◌, ◌++◌, arith,
  find?, find?-update, find?-holds, update, range_from, length,
}
use flowd_engine.Base.Result.{ok}
use flowd_engine.Proto.{External}
use flowd_engine.Db.Types.{Db, RunKey, key_eq, key_eq_iff, WorkflowExecution, HistoryRow}
use flowd_engine.Db.Executions.{find_execution, has_version, advance_row}
use flowd_engine.History.Append.{NewEvent, append_history}
use flowd_engine.History.Append.Contiguous.{IsContiguous}
use flowd_engine.History.Append.Laws.{encode_rows, appended, append_history-current}

-- The run's row with the counter moved.
abbrev pub moved : ℕ → ℕ → WorkflowExecution → WorkflowExecution
moved now n we = record we { next_event_id = we.next_event_id + n; updated_at = now }

find_execution-advanced :
    (now n v : ℕ) (key j : RunKey) (wes : List WorkflowExecution)
    → find? (λ r. key_eq j r.key) (update (has_version key v) (advance_row now n) wes)
      ≡ elim (find? (λ r. key_eq j r.key) wes) [
        | none ↦ none
        | some x ↦ some (if has_version key v x then advance_row now n x else x)
      ]
unfolding advance_row
find_execution-advanced now n v key j wes =
    find?-update (λ r. key_eq j r.key) (has_version key v) (advance_row now n) wes (λ r. refl)

find_execution-appended :
    (now n : ℕ) (key : RunKey) (rows : List HistoryRow) (db : Db) (we : WorkflowExecution)
    → find_execution key db ≡ some we
    → find_execution key (appended now key we n rows db) ≡ some (moved now n we)
unfolding find_execution appended has_version advance_row
find_execution-appended now n key rows db we h = ground (
  arith,
  find_execution-advanced now n we.next_event_id key key db.workflow_executions,
  find?-holds (λ r. key_eq key r.key) db.workflow_executions we h,
)

find_execution-appended_other :
    (now n : ℕ) (key j : RunKey) (rows : List HistoryRow) (db : Db) (we : WorkflowExecution)
    → j ≢ key
    → find_execution j (appended now key we n rows db) ≡ find_execution j db
unfolding find_execution appended has_version
find_execution-appended_other now n key j rows db we ne =
    elim (Option-cases (find? (λ r. key_eq j r.key) db.workflow_executions)) [
      | inl e ↦
          ground
            (arith, find_execution-advanced now n we.next_event_id key j db.workflow_executions)
      | inr (x, e) ↦ ground (
        arith,
        find_execution-advanced now n we.next_event_id key j db.workflow_executions,
        find?-holds (λ r. key_eq j r.key) db.workflow_executions x e,
        key_eq_iff j x.key,
        key_eq_iff key x.key,
      )
    ]

-- On a database with contiguous histories, an append at the version that the run has, of events
-- that can be marshaled, succeeds: it returns the ids in a row from the version and the version
-- past them; the counter of the run has moved by the number of events and the time of its update
-- is now, the other runs are as they were, and the rows of the events stand after those that were
-- there.
pub append_history-writes :
    (ext : External) (now : ℕ) (key : RunKey) (ev : NewEvent) (evs : List NewEvent) (db : Db)
    (we : WorkflowExecution) (rows : List HistoryRow) (other : RunKey)
    → IsContiguous db
    → find_execution key db ≡ some we
    → other ≢ key
    → encode_rows ext now key we.next_event_id (ev ∷ evs) ≡ some rows
    → let n = length (ev ∷ evs) in
      (db' : Db) × (append_history ext now key we.next_event_id (ev ∷ evs) db
        ≡ ok ((we.next_event_id + n, range_from we.next_event_id n), db'))
      × (find_execution key db'
          ≡ some (record we { next_event_id = we.next_event_id + n; updated_at = now }))
      × (find_execution other db' ≡ find_execution other db)
      × (db'.history_events ≡ db.history_events ++ rows)
append_history-writes ext now key ev evs db we rows other c h ne e =
    let n = length (ev ∷ evs) in
    let a = append_history-current ext now key ev evs db we c h in
    (
      appended now key we n rows db,
      ground (arith, a, e),
      find_execution-appended now n key rows db we h,
      find_execution-appended_other now n key other rows db we ne,
      unfold appended in refl,
    )
