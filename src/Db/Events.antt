-- ===== src/Db/Events.antt =====
-- sqlc/history.sql.go: history_events.
use flowd_engine.Base.{
  ℕ, none, some, List, [], ◌∷◌, ◌++◌, find?, select, take, ◌&&◌, ◌==◌, ltb, leb, if◌then◌else◌,
}
use flowd_engine.Base.Result.{unique_violation, Tx, ok, err}
use flowd_engine.Db.Types.{Db, RunKey, key_eq, HistoryRow}

-- The PRIMARY KEY (namespace_id, workflow_id, run_id, event_id) refuses a second row.
unfoldable pub insert_history_event : HistoryRow → Tx Db (Unit {0})
insert_history_event row db =
    elim (find? (λ r. key_eq row.key r.key && r.event_id == row.event_id) db.history_events) [
      | some _ ↦ err unique_violation
      | none ↦ ok (tt, record db { history_events = db.history_events ++ row ∷ [] })
    ]

-- ORDER BY event_id, by insertion.
unfoldable pub insert_by_id : HistoryRow → List HistoryRow → List HistoryRow
insert_by_id row [] = row ∷ []
insert_by_id row (r ∷ rs) =
    if leb row.event_id r.event_id then row ∷ r ∷ rs else r ∷ insert_by_id row rs

unfoldable pub order_by_id : List HistoryRow → List HistoryRow
unfolding insert_by_id
order_by_id [] = []
order_by_id (r ∷ rs) = insert_by_id r (order_by_id rs)

-- The rows of a run.
unfoldable pub rows_of : RunKey → List HistoryRow → List HistoryRow
rows_of key rows = select (λ r. key_eq key r.key) rows

unfoldable pub list_history_events : RunKey → ℕ → ℕ → Db → List HistoryRow
unfolding order_by_id
list_history_events key after limit db =
    take limit
      (order_by_id (select (λ r. key_eq key r.key && ltb after r.event_id) db.history_events))
