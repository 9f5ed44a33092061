-- ===== src/Db/Timers.antt =====
-- sqlc/timers.sql.go.
use flowd_engine.Base.{
  ℕ, none, some, [], ◌∷◌, ◌++◌, Bool, not, ◌&&◌, ◌==◌, leb, select, delete, min_by, find?,
}
use flowd_engine.Base.Result.{no_rows, unique_violation, Tx, ok, err}
use flowd_engine.Db.Types.{Db, RunKey, key_eq, Timer}

-- The primary key (namespace_id, workflow_id, run_id, timer_id).
unfoldable pub is_timer : RunKey → ℕ → Timer → Bool
is_timer key id t = key_eq key t.key && t.timer_id == id

unfoldable pub insert_timer : Timer → Tx Db (Unit {0})
unfolding is_timer
insert_timer t db = elim (find? (is_timer t.key t.timer_id) db.timers) [
  | some _ ↦ err unique_violation
  | none ↦ ok (tt, record db { timers = db.timers ++ t ∷ [] })
]

-- DELETE of the timer that is due first. `locked` are the rows that other transactions hold.
unfoldable pub dequeue_due_timer : ℕ → (RunKey → ℕ → Bool) → Tx Db Timer
unfolding is_timer
dequeue_due_timer now locked db =
    elim (min_by (λ t. t.fire_at)
      (select (λ t. leb t.fire_at now && not (locked t.key t.timer_id)) db.timers)) [
        | none ↦ err no_rows
        | some t ↦ ok (t, record db { timers = delete (is_timer t.key t.timer_id) db.timers })
      ]
