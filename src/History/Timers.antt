-- ===== src/History/Timers.antt =====
-- internal/history/timers.go: firing the timers that are due.
use flowd_engine.Base.{ℕ, Bool, true, false, Option, some, none}
use flowd_engine.Base.Result.{no_rows, Result, ok, err, Tx, ◌>>=◌, pure}
use flowd_engine.Proto
use flowd_engine.Db.Types.{Db, RunKey}
use flowd_engine.Db.Executions.{get_workflow_execution}
use flowd_engine.Db.Timers.{dequeue_due_timer}
use flowd_engine.History.Append.{NewEvent}
use flowd_engine.History.Notifier.{QueueKey, workflow_queue_key, notify}
use flowd_engine.History.Store.{Store, State, with_tx}
use flowd_engine.History.Wake.{record_and_wake}

abbrev pub timer_fired_event : ℕ → NewEvent
timer_fired_event id = record {
  event_type = Proto.HistoryEventType.timer_fired;
  attributes = Proto.Attributes.timer_fired id;
}

-- The queue to wake, or `none` if no timer is due.
unfoldable pub fire_tx : Store → ℕ → (RunKey → ℕ → Bool) → Tx Db (Option QueueKey)
unfolding dequeue_due_timer get_workflow_execution record_and_wake
fire_tx s now locked db = elim (dequeue_due_timer now locked db) [
  | err no_rows ↦ ok (none, db)
  | err e ↦ err e
  | ok (t, db') ↦
      (do
        we ← get_workflow_execution t.key
        queue ← record_and_wake s now t.key we (timer_fired_event t.timer_id)
        pure (some (workflow_queue_key t.key.namespace_id queue)))
        db'
]

-- Whether a timer was fired; an error is logged and counts as none.
abbrev fired : State → Result (Option QueueKey) × Db → Bool × State
fired st (ok (some key), db) = (true, record { db = db; notifier = notify key st.notifier })
fired st (ok none, db) = (false, record st { db = db })
fired st (err e, db) = (false, record st { db = db })

unfoldable pub fire_due_timer : Store → ℕ → (RunKey → ℕ → Bool) → State → Bool × State
unfolding fire_tx with_tx notify
fire_due_timer s now locked st = fired st (with_tx (fire_tx s now locked) st.db)
