-- ===== src/History/WorkflowTask/Stamps.antt =====
-- The rows of the activities that a workflow task schedules: each carries the id of its event.
use flowd_engine.Base.{ℕ, ◌+◌, ◌≡◌, some, List, ◌++◌, length, range_from, All}
use flowd_engine.Base.Result.{Result, ok, err}
use flowd_engine.Proto
use flowd_engine.Proto.{ScheduleActivityTaskCommand}
use flowd_engine.Db.Types.{Db, ActivityTask}
use flowd_engine.History.Append.{NewEvent}
use flowd_engine.History.Store.{Store}
use flowd_engine.History.TaskToken.{TaskToken}
use flowd_engine.History.WorkflowTask.Plan.Indices.{event_at}

-- The row is of an activity that one of the events schedules, where the first event has the id
-- `first`, and has that event's id.
pub record IsStamped (first : ℕ) (events : List NewEvent) (row : ActivityTask) : Type 0 where
  pub index : ℕ
  pub command : ScheduleActivityTaskCommand
  pub event :
      event_at events index
      ≡ some (record {
        event_type = Proto.HistoryEventType.activity_task_scheduled;
        attributes = Proto.Attributes.activity_scheduled command;
      })
  pub activity : row.activity_id ≡ command.activity_id
  pub id : row.scheduled_event_id ≡ first + index

-- The rows of the whole loop.
abbrev Stamped : ℕ → List NewEvent → ℕ → Db → Db → Type 0
Stamped first events n db db' =
    (rows : List ActivityTask) × (db'.activity_tasks ≡ db.activity_tasks ++ rows)
    × (length rows ≡ n)
    × All (IsStamped first events) rows

abbrev HasIds : ℕ → ℕ → Result ((ℕ × List ℕ) × Db) → Type 0
HasIds first n (ok ((next, ids), db)) = ids ≡ range_from first n
HasIds first n (err e) = Unit {0}
