-- ===== src/Scenarios/Planning.antt =====
-- The theorem on plans of commands, at a workflow task that starts a timer and schedules an activity.
use flowd_engine.Base.{none, List, [], ◌∷◌}
use flowd_engine.Base.Result.{Result, ok, err}
use flowd_engine.Proto.{Command, schedule_activity_task, start_timer}
use flowd_engine.History.WorkflowTask.Plan.{CommandPlan, empty_plan, plan_from}
use flowd_engine.Db.Types.{Db}
use flowd_engine.History.Append.{append_history}
use flowd_engine.History.WorkflowTask.{enqueue_activities}
use flowd_engine.Scenarios.{ext, server, run_r, run_row, db_with_run, activity_token}

abbrev two_commands : List Command
two_commands =
    start_timer (record { timer_id = 1; duration = none })
    ∷ schedule_activity_task (record {
      activity_id = 2;
      activity_type = "act";
      input = none;
      retry_policy = none;
      schedule_to_start_timeout = none;
      start_to_close_timeout = none;
    })
    ∷ []

abbrev left : {A : Type 0} → Result (A × Db) → Db
left (ok (a, db)) = db
left (err e) = db_with_run

abbrev plan_or_empty : Result CommandPlan → CommandPlan
plan_or_empty (ok p) = p
plan_or_empty (err e) = empty_plan

abbrev two_planned : CommandPlan
two_planned = plan_or_empty (plan_from server activity_token run_row "r2" empty_plan two_commands)

-- The three events of the plan are stored under 1, 2 and 3.
abbrev planned_db : Db
planned_db = left (append_history ext 5 run_r 1 two_planned.events db_with_run)

abbrev enqueued_db : Db
enqueued_db = left (enqueue_activities 5 (1 ∷ 2 ∷ 3 ∷ []) two_planned.activities planned_db)
