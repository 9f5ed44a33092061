-- ===== src/History/WorkflowTask/Plan/Indices.antt =====
-- The indices that the loop over the commands keeps (activityEventIndex of workflow_task.go).
use flowd_engine.Base.{
  ℕ, zero, suc, ◌≡◌, refl, subst, Option, none, some, List, [], ◌∷◌, ◌++◌, String, length, arith,
  All,
}
use flowd_engine.Base.Result.{Result, ok, err}
use flowd_engine.Proto
use flowd_engine.Proto.{
  ScheduleActivityTaskCommand, Command, schedule_activity_task, start_timer,
  complete_workflow_execution, fail_workflow_execution, continue_as_new_workflow_execution,
  no_command,
}
use flowd_engine.Db.Types.{WorkflowExecution}
use flowd_engine.Db.ActivityTasks.{EnqueueActivityTaskParams}
use flowd_engine.History.Append.{NewEvent}
use flowd_engine.History.Store.{Store}
use flowd_engine.History.TaskToken.{TaskToken}
use flowd_engine.History.WorkflowTask.Plan.{
  CommandPlan, empty_plan, plan_command, plan_from, activity_enqueue_params,
}

abbrev pub event_at : List NewEvent → ℕ → Option NewEvent
event_at [] i = none
event_at (e ∷ es) zero = some e
event_at (e ∷ es) (suc i) = event_at es i

-- At the index is the event that schedules the activity.
pub record IsScheduled (events : List NewEvent) (a : ℕ × EnqueueActivityTaskParams) : Type 0 where
  pub command : ScheduleActivityTaskCommand
  pub event :
      event_at events a.0
      ≡ some (record {
        event_type = Proto.HistoryEventType.activity_task_scheduled;
        attributes = Proto.Attributes.activity_scheduled command;
      })
  pub same_activity : a.1.activity_id ≡ command.activity_id

event_at-append :
    (xs ys : List NewEvent) (i : ℕ) (e : NewEvent)
    → event_at xs i ≡ some e
    → event_at (xs ++ ys) i ≡ some e
event_at-append [] ys i e h = ground arith
event_at-append (x ∷ xs) ys zero e h = h
event_at-append (x ∷ xs) ys (suc i) e h = event_at-append xs ys i e h

event_at-length : (xs : List NewEvent) (e : NewEvent) → event_at (xs ++ e ∷ []) (length xs) ≡ some e
event_at-length [] e = refl
event_at-length (x ∷ xs) e = event_at-length xs e

All-IsScheduled-append :
    (events more : List NewEvent) (acts : List (ℕ × EnqueueActivityTaskParams))
    → All (IsScheduled events) acts
    → All (IsScheduled (events ++ more)) acts
All-IsScheduled-append events more [] h = tt
All-IsScheduled-append events more (a ∷ rest) (s, h) = (
  record {
    command = s.command;
    event = event_at-append events more a.0 _ s.event;
    same_activity = s.same_activity;
  },
  All-IsScheduled-append events more rest h,
)

All-IsScheduled-snoc :
    (events : List NewEvent) (acts : List (ℕ × EnqueueActivityTaskParams))
    (a : ℕ × EnqueueActivityTaskParams)
    → All (IsScheduled events) acts
    → IsScheduled events a
    → All (IsScheduled events) (acts ++ a ∷ [])
All-IsScheduled-snoc events [] a h s = (s, tt)
All-IsScheduled-snoc events (b ∷ rest) a (t, h) s = (t, All-IsScheduled-snoc events rest a h s)

-- The plan, if there is one, has its indices right.
abbrev Planned : Result CommandPlan → Type 0
Planned (ok p) = All (IsScheduled p.events) p.activities
Planned (err e) = Unit {0}

plan_command-Planned :
    (s : Store) (token : TaskToken) (we : WorkflowExecution) (run : String) (p : CommandPlan)
    (c : Command)
    → All (IsScheduled p.events) p.activities
    → Planned (plan_command s token we run p c)
unfolding plan_command activity_enqueue_params
plan_command-Planned s token we run p (schedule_activity_task cmd) h =
    All-IsScheduled-snoc _ p.activities _ (All-IsScheduled-append p.events _ p.activities h)
      (record { command = cmd; event = event_at-length p.events _; same_activity = refl })
plan_command-Planned s token we run p (start_timer st) h =
    All-IsScheduled-append p.events _ p.activities h
plan_command-Planned s token we run p (complete_workflow_execution r) h =
    All-IsScheduled-append p.events _ p.activities h
plan_command-Planned s token we run p (fail_workflow_execution f) h =
    All-IsScheduled-append p.events _ p.activities h
plan_command-Planned s token we run p (continue_as_new_workflow_execution cmd) h =
    All-IsScheduled-append p.events _ p.activities h
plan_command-Planned s token we run p no_command h = tt

plan_from-Planned :
    (s : Store) (token : TaskToken) (we : WorkflowExecution) (run : String) (cs : List Command)
    (p : CommandPlan)
    → All (IsScheduled p.events) p.activities
    → Planned (plan_from s token we run p cs)
unfolding plan_from
plan_from-Planned s token we run [] p h = h
plan_from-Planned s token we run (c ∷ cs) p h =
    split (plan_command s token we run p c) (plan_command-Planned s token we run p c h)
      (λ q. plan_from-Planned s token we run cs q)
  where
    split :
        (r : Result CommandPlan)
        → Planned r
        → ((q : CommandPlan)
            → All (IsScheduled q.events) q.activities
            → Planned (plan_from s token we run q cs))
        → Planned (elim r [ ok q ↦ plan_from s token we run q cs | err e ↦ err e ])
    split (ok q) d ih = ih q d
    split (err e) d ih = tt

-- In the plan that the commands of a workflow task make, each activity to enqueue stands with the
-- index of an event that schedules it.
pub plan_from-indices :
    (s : Store) (token : TaskToken) (we : WorkflowExecution) (run : String) (cs : List Command)
    (p : CommandPlan)
    → plan_from s token we run empty_plan cs ≡ ok p
    → All (IsScheduled p.events) p.activities
plan_from-indices s token we run cs p h =
    subst Planned h (plan_from-Planned s token we run cs empty_plan tt)
