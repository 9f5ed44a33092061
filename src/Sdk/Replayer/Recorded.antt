-- ===== src/Sdk/Replayer/Recorded.antt =====
-- What history records of commands: the activities and the timers, in the commands' order.
use flowd_engine.Base.{◌≡◌, refl, ap, List, [], ◌∷◌, ◌++◌}
use flowd_engine.Proto.{Command, schedule_activity_task, start_timer}
use flowd_engine.Sdk.Replayer.{ScheduledActivity, ScheduledTimer}
use flowd_engine.Sdk.Replayer.Load.{duration_of}

-- The activities, and the timers, that commands ask for, as history records them.
unfoldable pub activities_of : List Command → List ScheduledActivity
activities_of [] = []
activities_of (schedule_activity_task c ∷ cs) =
    record { activity_id = c.activity_id; activity_type = c.activity_type } ∷ activities_of cs
activities_of (_ ∷ cs) = activities_of cs

unfoldable pub timers_of : List Command → List ScheduledTimer
timers_of [] = []
timers_of (start_timer st ∷ cs) =
    record { timer_id = st.timer_id; duration = duration_of st.duration } ∷ timers_of cs
timers_of (_ ∷ cs) = timers_of cs

pub activities_of-append :
    (xs ys : List Command) → activities_of (xs ++ ys) ≡ activities_of xs ++ activities_of ys
unfolding activities_of
activities_of-append [] ys = refl
activities_of-append (schedule_activity_task c ∷ xs) ys =
    ap (◌∷◌ (record { activity_id = c.activity_id; activity_type = c.activity_type }))
      (activities_of-append xs ys)
activities_of-append (start_timer c ∷ xs) ys = activities_of-append xs ys
activities_of-append (Command.complete_workflow_execution c ∷ xs) ys = activities_of-append xs ys
activities_of-append (Command.fail_workflow_execution c ∷ xs) ys = activities_of-append xs ys
activities_of-append (Command.continue_as_new_workflow_execution c ∷ xs) ys =
    activities_of-append xs ys
activities_of-append (Command.no_command ∷ xs) ys = activities_of-append xs ys

pub timers_of-append : (xs ys : List Command) → timers_of (xs ++ ys) ≡ timers_of xs ++ timers_of ys
unfolding timers_of
timers_of-append [] ys = refl
timers_of-append (start_timer c ∷ xs) ys =
    ap (◌∷◌ (record { timer_id = c.timer_id; duration = duration_of c.duration }))
      (timers_of-append xs ys)
timers_of-append (schedule_activity_task c ∷ xs) ys = timers_of-append xs ys
timers_of-append (Command.complete_workflow_execution c ∷ xs) ys = timers_of-append xs ys
timers_of-append (Command.fail_workflow_execution c ∷ xs) ys = timers_of-append xs ys
timers_of-append (Command.continue_as_new_workflow_execution c ∷ xs) ys = timers_of-append xs ys
timers_of-append (Command.no_command ∷ xs) ys = timers_of-append xs ys
