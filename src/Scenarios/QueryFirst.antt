-- ===== src/Scenarios/QueryFirst.antt =====
-- A query that a worker answers between two workflow tasks of a run.
use flowd_engine.Base.{take, find?, ℕ, ◌≡◌, refl, inr, true, none, List, [], ◌∷◌, ◌++◌, String}
use flowd_engine.Proto.{Command, schedule_activity_task}
use flowd_engine.History.Dispatch.Decode.{HistoryEvent}
use flowd_engine.Sdk.Cache.{ExecutionCache}
use flowd_engine.Sdk.Replayer.{schedule_activity, get_activity, stop}
use flowd_engine.Sdk.Worker.{Worker, WorkflowFunc, CachedExecution}
use flowd_engine.Sdk.Worker.Tasks.{process_workflow_task, completed, Answer}
use flowd_engine.Sdk.Worker.Queries.{process_query_task}
use flowd_engine.Scenarios.Workers.{
  first_events, next_events, no_options, worker, key_r, empty_cache, task_of,
}

-- A query comes before the workflow task that history ends in: the replay for it goes on past the
-- activity and asks for a second one, and the execution is cached. The workflow task then finds
-- that execution, and the second activity is not asked for.
abbrev two_activities : WorkflowFunc ℕ
two_activities = record {
  variables = 0;
  body = λ input. inr (
      schedule_activity "act" none no_options (λ id.
        get_activity id (λ o.
          schedule_activity "second" none no_options (λ id'. get_activity id' (λ o'. stop)))));
}

abbrev two_worker : Worker ℕ
two_worker = record worker { workflows = ("t", two_activities) ∷ [] }

abbrev commands_of : Answer → List Command
commands_of (completed commands attributes) = commands
commands_of _ = []

abbrev asked_types : List Command → List String
asked_types [] = []
asked_types (schedule_activity_task c ∷ cs) = c.activity_type ∷ asked_types cs
asked_types (_ ∷ cs) = asked_types cs

abbrev before_task : List HistoryEvent
before_task = take 7 (first_events ++ next_events)

abbrev after_query : ExecutionCache (CachedExecution ℕ)
after_query =
    (process_query_task two_worker (record { query_type = "status"; query_args = none }) key_r
      before_task empty_cache).1

asked_without_query :
    asked_types (
      commands_of
        (process_workflow_task two_worker
          (task_of (first_events ++ next_events))
          true
          empty_cache).0)
    ≡ "second" ∷ []
unfolding process_workflow_task find?
asked_without_query = refl

lost_after_query :
    commands_of
      (process_workflow_task two_worker (task_of (first_events ++ next_events)) true after_query).0
    ≡ []
unfolding process_workflow_task process_query_task find?
lost_after_query = refl
