-- ===== src/Scenarios/Workers.antt =====
-- The theorems on workers and replays, at a workflow of one activity.
use flowd_engine.Base.{
  find?, ℕ, ◌≡◌, ◌↔◌, refl, inr, true, false, none, some, List, [], ◌∷◌, ◌++◌, String, arith,
}
use flowd_engine.Proto.{
  Payload, Attributes, unspecified, execution_started, task_scheduled, task_started, task_completed,
  activity_scheduled, activity_completed,
}
use flowd_engine.History.Dispatch.Decode.{HistoryEvent}
use flowd_engine.Sdk.Cache.{ExecCacheKey, ExecutionCache, get}
use flowd_engine.Sdk.Cache.Once.{IsOnce}
use flowd_engine.Sdk.Replayer.{
  Code, schedule_activity, get_activity, finish, returned, payload, ActivityOptions, Execution,
  activity_mismatch, reset_round_output,
}
use flowd_engine.Sdk.Replayer.Handlers.{handler_of}
use flowd_engine.Sdk.Replayer.Load.{load_new_events, load_history, run_of, load_events, load_event}
use flowd_engine.Sdk.Replayer.Load.Laws.{
  with_recorded, recorded_activities, recorded_timers, IsNewOutcome,
}
use flowd_engine.Sdk.Replayer.Recorded.{activities_of, timers_of}
use flowd_engine.Sdk.Replayer.Run.{run, execute_round}
use flowd_engine.Sdk.Replayer.Parks.{IsSequential}
use flowd_engine.Sdk.Replayer.Sticky.{begin, Parked}
use flowd_engine.Sdk.Replayer.Sticky.Resume.{replay-resume}
use flowd_engine.Sdk.Worker.{
  Worker, WorkflowFunc, PolledTask, CachedExecution, events_after, newest_event_id, workflow_panic,
}
use flowd_engine.Sdk.Worker.Tasks.{process_workflow_task, failed}
use flowd_engine.Sdk.Worker.Unseen.{CountFrom, events_after-append}
use flowd_engine.Sdk.Worker.Hits.{Runs, answer-hit}
use flowd_engine.Sdk.Worker.Evicts.{may_stay, process-evicts}
use flowd_engine.Sdk.Worker.Golden.{replay_workflow_history, replay_panic}
use flowd_engine.Sdk.Worker.Golden.Agrees.{answer-replay}

abbrev event : ℕ → Attributes → HistoryEvent
event id a = record { event_id = id; event_time = id; event_type = unspecified; attributes = a }

abbrev pub no_options : ActivityOptions
no_options = record {
  retry_policy = none;
  schedule_to_start_timeout = 0;
  start_to_close_timeout = 0;
}

abbrev one : Payload
one = record { metadata = []; content = 1 ∷ [] }

-- Waits for the activity, whatever it was told of it, and ends.
abbrev rest : Code ℕ
rest = get_activity 1 (λ o. finish (returned (payload one)))

abbrev activity_then_end : String → Code ℕ
activity_then_end type =
    schedule_activity type none no_options
      (λ id. get_activity id (λ o. finish (returned (payload one))))

abbrev pub first_events : List HistoryEvent
first_events =
    event 1 (
      execution_started (record {
        workflow_type = "t";
        task_queue = "q";
        input = none;
        retry_policy = none;
        continued_from_run_id = "";
      }))
    ∷ event 2 (task_scheduled "q")
    ∷ event 3 task_started
    ∷ []

abbrev pub next_events : List HistoryEvent
next_events =
    event 4 task_completed
    ∷ event 5 (
        activity_scheduled (record {
          activity_id = 1;
          activity_type = "act";
          input = none;
          retry_policy = none;
          schedule_to_start_timeout = none;
          start_to_close_timeout = none;
        }))
    ∷ event 6 (activity_completed 1 (some one))
    ∷ event 7 (task_scheduled "q")
    ∷ event 8 task_started
    ∷ []

abbrev after_first : Execution ℕ
after_first = (run (activity_then_end "act") (begin (activity_then_end "act") 0 first_events)).1

first-Parked : Parked (activity_then_end "act") 0 first_events next_events rest after_first
unfolding IsSequential begin run load_history load_events load_event recorded_activities
    recorded_timers activities_of timers_of IsNewOutcome
first-Parked = record {
  sequential = λ id o. tt;
  ran = refl;
  met_activities = omega arith;
  met_timers = omega arith;
  asked = refl;
  timers_asked = refl;
  new_outcomes = (tt, (tt, (refl, (tt, (tt, tt)))));
}

replay-resume_example :
    execute_round (begin (activity_then_end "act") 0 (first_events ++ next_events))
    ≡ with_recorded
        (begin (activity_then_end "act") 0 (first_events ++ next_events)).scheduled_activities
        (begin (activity_then_end "act") 0 (first_events ++ next_events)).scheduled_timers
        (execute_round (
          load_new_events next_events
            (reset_round_output (execute_round (begin (activity_then_end "act") 0 first_events)))))
replay-resume_example =
    replay-resume (activity_then_end "act") 0 first_events next_events rest after_first first-Parked

third_last : newest_event_id first_events ≡ some 3
unfolding newest_event_id
third_last = refl

all_counted : CountFrom 1 (first_events ++ next_events)
all_counted = (refl, (refl, (refl, (refl, (refl, (refl, (refl, (refl, tt))))))))

events_after-append_example : events_after (first_events ++ next_events) 3 ≡ next_events
events_after-append_example =
    events_after-append 1 3 first_events next_events all_counted third_last

abbrev workflow : String → WorkflowFunc ℕ
workflow type = record { variables = 0; body = λ input. inr (activity_then_end type) }

abbrev pub worker : Worker ℕ
worker = record {
  identity = "i";
  workflows = ("t", workflow "act") ∷ [];
  sticky_schedule_to_start_timeout = 5;
}

abbrev pub key_r : ExecCacheKey
key_r = record { workflow_id = "w"; run_id = "r" }

abbrev pub empty_cache : ExecutionCache (CachedExecution ℕ)
empty_cache = record { capacity = 2; entries = [] }

abbrev pub task_of : List HistoryEvent → PolledTask
task_of history = record { key = key_r; history = history }

registered_t : handler_of "t" worker.workflows ≡ some (workflow "act")
unfolding handler_of
registered_t = refl

worker-Runs :
    Runs worker "t" (workflow "act") none (activity_then_end "act") first_events next_events
unfolding run_of
worker-Runs = record {
  registered = registered_t;
  first_input = refl;
  same_input = refl;
  converts = refl;
  counted = all_counted;
}

none_cached : (get key_r empty_cache).0 ≡ none
unfolding get find?
none_cached = refl

answer-hit_example :
    (process_workflow_task worker
      (task_of (first_events ++ next_events))
      true
      (process_workflow_task worker (task_of first_events) true empty_cache).1).0
    ≡ (process_workflow_task worker (task_of (first_events ++ next_events)) true empty_cache).0
answer-hit_example =
    answer-hit worker key_r "t" (workflow "act") none (activity_then_end "act") rest first_events
      next_events 3 after_first true empty_cache worker-Runs third_last first-Parked none_cached
      (omega arith)

empty-IsOnce : IsOnce empty_cache.entries
unfolding IsOnce
empty-IsOnce = tt

-- The server rejects the answer.
rejected_first :
    may_stay (process_workflow_task worker (task_of first_events) false empty_cache).0 false ≡ false
unfolding may_stay process_workflow_task run find?
rejected_first = refl

process-evicts_example :
    (get key_r (process_workflow_task worker (task_of first_events) false empty_cache).1).0 ≡ none
process-evicts_example =
    process-evicts worker (task_of first_events) false empty_cache empty-IsOnce rejected_first

-- The code now asks for another activity than the one that history has recorded.
abbrev changed_worker : Worker ℕ
changed_worker = record worker { workflows = ("t", workflow "other") ∷ [] }

changed_registered :
    handler_of (run_of (first_events ++ next_events) (none, "")).1 changed_worker.workflows
    ≡ some (workflow "other")
unfolding handler_of run_of
changed_registered = refl

answer-replay_example :
    ((process_workflow_task changed_worker
        (task_of (first_events ++ next_events))
        true
        empty_cache).0
      ≡ failed (workflow_panic (activity_mismatch 1 "other" 1 "act")))
    ↔ (replay_workflow_history (first_events ++ next_events) (workflow "other")
        ≡ replay_panic (activity_mismatch 1 "other" 1 "act"))
answer-replay_example =
    answer-replay changed_worker (task_of (first_events ++ next_events)) (workflow "other") true
      empty_cache (activity_mismatch 1 "other" 1 "act") changed_registered none_cached

changed_panics :
    replay_workflow_history (first_events ++ next_events) (workflow "other")
    ≡ replay_panic (activity_mismatch 1 "other" 1 "act")
unfolding replay_workflow_history
changed_panics = refl
