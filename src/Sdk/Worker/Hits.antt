-- ===== src/Sdk/Worker/Hits.antt =====
-- A workflow task whose run the worker has cached, against the same task without the cache.
use flowd_engine.Base.{
  ℕ, ◌≡◌, ◌<◌, refl, sym, ap, ◌∙◌, Bool, true, Option, none, some, List, ◌++◌, String, inr, arith,
}
use flowd_engine.Proto.{Payload}
use flowd_engine.History.Dispatch.Decode.{HistoryEvent}
use flowd_engine.Sdk.Cache.{ExecCacheKey, ExecutionCache, get, put}
use flowd_engine.Sdk.Cache.Laws.{get-put, get-none}
use flowd_engine.Sdk.Replayer.{
  Code, Execution, ScheduledActivity, ScheduledTimer, new_execution, reset_round_output,
}
use flowd_engine.Sdk.Replayer.Handlers.{handler_of}
use flowd_engine.Sdk.Replayer.Load.{run_of, load_new_events}
use flowd_engine.Sdk.Replayer.Load.Laws.{with_recorded}
use flowd_engine.Sdk.Replayer.Run.{first_panic, execute_round}
use flowd_engine.Sdk.Replayer.Sticky.{begin, Parked, begin-code}
use flowd_engine.Sdk.Replayer.Parks.{run-Parks}
use flowd_engine.Sdk.Replayer.Parks.Grown.{grown, Parks-grown}
use flowd_engine.Sdk.Replayer.Sticky.Resume.{replay-resume, first_round}
use flowd_engine.Sdk.Worker.{
  PolledTask, WorkflowFunc, Worker, CachedExecution, newest_event_id, replayed, replay_as,
  run_workflow_func, still_running,
}
use flowd_engine.Sdk.Worker.Tasks.{advance, resumed, report, process_workflow_task}
use flowd_engine.Sdk.Worker.Unseen.{CountFrom, events_after-append}

module _ {U : Type 0} where
  -- The answer depends neither on the cache nor on what history has recorded.
  report-answer :
      (w : Worker U) (task : PolledTask) (accepted : Bool) (type : String)
      (xs : List ScheduledActivity) (ts : List ScheduledTimer) (e : Execution U)
      (cache cache' : ExecutionCache (CachedExecution U))
      → (report w task accepted type (with_recorded xs ts e) cache).0
        ≡ (report w task accepted type e cache').0
  unfolding report still_running
  report-answer w task accepted type xs ts e cache cache' = ground arith

  -- The worker's code for the run whose first events are `xs`, and whose events count up.
  pub record Runs (w : Worker U) (type : String) (fn : WorkflowFunc U) (input : Option Payload)
      (code : Code U) (xs ys : List HistoryEvent) : Type 0 where
    pub registered : handler_of type w.workflows ≡ some fn
    pub first_input : run_of xs (none, "") ≡ (input, type)
    pub same_input : run_of (xs ++ ys) (none, "") ≡ (input, type)
    pub converts : fn.body input ≡ inr code
    pub counted : CountFrom 1 (xs ++ ys)

  replayed_lem :
      (w : Worker U) (type : String) (fn : WorkflowFunc U) (input : Option Payload) (code : Code U)
      (evs : List HistoryEvent)
      → handler_of type w.workflows ≡ some fn
      → run_of evs (none, "") ≡ (input, type)
      → fn.body input ≡ inr code
      → replayed w evs ≡ inr (type, execute_round (begin code fn.variables evs))
  unfolding replayed replay_as run_workflow_func begin
  replayed_lem w type fn input code evs h q r =
      ap (λ p. replay_as w p evs) q ∙ rw (h, replay_as) (rw (r, run_workflow_func) refl)

  missed :
      (w : Worker U) (task : PolledTask) (accepted : Bool) (type : String) (e : Execution U)
      (cache : ExecutionCache (CachedExecution U))
      → (get task.key cache).0 ≡ none
      → replayed w task.history ≡ inr (type, e)
      → process_workflow_task w task accepted cache
        ≡ report w task accepted type e (get task.key cache).1
  unfolding process_workflow_task advance
  missed w task accepted type e cache h q = rw (h, process_workflow_task) (rw (q, advance) refl)

  hit :
      (w : Worker U) (task : PolledTask) (accepted : Bool) (cached : CachedExecution U)
      (cache : ExecutionCache (CachedExecution U))
      → (get task.key cache).0 ≡ some cached
      → process_workflow_task w task accepted cache
        ≡ report w task accepted cached.workflow_type
            (resumed cached task.history)
            (get task.key cache).1
  unfolding process_workflow_task advance
  hit w task accepted cached cache h = rw (h, process_workflow_task) refl

  kept_after :
      (w : Worker U) (task : PolledTask) (type : String) (e : Execution U) (last : ℕ)
      (cache : ExecutionCache (CachedExecution U))
      → first_panic e.coroutines ≡ none
      → still_running e ≡ true
      → newest_event_id task.history ≡ some last
      → (report w task true type e cache).1
        ≡ put task.key (record { exec = e; workflow_type = type; last_event_id = last }) cache
  unfolding report
  kept_after w task type e last cache h q r = rw (h, q, r, report) refl

  Parked-no_panic :
      (c : Code U) (u : U) (xs ys : List HistoryEvent) (c' : Code U) (f : Execution U)
      → Parked c u xs ys c' f
      → first_panic (execute_round (begin c u xs)).coroutines ≡ none
  unfolding first_panic
  Parked-no_panic c u xs ys c' f p =
      ap (λ e. first_panic e.coroutines) (first_round c u xs ys c' f p)

  Parked-still_running :
      (c : Code U) (u : U) (xs ys : List HistoryEvent) (c' : Code U) (f : Execution U)
      → Parked c u xs ys c' f
      → still_running (execute_round (begin c u xs)) ≡ true
  unfolding still_running begin new_execution
  Parked-still_running c u xs ys c' f p =
      ap still_running (first_round c u xs ys c' f p)
      ∙ ap still_running
          (Parks-grown c' f c (begin c u xs) (run-Parks c p.sequential (begin c u xs) c' f p.ran))
      ∙ ap (λ e. still_running (grown e f)) (begin-code c u xs)

  -- A worker with room in its cache has no execution of a run whose workflow type it has
  -- registered and whose events count up from 1. It answers the run's task over the events `xs`,
  -- whose round meets every activity and timer recorded in them and leaves the workflow's
  -- sequential code parked; the server takes the answer. The run's next task comes with the events
  -- `ys` besides, which record what the code asked for, tell no outcome a second time, and leave
  -- the run's input and type as they are. Then the worker, which goes on with the execution it
  -- kept, answers exactly as it would without one, from the first event on.
  pub answer-hit :
      (w : Worker U) (key : ExecCacheKey) (type : String) (fn : WorkflowFunc U)
      (input : Option Payload) (code c' : Code U) (xs ys : List HistoryEvent) (last : ℕ)
      (f : Execution U) (accepted : Bool) (cache : ExecutionCache (CachedExecution U))
      → Runs w type fn input code xs ys
      → newest_event_id xs ≡ some last
      → Parked code fn.variables xs ys c' f
      → (get key cache).0 ≡ none
      → 0 < cache.capacity
      → (process_workflow_task w
          (record { key = key; history = xs ++ ys })
          accepted
          (process_workflow_task w (record { key = key; history = xs }) true cache).1).0
        ≡ (process_workflow_task w (record { key = key; history = xs ++ ys }) accepted cache).0
  unfolding resumed
  answer-hit w key type fn input code c' xs ys last f accepted cache runs l p none_cached room =
      let first : PolledTask = record { key = key; history = xs } in
      let second : PolledTask = record { key = key; history = xs ++ ys } in
      let e = execute_round (begin code fn.variables xs) in
      let g = begin code fn.variables (xs ++ ys) in
      let entry : CachedExecution U = record {
        exec = e;
        workflow_type = type;
        last_event_id = last;
      } in
      let kept_cache : (process_workflow_task w first true cache).1 ≡ put key entry cache =
        ap (λ x. x.1)
          (missed w first true type e cache none_cached
            (replayed_lem w type fn input code xs runs.registered runs.first_input runs.converts))
        ∙ kept_after w first type e last (get key cache).1
            (Parked-no_panic code fn.variables xs ys c' f p)
            (Parked-still_running code fn.variables xs ys c' f p) l
        ∙ ap (λ x. put key entry x.1) (get-none key cache none_cached) in
      let found : (get key (process_workflow_task w first true cache).1).0 ≡ some entry =
        ap (λ x. (get key x).0) kept_cache ∙ get-put key entry cache room in
      ap (λ x. x.0) (hit w second accepted entry (process_workflow_task w first true cache).1 found)
      ∙ ap
          (λ evs.
            (report w second accepted type
              (execute_round (load_new_events evs (reset_round_output e)))
              (get key (process_workflow_task w first true cache).1).1).0)
          (events_after-append 1 last xs ys runs.counted l)
      ∙ sym (
          ap (λ x. (report w second accepted type x (get key cache).1).0)
            (replay-resume code fn.variables xs ys c' f p)
          ∙ report-answer w second accepted type g.scheduled_activities g.scheduled_timers _ _ _)
      ∙ sym (
          ap (λ x. x.0)
            (missed w second accepted type (execute_round g) cache none_cached (
              replayed_lem w type fn input code (xs ++ ys) runs.registered runs.same_input
                runs.converts)))
