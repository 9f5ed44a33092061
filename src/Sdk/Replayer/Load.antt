-- ===== src/Sdk/Replayer/Load.antt =====
-- LoadHistory and LoadNewEvents of sdk/internal/replayer/execution.go: what an execution takes from
-- the events of a history.
pub mod Laws
pub mod Known
use flowd_engine.Base.{ℕ, String, Bool, true, Option, none, some, List, [], ◌∷◌, ◌++◌}
use flowd_engine.Proto
use flowd_engine.Proto.{
  Int64, Payload, Attributes, execution_started, execution_signaled, task_started,
  activity_scheduled, activity_completed, activity_failed, timer_started, timer_fired,
  cancel_requested,
}
use flowd_engine.History.Dispatch.Decode.{HistoryEvent}
use flowd_engine.Sdk.Replayer.{Execution}

abbrev pub duration_of : Option Int64 → Int64
duration_of none = 0
duration_of (some d) = d

module _ {U : Type 0} where
  -- The cases that LoadNewEvents has: what a parked coroutine can wait for. `time` is the event's.
  unfoldable pub load_new_event : ℕ → Attributes → Execution U → Execution U
  load_new_event time task_started e = record e { now_time = time }
  load_new_event time (activity_completed id result) e = record e {
    activity_outcomes = (id, record { result = result; failure = none }) ∷ e.activity_outcomes;
  }
  load_new_event time (activity_failed id failure attempt) e = record e {
    activity_outcomes = (id, record { result = none; failure = failure }) ∷ e.activity_outcomes;
  }
  load_new_event time (timer_fired id) e = record e { fired_timers = id ∷ e.fired_timers }
  load_new_event time (cancel_requested reason) e = record e {
    is_cancel_requested = true;
    cancel_reason = reason;
  }
  load_new_event time (execution_signaled name input) e = record e {
    pending_signals = e.pending_signals ++ record { name = name; payload = input } ∷ [];
  }
  load_new_event time _ e = e

  unfoldable pub load_new_events : List HistoryEvent → Execution U → Execution U
  unfolding load_new_event
  load_new_events [] e = e
  load_new_events (ev ∷ evs) e = load_new_events evs (load_new_event ev.event_time ev.attributes e)

  -- LoadHistory has these cases, the same ones besides, and the input and the type of the run,
  -- which `run_of_event` reads.
  unfoldable pub load_event : ℕ → Attributes → Execution U → Execution U
  unfolding load_new_event
  load_event time (activity_scheduled cmd) e = record e {
    scheduled_activities =
        e.scheduled_activities
        ++ record { activity_id = cmd.activity_id; activity_type = cmd.activity_type } ∷ [];
  }
  load_event time (timer_started st) e = record e {
    scheduled_timers =
        e.scheduled_timers
        ++ record { timer_id = st.timer_id; duration = duration_of st.duration } ∷ [];
  }
  load_event time a e = load_new_event time a e

  unfoldable pub load_events : List HistoryEvent → Execution U → Execution U
  unfolding load_event
  load_events [] e = e
  load_events (ev ∷ evs) e = load_events evs (load_event ev.event_time ev.attributes e)

-- The input and the workflow type of the run: those of the last WorkflowExecutionStarted event.
abbrev pub run_of_event : Attributes → Option Payload × String → Option Payload × String
run_of_event (execution_started a) r = (a.input, a.workflow_type)
run_of_event _ r = r

unfoldable pub run_of : List HistoryEvent → Option Payload × String → Option Payload × String
run_of [] r = r
run_of (ev ∷ evs) r = run_of evs (run_of_event ev.attributes r)

-- LoadHistory.
unfoldable pub load_history :
    {U : Type 0} → List HistoryEvent → Execution U → (Option Payload × String) × Execution U
unfolding load_events run_of
load_history evs e = (run_of evs (none, ""), load_events evs e)
