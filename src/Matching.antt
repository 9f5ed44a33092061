-- ===== src/Matching.antt =====
-- internal/matching: the long polls of poll.go, and one tick of reaper.go. The waits between the
-- attempts, and the tickers, are given by what others do meanwhile.
use flowd_engine.Base.{ℕ, ◌≡◌, refl, Option, none, some, List, [], ◌∷◌, String}
use flowd_engine.Base.Result.{no_task_available, Result, ok, err}
use flowd_engine.Db.Types.{Db}
use flowd_engine.Db.WorkflowTasks.{reap_expired_workflow_tasks}
use flowd_engine.Db.ActivityTasks.{reap_expired_activity_tasks}
use flowd_engine.Db.QueryTasks.{reap_expired_query_tasks}
use flowd_engine.History.Dispatch.{
  Moment, DispatchedWorkflowTask, dispatch_workflow_task, DispatchedActivityTask,
  dispatch_activity_task,
}
use flowd_engine.History.Store.{Store, State}

-- One attempt before the deadline: the moments of its dequeues, and what others do until the wait
-- after it ends.
pub record Attempt : Type 0 where
  pub query_moment : Moment
  pub task_moment : Moment
  pub others : State → State

module _ {A : Type 0} (dispatch : Attempt → State → Result A × State) where
  -- What an attempt's result makes of the loop: only ErrNoTaskAvailable goes on to `rest`.
  abbrev pub poll_turn :
      Attempt → (State → Option (Result A) × State) → Result A × State → Option (Result A) × State
  poll_turn a rest (ok task, st) = (some (ok task), st)
  poll_turn a rest (err no_task_available, st) = rest (a.others st)
  poll_turn a rest (err e, st) = (some (err e), st)

  -- None: the deadline passed first.
  unfoldable pub poll : List Attempt → State → Option (Result A) × State
  poll [] st = (none, st)
  poll (a ∷ attempts) st = poll_turn a (poll attempts) (dispatch a st)

  -- A poll ends with the answer of one of its dispatches, in the state that this one leaves.
  abbrev pub Ended : Option (Result A) × State → Type 0
  Ended (none, st) = Unit
  Ended (some r, st) = (a : Attempt) × (before : State) × (dispatch a before ≡ (r, st))

  turn-Ended :
      (a : Attempt) (rest : State → Option (Result A) × State) (before : State)
      (r : Result A × State)
      → dispatch a before ≡ r
      → ((st : State) → Ended (rest st))
      → Ended (poll_turn a rest r)
  turn-Ended a rest before (ok task, st) h k = (a, before, h)
  turn-Ended a rest before (err no_task_available, st) h k = k (a.others st)
  turn-Ended a rest before (err e, st) h k = (a, before, h)

  pub poll-Ended : (attempts : List Attempt) (st : State) → Ended (poll attempts st)
  unfolding poll
  poll-Ended [] st = tt
  poll-Ended (a ∷ attempts) st =
      turn-Ended a (poll attempts) st (dispatch a st) refl (poll-Ended attempts)

unfoldable pub poll_workflow_task :
    Store
    → String
    → String
    → String
    → List ℕ
    → List Attempt
    → State
    → Option (Result DispatchedWorkflowTask) × State
unfolding poll dispatch_workflow_task
poll_workflow_task s namespace queue identity partitions =
    poll (λ a.
      dispatch_workflow_task s a.query_moment a.task_moment namespace queue identity partitions)

unfoldable pub poll_activity_task :
    Store
    → String
    → String
    → List ℕ
    → List Attempt
    → State
    → Option (Result DispatchedActivityTask) × State
unfolding poll dispatch_activity_task
poll_activity_task s namespace queue partitions =
    poll (λ a. dispatch_activity_task s a.task_moment namespace queue partitions)

-- A tick of the reaper, at the times of its three statements.
unfoldable pub reap : ℕ → ℕ → ℕ → Db → Db
unfolding reap_expired_workflow_tasks reap_expired_activity_tasks reap_expired_query_tasks
reap now now' now'' db =
    reap_expired_query_tasks now''
      (reap_expired_activity_tasks now' (reap_expired_workflow_tasks now db))
