-- ===== src/History/Activity/Leases.antt =====
-- What a worker whose lease is gone can do to an activity: nothing.
use flowd_engine.Base.{ℕ, ◌≡◌, ◌≢◌, ap, ◌∙◌, Bool, Option, some, arith}
use flowd_engine.Base.Result.{ok, err, no_rows, task_lease_expired}
use flowd_engine.Proto.{Uuid, Payload, Failure}
use flowd_engine.Db.Types.{Db, ActivityTask}
use flowd_engine.Db.ActivityTasks.{dequeue_activity_task, get_activity_task_by_lease}
use flowd_engine.Db.Dispatching.{dequeue_activity_task-stale}
use flowd_engine.Db.WorkflowTasks.{DequeueParams}
use flowd_engine.History.Activity.{
  is_activity_token, complete_activity_task_row, complete_activity_tx, complete_activity_task,
  fail_activity_task,
}
use flowd_engine.History.Store.{Store, State, with_tx, then_notify}
use flowd_engine.History.TaskToken.{TaskToken, activity}

pub complete_activity_task-no_row :
    (s : Store) (now : ℕ) (token : TaskToken) (result : Option Payload) (st : State)
    → get_activity_task_by_lease token.task_id (s.ext.uuid_parse token.lease_token) st.db
      ≡ err no_rows
    → token.kind ≡ activity
    → complete_activity_task s now token result st ≡ (err task_lease_expired, st)
unfolding complete_activity_task complete_activity_tx complete_activity_task_row with_tx then_notify
complete_activity_task-no_row s now token result st h k = ground (arith, ap is_activity_token k)

pub fail_activity_task-no_row :
    (s : Store) (now : ℕ) (token : TaskToken) (failure : Option Failure) (st : State)
    → get_activity_task_by_lease token.task_id (s.ext.uuid_parse token.lease_token) st.db
      ≡ err no_rows
    → token.kind ≡ activity
    → fail_activity_task s now token failure st ≡ (err task_lease_expired, st)
unfolding fail_activity_task
fail_activity_task-no_row s now token failure st h k = ground (arith, ap is_activity_token k)

-- In the state that the hand-out of an activity task under one lease leaves, a worker that holds
-- another lease of the task can neither complete nor fail it: it is told that the lease has
-- expired, and neither the database nor the waiters change.
pub stale_lease-rejected :
    (s : Store) (now later : ℕ) (locked : ℕ → Bool) (lease old : Uuid) (p : DequeueParams) (db : Db)
    (row : ActivityTask) (token : TaskToken) (result : Option Payload) (failure : Option Failure)
    (st : State)
    → dequeue_activity_task now locked lease p db ≡ ok (row, st.db)
    → token.task_id ≡ row.task_id
    → s.ext.uuid_parse token.lease_token ≡ some old
    → lease ≢ old
    → token.kind ≡ activity
    → (complete_activity_task s later token result st ≡ (err task_lease_expired, st))
      × (fail_activity_task s later token failure st ≡ (err task_lease_expired, st))
stale_lease-rejected s now later locked lease old p db row token result failure st h t u ne k =
    let gone =
      ap (λ l. get_activity_task_by_lease token.task_id l st.db) u
      ∙ ap (λ i. get_activity_task_by_lease i (some old) st.db) t
      ∙ (dequeue_activity_task-stale now locked lease old p db st.db row h ne).0 in
    (
      complete_activity_task-no_row s later token result st gone k,
      fail_activity_task-no_row s later token failure st gone k,
    )
