-- ===== src/Db/Dispatching.antt =====
-- The queues of activity and of workflow tasks, from the dequeue to the completion: no task is
-- handed out twice, and only the latest lease completes it.
pub mod Due
pub mod Reaped
use flowd_engine.Base.{
  ℕ, ◌+◌, ◌≡◌, ◌≢◌, refl, subst, Bool, false, Option, none, some, arith, length, select,
}
use flowd_engine.Base.Result.{ok, err, no_rows}
use flowd_engine.Proto.{Uuid}
use flowd_engine.Db.Types.{Db, ActivityTask, WorkflowTask}
use flowd_engine.Db.Leased.{next_available, claim, claim_row, has_lease}
use flowd_engine.Db.Leased.Laws.{
  In, claim_row-excludes, find?-none-In, select-none-In, available_of, not_held,
}
use flowd_engine.Db.WorkflowTasks.{
  workflow_leased, workflow_task_visible, DequeueParams, dequeue_workflow_task,
}
use flowd_engine.Db.ActivityTasks.{
  activity_leased, activity_task_visible, activity_expiry, dequeue_activity_task,
  get_activity_task_by_lease,
}

-- What a successful dequeue has done.
pub activity_claimed :
    (now : ℕ) (locked : ℕ → Bool) (token : Uuid) (p : DequeueParams) (db db' : Db)
    (r : ActivityTask)
    → dequeue_activity_task now locked token p db ≡ ok (r, db')
    → (x : ActivityTask) × (next_available activity_leased now locked
          (activity_task_visible p)
          db.activity_tasks
        ≡ some x)
      × (r.task_id ≡ x.task_id)
      × (db'.activity_tasks
          ≡ claim_row activity_leased x.task_id token (activity_expiry now) db.activity_tasks)
unfolding dequeue_activity_task claim
activity_claimed now locked token p db db' r h =
    split (next_available activity_leased now locked (activity_task_visible p) db.activity_tasks)
      refl
  where
    split :
        (o : Option ActivityTask)
        → next_available activity_leased now locked (activity_task_visible p) db.activity_tasks ≡ o
        → (x : ActivityTask) × (next_available activity_leased now locked
              (activity_task_visible p)
              db.activity_tasks
            ≡ some x)
          × (r.task_id ≡ x.task_id)
          × (db'.activity_tasks
              ≡ claim_row activity_leased x.task_id token (activity_expiry now) db.activity_tasks)
    split none e = ground arith
    split (some x) e = (x, e, ground arith, ground arith)

pub workflow_claimed :
    (now : ℕ) (locked : ℕ → Bool) (token : Uuid) (n : ℕ) (p : DequeueParams) (db db' : Db)
    (r : WorkflowTask)
    → dequeue_workflow_task now locked token n p db ≡ ok (r, db')
    → (x : WorkflowTask) × (next_available workflow_leased now locked
          (workflow_task_visible now p)
          db.workflow_tasks
        ≡ some x)
      × (r.task_id ≡ x.task_id)
      × (db'.workflow_tasks
          ≡ claim_row workflow_leased x.task_id token (λ _. now + n) db.workflow_tasks)
unfolding dequeue_workflow_task claim
workflow_claimed now locked token n p db db' r h =
    split
      (next_available workflow_leased now locked (workflow_task_visible now p) db.workflow_tasks)
      refl
  where
    split :
        (o : Option WorkflowTask)
        → next_available workflow_leased now locked (workflow_task_visible now p) db.workflow_tasks
          ≡ o
        → (x : WorkflowTask) × (next_available workflow_leased now locked
              (workflow_task_visible now p)
              db.workflow_tasks
            ≡ some x)
          × (r.task_id ≡ x.task_id)
          × (db'.workflow_tasks
              ≡ claim_row workflow_leased x.task_id token (λ _. now + n) db.workflow_tasks)
    split none e = ground arith
    split (some x) e = (x, e, ground arith, ground arith)

-- An activity task that a worker was given is not given to another by the next dequeue, whatever
-- the time, the queue, the partitions and the rows that are locked.
pub dequeue_activity_task-exclusive :
    (now now' : ℕ) (locked locked' : ℕ → Bool) (token token' : Uuid) (p p' : DequeueParams)
    (db db' db'' : Db) (r r' : ActivityTask)
    → dequeue_activity_task now locked token p db ≡ ok (r, db')
    → dequeue_activity_task now' locked' token' p' db' ≡ ok (r', db'')
    → r'.task_id ≢ r.task_id
dequeue_activity_task-exclusive now now' locked locked' token token' p p' db db' db'' r r' h h'
      same =
    let (x, e, i, c) = activity_claimed now locked token p db db' r h in
    let (x', e', i', c') = activity_claimed now' locked' token' p' db' db'' r' h' in
    let v = activity_task_visible p' in
    let (j, a) = available_of activity_leased now' locked' v db'.activity_tasks x' e' in
    let rows = claim_row activity_leased x.task_id token (activity_expiry now) db.activity_tasks in
    let k : In x' rows = subst (In x') c j in
    ground (
      arith,
      claim_row-excludes activity_leased x.task_id token (activity_expiry now) db.activity_tasks x'
          now' locked' v k,
    )

-- A workflow task that a worker was given is not given to another by the next dequeue.
pub dequeue_workflow_task-exclusive :
    (now now' n n' : ℕ) (locked locked' : ℕ → Bool) (token token' : Uuid) (p p' : DequeueParams)
    (db db' db'' : Db) (r r' : WorkflowTask)
    → dequeue_workflow_task now locked token n p db ≡ ok (r, db')
    → dequeue_workflow_task now' locked' token' n' p' db' ≡ ok (r', db'')
    → r'.task_id ≢ r.task_id
dequeue_workflow_task-exclusive now now' n n' locked locked' token token' p p' db db' db'' r r' h h'
      same =
    let (x, e, i, c) = workflow_claimed now locked token n p db db' r h in
    let (x', e', i', c') = workflow_claimed now' locked' token' n' p' db' db'' r' h' in
    let v = workflow_task_visible now' p' in
    let (j, a) = available_of workflow_leased now' locked' v db'.workflow_tasks x' e' in
    let rows = claim_row workflow_leased x.task_id token (λ _. now + n) db.workflow_tasks in
    let k : In x' rows = subst (In x') c j in
    ground (
      arith,
      claim_row-excludes workflow_leased x.task_id token (λ _. now + n) db.workflow_tasks x' now'
          locked' v k,
    )

-- Once an activity task is given out under a token, the row is not found, and not deleted, under
-- another token.
pub dequeue_activity_task-stale :
    (now : ℕ) (locked : ℕ → Bool) (token old : Uuid) (p : DequeueParams) (db db' : Db)
    (r : ActivityTask)
    → dequeue_activity_task now locked token p db ≡ ok (r, db')
    → token ≢ old
    → (get_activity_task_by_lease r.task_id (some old) db' ≡ err no_rows)
      × (length (select (has_lease activity_leased r.task_id (some old)) db'.activity_tasks) ≡ 0)
unfolding get_activity_task_by_lease
dequeue_activity_task-stale now locked token old p db db' r h ne =
    let (x, e, i, c) = activity_claimed now locked token p db db' r h in
    let q = has_lease activity_leased r.task_id (some old) in
    let shut : (y : ActivityTask) → In y db'.activity_tasks → q y ≡ false = λ y j.
      not_held activity_leased r.task_id x.task_id token old (activity_expiry now) db.activity_tasks
        y i ne (subst (In y) c j) in
    ground
      (arith, find?-none-In q db'.activity_tasks shut, select-none-In q db'.activity_tasks shut)
