-- ===== src/History/WorkflowTask/Leases.antt =====
-- What a worker whose lease is gone can do to a workflow: nothing.
use flowd_engine.Base.{
  ℕ, ◌+◌, ◌≡◌, ◌≢◌, refl, ap, subst, ◌∙◌, inl, inr, Bool, false, Option, some, List, [], ◌∷◌,
  String, arith, length, delete,
}
use flowd_engine.Base.Result.{ok, err, task_lease_expired}
use flowd_engine.Proto.{Uuid, Command}
use flowd_engine.Db.Types.{Db, WorkflowTask}
use flowd_engine.Db.Dispatching.{workflow_claimed}
use flowd_engine.Db.Leased.{has_lease}
use flowd_engine.Db.Leased.Laws.{In, select-none-In, not_held}
use flowd_engine.Db.WorkflowTasks.{
  workflow_leased, DequeueParams, dequeue_workflow_task, complete_workflow_task_row,
}
use flowd_engine.History.Dispatch.{fail_workflow_task, fail_workflow_db}
use flowd_engine.History.Store.{Store, State, with_tx, then_notify}
use flowd_engine.History.TaskToken.{TaskToken, workflow}
use flowd_engine.History.WorkflowTask.{
  StickyAttributes, is_workflow_token, complete_workflow_task, complete_workflow_tx,
}

delete-none :
    (p : WorkflowTask → Bool) (xs : List WorkflowTask)
    → ((x : WorkflowTask) → In x xs → p x ≡ false)
    → delete p xs ≡ xs
unfolding delete
delete-none p [] h = refl
delete-none p (x ∷ xs) h = ground (arith, h x (inl refl), delete-none p xs (λ y i. h y (inr i)))

-- Completing a row under a lost lease affects no row.
lost_lease :
    (now : ℕ) (locked : ℕ → Bool) (lease old : Uuid) (n : ℕ) (p : DequeueParams) (db db' : Db)
    (row : WorkflowTask)
    → dequeue_workflow_task now locked lease n p db ≡ ok (row, db')
    → lease ≢ old
    → complete_workflow_task_row row.task_id (some old) db' ≡ ok (0, db')
unfolding complete_workflow_task_row
lost_lease now locked lease old n p db db' row h ne =
    let (x, e, i, c) = workflow_claimed now locked lease n p db db' row h in
    let q = has_lease workflow_leased row.task_id (some old) in
    let shut : (y : WorkflowTask) → In y db'.workflow_tasks → q y ≡ false = λ y j.
      not_held workflow_leased row.task_id x.task_id lease old (λ _. now + n) db.workflow_tasks y i
        ne (subst (In y) c j) in
    ap (λ l. ok (length l, record db' { workflow_tasks = delete q db'.workflow_tasks }))
      (select-none-In q db'.workflow_tasks shut)
    ∙ ap (λ l. ok (0, record db' { workflow_tasks = l })) (delete-none q db'.workflow_tasks shut)

-- In the state that the hand-out of a workflow task under one lease leaves, a worker that holds
-- another lease of the task can neither complete it, with whatever commands, nor fail it: it is
-- told that the lease has expired, and neither the database nor the waiters change.
pub stale_workflow_lease-rejected :
    (s : Store) (now later : ℕ) (locked : ℕ → Bool) (lease old : Uuid) (n : ℕ) (p : DequeueParams)
    (db : Db) (row : WorkflowTask) (token : TaskToken) (run request : String)
    (commands : List Command) (sticky : Option StickyAttributes) (st : State)
    → dequeue_workflow_task now locked lease n p db ≡ ok (row, st.db)
    → token.task_id ≡ row.task_id
    → s.ext.uuid_parse token.lease_token ≡ some old
    → lease ≢ old
    → token.kind ≡ workflow
    → (complete_workflow_task s later run request token commands sticky st
        ≡ (err task_lease_expired, st))
      × (fail_workflow_task s later token st ≡ (err task_lease_expired, st))
unfolding complete_workflow_task complete_workflow_tx fail_workflow_task fail_workflow_db with_tx
    then_notify
stale_workflow_lease-rejected s now later locked lease old n p db row token run request commands
      sticky st h t u ne k =
    let none_left =
      ap (λ l. complete_workflow_task_row token.task_id l st.db) u
      ∙ ap (λ i. complete_workflow_task_row i (some old) st.db) t
      ∙ lost_lease now locked lease old n p db st.db row h ne in
    (
      ground (arith, none_left, ap is_workflow_token k),
      ground (arith, none_left, ap is_workflow_token k),
    )
