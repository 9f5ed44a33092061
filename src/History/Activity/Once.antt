-- ===== src/History/Activity/Once.antt =====
-- An activity is completed at most once: the completion takes the row of the queue away.
use flowd_engine.Base.{
  ℕ, ◌≡◌, refl, ap, ◌∙◌, subst, Bool, Option, none, List, [], ◌∷◌, String, arith, find?, delete,
}
use flowd_engine.Base.Result.{Result, ok, err, no_rows, task_lease_expired, Tx, ◌>>=◌, >>=-eq-ok}
use flowd_engine.Proto.{External, Payload, Failure}
use flowd_engine.Db.Types.{Db, ActivityTask, Namespace, CurrentExecution}
use flowd_engine.Db.ActivityTasks.{
  activity_leased, get_activity_task_by_lease, complete_activity_task_rows,
}
use flowd_engine.Db.Executions.{get_workflow_execution}
use flowd_engine.Db.Leased.{has_lease}
use flowd_engine.History.Activity.{
  is_activity_token, complete_activity_task_row, complete_activity_tx, complete_activity_task,
  fail_activity_task, token_key, completed_event,
}
use flowd_engine.History.Activity.Leases.{complete_activity_task-no_row, fail_activity_task-no_row}
use flowd_engine.History.Append.Preserve.{Leaves}
use flowd_engine.History.Frames.{Others, record_and_wake-Others, get_workflow_execution-Others}
use flowd_engine.History.Keeps.{Keeps, keeps_rules}
use flowd_engine.History.Store.{Store, State, with_tx, then_notify}
use flowd_engine.History.TaskToken.{TaskToken, activity}
use flowd_engine.History.Wake.{record_and_wake}

pub find?-delete : (p : ActivityTask → Bool) (xs : List ActivityTask) → find? p (delete p xs) ≡ none
unfolding find? delete
find?-delete p [] = refl
find?-delete p (x ∷ xs) = ground (arith, find?-delete p xs)

row_taken :
    (ext : External) (token : TaskToken) (db db' : Db) (row : ActivityTask)
    → complete_activity_task_row ext token db ≡ ok (row, db')
    → db'.activity_tasks
      ≡ delete
          (has_lease activity_leased token.task_id (ext.uuid_parse token.lease_token))
          db.activity_tasks
unfolding complete_activity_task_row get_activity_task_by_lease complete_activity_task_rows
row_taken ext token db db' row h = ground arith

-- What follows the deletion of the row.
abbrev record_completion : Store → ℕ → TaskToken → Option Payload → ActivityTask → Tx Db String
record_completion s now token result row = do
  we ← get_workflow_execution (token_key token)
  record_and_wake s now (token_key token) we (completed_event row.activity_id result)

record_completion-Others :
    (n : List Namespace) (c : List CurrentExecution) (a : List ActivityTask) (s : Store) (now : ℕ)
    (token : TaskToken) (result : Option Payload) (row : ActivityTask)
    → Keeps (Others n c a) (record_completion s now token result row)
record_completion-Others n c a s now token result row =
    search (keeps_rules, get_workflow_execution-Others, record_and_wake-Others)

complete_activity_tx-takes :
    (s : Store) (now : ℕ) (token : TaskToken) (result : Option Payload) (db db' : Db)
    (queue : String)
    → complete_activity_tx s now token result db ≡ ok (queue, db')
    → get_activity_task_by_lease token.task_id (s.ext.uuid_parse token.lease_token) db'
      ≡ err no_rows
unfolding complete_activity_tx get_activity_task_by_lease
complete_activity_tx-takes s now token result db db' queue h =
    let (row, mid, e, r) =
      >>=-eq-ok (complete_activity_task_row s.ext token) (record_completion s now token result) db
        (queue, db') h in
    let o : Others mid.namespaces mid.current_executions mid.activity_tasks mid = record {
      namespaces = refl;
      current_executions = refl;
      activity_tasks = refl;
    } in
    let kept : Others mid.namespaces mid.current_executions mid.activity_tasks db' =
      subst (Leaves (Others mid.namespaces mid.current_executions mid.activity_tasks)) r (
        (record_completion-Others mid.namespaces mid.current_executions mid.activity_tasks s now
            token result row).leaves
          mid o) in
    let p = has_lease activity_leased token.task_id (s.ext.uuid_parse token.lease_token) in
    ground (
      arith,
      find?-delete p db.activity_tasks,
      ap (find? p) (kept.activity_tasks ∙ row_taken s.ext token db mid row e),
    )

-- In the state that the completion of an activity leaves, the same token neither completes nor
-- fails it again: the lease counts as expired, and nothing changes.
pub complete_activity_task_once :
    (s : Store) (now later : ℕ) (token : TaskToken) (result again : Option Payload)
    (failure : Option Failure) (st st' : State) (queue : String)
    → complete_activity_task s now token result st ≡ (ok queue, st')
    → token.kind ≡ activity
    → (complete_activity_task s later token again st' ≡ (err task_lease_expired, st'))
      × (fail_activity_task s later token failure st' ≡ (err task_lease_expired, st'))
unfolding complete_activity_task with_tx then_notify
complete_activity_task_once s now later token result again failure st st' queue h k =
    split (complete_activity_tx s now token result st.db) refl
  where
    split :
        (r : Result (String × Db))
        → complete_activity_tx s now token result st.db ≡ r
        → (complete_activity_task s later token again st' ≡ (err task_lease_expired, st'))
          × (fail_activity_task s later token failure st' ≡ (err task_lease_expired, st'))
    split (err e) f = ground (arith, ap is_activity_token k)
    split (ok (q, db')) f =
        let same : st'.db ≡ db' = ground (arith, ap is_activity_token k) in
        let gone =
          ap (get_activity_task_by_lease token.task_id (s.ext.uuid_parse token.lease_token)) same
          ∙ complete_activity_tx-takes s now token result st.db db' q f in
        (
          complete_activity_task-no_row s later token again st' gone k,
          fail_activity_task-no_row s later token failure st' gone k,
        )
