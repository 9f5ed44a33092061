-- ===== src/History/Activity/Failed.antt =====
-- An attempt fails at most once: the failure takes the lease, or the row of the queue, away.
use flowd_engine.Base.{
  ℕ, zero, suc, ◌≡◌, refl, sym, ap, ◌∙◌, subst, Bool, true, false, ◌&&◌, not, Option, none, List,
  [], ◌∷◌, String, arith, find?, update, delete,
}
use flowd_engine.Base.Result.{
  Error, Result, ok, err, no_rows, task_lease_expired, Tx, ◌>>=◌, ◌>>◌, nonzero, >>=-eq-ok,
}
use flowd_engine.Proto.{Payload, Failure}
use flowd_engine.Db.Types.{Db, ActivityTask, Namespace, CurrentExecution}
use flowd_engine.Db.ActivityTasks.{
  activity_leased, get_activity_task_by_lease, complete_activity_task_rows, retry_activity_task,
  retry_row,
}
use flowd_engine.Db.Executions.{get_workflow_execution}
use flowd_engine.Db.Leased.{has_lease}
use flowd_engine.History.Activity.{
  is_activity_token, attempts_remain, is_non_retryable, complete_activity_task, fail_activity_task,
  fail_attempt, fail_activity_tx, retry_tx, token_key, failed_event, backoff,
}
use flowd_engine.History.Activity.Leases.{complete_activity_task-no_row, fail_activity_task-no_row}
use flowd_engine.History.Activity.Once.{find?-delete}
use flowd_engine.History.Append.Preserve.{Leaves}
use flowd_engine.History.Frames.{Others, record_and_wake-Others, get_workflow_execution-Others}
use flowd_engine.History.Keeps.{Keeps, keeps_rules}
use flowd_engine.History.Store.{Store, State, with_tx, then_notify}
use flowd_engine.History.TaskToken.{TaskToken, activity}
use flowd_engine.History.Wake.{record_and_wake}

-- No row of the queue is held under the token.
abbrev IsGone : Store → TaskToken → Db → Type 0
IsGone s token db =
    get_activity_task_by_lease token.task_id (s.ext.uuid_parse token.lease_token) db ≡ err no_rows

find?-update-none :
    (p : ActivityTask → Bool) (f : ActivityTask → ActivityTask) (xs : List ActivityTask)
    → ((x : ActivityTask) → p (f x) ≡ false)
    → find? p (update p f xs) ≡ none
unfolding find? update
find?-update-none p f [] h = refl
find?-update-none p f (x ∷ xs) h = ground (arith, h x, find?-update-none p f xs h)

retry_row-has_lease :
    (id now : ℕ) (token : Option ℕ) (d : ℕ) (x : ActivityTask)
    → has_lease activity_leased id token (retry_row now d x) ≡ false
unfolding has_lease retry_row
retry_row-has_lease id now token d x = ground arith

retry_tx-IsGone :
    (s : Store) (now : ℕ) (token : TaskToken) (row : ActivityTask) (db db' : Db)
    → retry_tx s.ext now token row db ≡ ok (tt, db')
    → IsGone s token db'
unfolding retry_tx retry_activity_task get_activity_task_by_lease
retry_tx-IsGone s now token row db db' h =
    let lease = s.ext.uuid_parse token.lease_token in
    let d = backoff s.ext row in
    let none_left =
      find?-update-none (has_lease activity_leased token.task_id lease) (retry_row now d)
        db.activity_tasks (retry_row-has_lease token.task_id now lease d) in
    ground arith

-- What follows the deletion of the row.
abbrev record_failure : Store → ℕ → TaskToken → ActivityTask → Option Failure → Tx Db String
record_failure s now token row failure = do
  we ← get_workflow_execution (token_key token)
  record_and_wake s now (token_key token) we (failed_event row failure)

record_failure-Others :
    (n : List Namespace) (c : List CurrentExecution) (a : List ActivityTask) (s : Store) (now : ℕ)
    (token : TaskToken) (row : ActivityTask) (failure : Option Failure)
    → Keeps (Others n c a) (record_failure s now token row failure)
record_failure-Others n c a s now token row failure =
    search (keeps_rules, get_workflow_execution-Others, record_and_wake-Others)

nonzero-same : (e : Error) (n : ℕ) (db db' : Db) → nonzero e n db ≡ ok (tt, db') → db ≡ db'
nonzero-same e zero db db' h = absurd (ground (arith, h))
nonzero-same e (suc n) db db' h = ground (arith, h)

fail_activity_tx-IsGone :
    (s : Store) (now : ℕ) (token : TaskToken) (row : ActivityTask) (failure : Option Failure)
    (db db' : Db) (queue : String)
    → fail_activity_tx s now token row failure db ≡ ok (queue, db')
    → IsGone s token db'
unfolding fail_activity_tx complete_activity_task_rows get_activity_task_by_lease
fail_activity_tx-IsGone s now token row failure db db' queue h =
    let lease = s.ext.uuid_parse token.lease_token in
    let p = has_lease activity_leased token.task_id lease in
    let (n, mid, e, r) =
      >>=-eq-ok (complete_activity_task_rows token.task_id lease)
        (λ n. nonzero task_lease_expired n >> record_failure s now token row failure) db
        (queue, db') h in
    let (_, last, f, q) =
      >>=-eq-ok (nonzero task_lease_expired n) (λ _. record_failure s now token row failure) mid
        (queue, db') r in
    let o : Others last.namespaces last.current_executions last.activity_tasks last = record {
      namespaces = refl;
      current_executions = refl;
      activity_tasks = refl;
    } in
    let kept : Others last.namespaces last.current_executions last.activity_tasks db' =
      subst (Leaves (Others last.namespaces last.current_executions last.activity_tasks)) q (
        (record_failure-Others last.namespaces last.current_executions last.activity_tasks s now
            token row failure).leaves
          last o) in
    let same : mid ≡ last = nonzero-same task_lease_expired n mid last f in
    let taken : mid.activity_tasks ≡ delete p db.activity_tasks = ground arith in
    ground (
      arith,
      find?-delete p db.activity_tasks,
      ap (find? p) (kept.activity_tasks ∙ ap (λ (d : Db). d.activity_tasks) (sym same) ∙ taken),
    )

fail_attempt-IsGone :
    (s : Store) (now : ℕ) (token : TaskToken) (failure : Option Failure) (row : ActivityTask)
    (b : Bool) (st st' : State) (q : Option String)
    → fail_attempt s now token failure row b st ≡ (ok q, st')
    → IsGone s token st'.db
unfolding fail_attempt with_tx then_notify
fail_attempt-IsGone s now token failure row true st st' q h =
    split (retry_tx s.ext now token row st.db) refl
  where
    split :
        (r : Result (Unit {0} × Db))
        → retry_tx s.ext now token row st.db ≡ r
        → IsGone s token st'.db
    split (err e) f = absurd (ground arith)
    split (ok (_, db')) f =
        let same : db' ≡ st'.db = ground arith in
        subst (IsGone s token) same (retry_tx-IsGone s now token row st.db db' f)
fail_attempt-IsGone s now token failure row false st st' q h =
    split (fail_activity_tx s now token row failure st.db) refl
  where
    split :
        (r : Result (String × Db))
        → fail_activity_tx s now token row failure st.db ≡ r
        → IsGone s token st'.db
    split (err e) f = absurd (ground arith)
    split (ok (queue, db')) f =
        let same : db' ≡ st'.db = ground arith in
        subst (IsGone s token) same
          (fail_activity_tx-IsGone s now token row failure st.db db' queue f)

-- In the state that the failure of an attempt leaves, be it that another attempt follows or that
-- the failure is recorded, the same token neither completes nor fails the task again: the lease
-- counts as expired, and nothing changes.
pub fail_activity_task_once :
    (s : Store) (now later : ℕ) (token : TaskToken) (failure : Option Failure)
    (result : Option Payload) (again : Option Failure) (st st' : State) (q : Option String)
    → fail_activity_task s now token failure st ≡ (ok q, st')
    → token.kind ≡ activity
    → (complete_activity_task s later token result st' ≡ (err task_lease_expired, st'))
      × (fail_activity_task s later token again st' ≡ (err task_lease_expired, st'))
unfolding fail_activity_task
fail_activity_task_once s now later token failure result again st st' q h k =
    read (get_activity_task_by_lease token.task_id (s.ext.uuid_parse token.lease_token) st.db) refl
  where
    Rejected : Type 0
    Rejected =
        (complete_activity_task s later token result st' ≡ (err task_lease_expired, st'))
        × (fail_activity_task s later token again st' ≡ (err task_lease_expired, st'))

    rejected : IsGone s token st'.db → Rejected
    rejected gone = (
      complete_activity_task-no_row s later token result st' gone k,
      fail_activity_task-no_row s later token again st' gone k,
    )

    decided :
        (row : ActivityTask) (last : Db) (r : Result Bool)
        → get_activity_task_by_lease token.task_id (s.ext.uuid_parse token.lease_token) st.db
          ≡ ok (row, last)
        → is_non_retryable failure row.retry_non_retryable_types ≡ r
        → Rejected
    decided row last (err e) f g = absurd (ground (arith, ap is_activity_token k))
    decided row last (ok listed) f g = rejected (
        fail_attempt-IsGone s now token failure row (attempts_remain row && not listed) st st' q
          (ground (arith, ap is_activity_token k)))

    read :
        (r : Result (ActivityTask × Db))
        → get_activity_task_by_lease token.task_id (s.ext.uuid_parse token.lease_token) st.db ≡ r
        → Rejected
    read (err e) f = absurd (ground (arith, ap is_activity_token k))
    read (ok (row, last)) f =
        decided row last (is_non_retryable failure row.retry_non_retryable_types) f refl
