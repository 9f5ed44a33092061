-- ===== src/History/Activity/Retries.antt =====
-- What FailActivityTask does with an attempt that is not the last one.
use flowd_engine.Base.{
  ℕ, ◌+◌, ◌-◌, ◌*◌, ◌<◌, ◌≤◌, ◌≡◌, ◌≢◌, refl, ap, ◌∙◌, inl, inr, ◌⊎◌, true, false, ◌||◌, ◌==◌, leb,
  if◌then◌else◌, Option, none, some, Option-cases, List, [], ◌∷◌, arith, length, String, str_eq,
  find?, find?-update, find?-holds, select, update,
}
use flowd_engine.Base.Result.{ok}
use flowd_engine.Proto.{External, Uuid, Failure}
use flowd_engine.Db.Types.{Db, ActivityTask, pending}
use flowd_engine.Db.ActivityTasks.{
  activity_leased, get_activity_task_by_lease, retry_activity_task, retry_row, shift,
}
use flowd_engine.Db.Leased.{has_lease, token_eq}
use flowd_engine.Db.Leased.Laws.{In}
use flowd_engine.History.Activity.{
  is_activity_token, backoff, is_listed, is_non_retryable, fail_attempt, fail_activity_task,
  retry_tx,
}
use flowd_engine.History.Store.{Store, State, with_tx, then_notify}
use flowd_engine.History.TaskToken.{TaskToken, activity}

-- The row of a task.
abbrev pub row_of : ℕ → Db → Option ActivityTask
row_of id db = find? (λ r. r.task_id == id) db.activity_tasks

-- A wait of at most m, where 0 is no limit.
abbrev pub capped : ℕ → ℕ → ℕ
capped m d = if m == 0 || leb d m then d else m

-- The wait before the attempt after this one, as a number.
abbrev pub wait_after : External → ActivityTask → ℕ
wait_after ext row =
    row.retry_initial_interval_ns * ext.pow_int64 row.retry_backoff_coefficient (row.attempt - 1)

-- The row of the attempt after this one, as it stands in the queue until it is due.
abbrev pub next_attempt : ℕ → ActivityTask → ActivityTask
next_attempt due row = record row {
  attempt = row.attempt + 1;
  lease = record { status = pending; visible_at = due; lease_expiry = none; lease_token = none };
}

-- An attempt may follow.
pub record IsRetryable (ext : External) (f : Failure) (row : ActivityTask) : Type 0 where
  pub unlisted : (t : String) → In t row.retry_non_retryable_types → str_eq t f.type ≡ false
  pub remain : (row.retry_max_attempts ≡ 0) ⊎ (row.attempt < row.retry_max_attempts)
  -- the numbers are in the range of their types
  pub attempt : row.attempt < 2147483648
  pub limit : row.retry_max_attempts < 2147483648
  pub wait : wait_after ext row < 9223372036854775808
  pub max_wait : row.retry_max_interval_ns < 9223372036854775808

backoff-capped :
    (ext : External) (row : ActivityTask)
    → wait_after ext row < 9223372036854775808
    → row.retry_max_interval_ns < 9223372036854775808
    → backoff ext row ≡ capped row.retry_max_interval_ns (wait_after ext row)
unfolding backoff
backoff-capped ext row w m = ground arith

capped-lt :
    (m d : ℕ) → m < 9223372036854775808 → d < 9223372036854775808 → capped m d < 9223372036854775808
capped-lt m d h k = ground arith

is_listed-false :
    (type : String) (ts : List String)
    → ((t : String) → In t ts → str_eq t type ≡ false)
    → is_listed type ts ≡ false
unfolding is_listed
is_listed-false type [] h = refl
is_listed-false type (t ∷ ts) h =
    ground (arith, h t (inl refl), is_listed-false type ts (λ u i. h u (inr i)))

is_non_retryable-false :
    (f : Failure) (ts : List String)
    → ((t : String) → In t ts → str_eq t f.type ≡ false)
    → is_non_retryable (some f) ts ≡ ok false
unfolding is_non_retryable
is_non_retryable-false f [] h = refl
is_non_retryable-false f (t ∷ ts) h = ap ok (is_listed-false f.type (t ∷ ts) h)

found_by_lease :
    (id : ℕ) (token : Option Uuid) (xs : List ActivityTask) (r : ActivityTask)
    → find? (λ x. x.task_id == id) xs ≡ some r
    → token_eq r.lease.lease_token token ≡ true
    → (find? (has_lease activity_leased id token) xs ≡ some r)
      × (1 ≤ length (select (has_lease activity_leased id token) xs))
unfolding find? select has_lease
found_by_lease id token [] r h e = ground arith
found_by_lease id token (x ∷ xs) r h e = ground (
  arith,
  found_by_lease id token xs r,
  ap (λ (y : ActivityTask). token_eq y.lease.lease_token token) {x = x} {y = r},
)

-- The rows after the retry.
abbrev retried : External → ℕ → TaskToken → ActivityTask → Db → List ActivityTask
retried ext now token row db =
    update (has_lease activity_leased token.task_id (ext.uuid_parse token.lease_token))
      (retry_row now (backoff ext row)) db.activity_tasks

fail_activity_task-updates :
    (s : Store) (now : ℕ) (token : TaskToken) (f : Failure) (st : State) (row : ActivityTask)
    → token.kind ≡ activity
    → row_of token.task_id st.db ≡ some row
    → token_eq row.lease.lease_token (s.ext.uuid_parse token.lease_token) ≡ true
    → is_non_retryable (some f) row.retry_non_retryable_types ≡ ok false
    → (row.retry_max_attempts ≡ 0) ⊎ (row.attempt < row.retry_max_attempts)
    → row.attempt < 2147483648
    → row.retry_max_attempts < 2147483648
    → fail_activity_task s now token (some f) st ≡ (
      ok none,
      record st { db = record (st.db) { activity_tasks = retried s.ext now token row st.db } },
    )
unfolding fail_activity_task fail_attempt retry_tx retry_activity_task with_tx then_notify
    get_activity_task_by_lease
fail_activity_task-updates s now token f st row k h e l a b c =
    let found =
      found_by_lease token.task_id (s.ext.uuid_parse token.lease_token) st.db.activity_tasks row h
        e in
    ground (arith, ap is_activity_token k)

due_row :
    (ext : External) (now : ℕ) (row : ActivityTask)
    → wait_after ext row < 9223372036854775808
    → row.retry_max_interval_ns < 9223372036854775808
    → retry_row now (backoff ext row) row
      ≡ next_attempt (now + capped row.retry_max_interval_ns (wait_after ext row)) row
unfolding retry_row shift
due_row ext now row w m =
    let d = capped row.retry_max_interval_ns (wait_after ext row) in
    ap (λ b. retry_row now b row) (backoff-capped ext row w m)
    ∙ ground (arith, capped-lt row.retry_max_interval_ns (wait_after ext row) m w)

row_of-retried :
    (ext : External) (now id : ℕ) (token : TaskToken) (row : ActivityTask) (db : Db)
    → find? (λ r. r.task_id == id) (retried ext now token row db) ≡ elim (row_of id db) [
      | none ↦ none
      | some x ↦ some (
          if has_lease activity_leased token.task_id (ext.uuid_parse token.lease_token) x
          then retry_row now (backoff ext row) x
          else x)
    ]
unfolding retry_row
row_of-retried ext now id token row db =
    find?-update (λ r. r.task_id == id)
      (has_lease activity_leased token.task_id (ext.uuid_parse token.lease_token))
      (retry_row now (backoff ext row)) db.activity_tasks (λ x. refl)

row_of-other :
    (ext : External) (now id : ℕ) (token : TaskToken) (row : ActivityTask) (db : Db)
    → id ≢ token.task_id
    → find? (λ r. r.task_id == id) (retried ext now token row db) ≡ row_of id db
unfolding has_lease
row_of-other ext now id token row db ne = elim (Option-cases (row_of id db)) [
  | inl e ↦ ground (arith, row_of-retried ext now id token row db)
  | inr (x, e) ↦ ground (
    arith,
    row_of-retried ext now id token row db,
    find?-holds (λ r. r.task_id == id) db.activity_tasks x e,
  )
]

row_of-held :
    (ext : External) (now : ℕ) (token : TaskToken) (row : ActivityTask) (db : Db)
    → row_of token.task_id db ≡ some row
    → token_eq row.lease.lease_token (ext.uuid_parse token.lease_token) ≡ true
    → wait_after ext row < 9223372036854775808
    → row.retry_max_interval_ns < 9223372036854775808
    → find? (λ r. r.task_id == token.task_id) (retried ext now token row db)
      ≡ some (next_attempt (now + capped row.retry_max_interval_ns (wait_after ext row)) row)
unfolding has_lease
row_of-held ext now token row db h e w m =
    row_of-retried ext now token.task_id token row db
    ∙ ground (
      arith,
      find?-holds (λ r. r.task_id == token.task_id) db.activity_tasks row h,
      due_row ext now row w m,
    )

-- A failed attempt, of a task that the token holds, to which another may follow: its row waits in
-- the queue with the number of the next attempt and without a lease, until the first wait times
-- the power of the coefficient, or the longest wait, is over. The rows of the other tasks, the
-- event history, the workflow tasks and the waiters do not change.
pub fail_activity_task-retries :
    (s : Store) (now : ℕ) (token : TaskToken) (f : Failure) (st : State) (row : ActivityTask)
    (other : ℕ)
    → token.kind ≡ activity
    → row_of token.task_id st.db ≡ some row
    → token_eq row.lease.lease_token (s.ext.uuid_parse token.lease_token) ≡ true
    → IsRetryable s.ext f row
    → other ≢ token.task_id
    → let (reply, st') = fail_activity_task s now token (some f) st in
      let due = now + capped row.retry_max_interval_ns (wait_after s.ext row) in
      (reply ≡ ok none)
      × (row_of token.task_id st'.db ≡ some (next_attempt due row))
      × (row_of other st'.db ≡ row_of other st.db)
      × (st'.db.history_events ≡ st.db.history_events)
      × (st'.db.workflow_tasks ≡ st.db.workflow_tasks)
      × (st'.notifier ≡ st.notifier)
fail_activity_task-retries s now token f st row other k h e c ne =
    let l = is_non_retryable-false f row.retry_non_retryable_types c.unlisted in
    let u = fail_activity_task-updates s now token f st row k h e l c.remain c.attempt c.limit in
    rw u (
      refl,
      row_of-held s.ext now token row st.db h e c.wait c.max_wait,
      row_of-other s.ext now other token row st.db ne,
      refl,
      refl,
      refl,
    )
