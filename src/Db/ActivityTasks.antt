-- ===== src/Db/ActivityTasks.antt =====
-- sqlc/activity_tasks.sql.go.
use flowd_engine.Base.{
  ℕ, suc, ◌+◌, ◌-◌, refl, Option, none, some, List, [], ◌∷◌, ◌++◌, String, str_eq, Bool, ◌&&◌, ◌==◌,
  select, delete, update, find?, length, if◌then◌else◌, ltb,
}
use flowd_engine.Base.Result.{no_rows, not_null_violation, Tx, ok, err, or_fail}
use flowd_engine.Proto.{Uuid, Bytes, Int64}
use flowd_engine.Db.Types.{Db, RunKey, ActivityTask, pending}
use flowd_engine.Db.Leased.{Leased, has_lease, next_available, claim, claim_row, reap_expired}
use flowd_engine.Db.WorkflowTasks.{new_lease, in_partitions, DequeueParams}

abbrev pub activity_leased : Leased ActivityTask
activity_leased = record {
  task_id = λ r. r.task_id;
  lease = λ r. r.lease;
  with_lease = λ r l. record r { lease = l };
  lease-with = λ r l. refl;
  task_id-with = λ r l. refl;
}

pub record EnqueueActivityTaskParams : Type 0 where
  pub key : RunKey
  pub task_queue_name : String
  pub task_queue_partition : ℕ
  pub activity_id : ℕ
  pub activity_type : String
  pub scheduled_event_id : ℕ
  pub input : Bytes
  pub schedule_to_start_timeout_ns : Int64
  pub start_to_close_timeout_ns : Int64
  pub retry_initial_interval_ns : Int64
  pub retry_backoff_coefficient : ℕ
  pub retry_max_interval_ns : Int64
  pub retry_max_attempts : ℕ
  -- a nil slice is bound as NULL
  pub retry_non_retryable_types : Option (List String)

unfoldable pub new_activity_task : ℕ → ℕ → EnqueueActivityTaskParams → List String → ActivityTask
new_activity_task id now p types = record {
  task_id = id;
  key = p.key;
  task_queue_name = p.task_queue_name;
  task_queue_partition = p.task_queue_partition;
  activity_id = p.activity_id;
  activity_type = p.activity_type;
  scheduled_event_id = p.scheduled_event_id;
  input = p.input;
  lease = new_lease now;
  attempt = 1;
  schedule_to_start_timeout_ns = p.schedule_to_start_timeout_ns;
  start_to_close_timeout_ns = p.start_to_close_timeout_ns;
  retry_initial_interval_ns = p.retry_initial_interval_ns;
  retry_backoff_coefficient = p.retry_backoff_coefficient;
  retry_max_interval_ns = p.retry_max_interval_ns;
  retry_max_attempts = p.retry_max_attempts;
  retry_non_retryable_types = types;
}

-- The column retry_non_retryable_types is NOT NULL.
unfoldable pub enqueue_activity_task : ℕ → EnqueueActivityTaskParams → Tx Db (Unit {0})
unfolding new_activity_task
enqueue_activity_task now p db = elim p.retry_non_retryable_types [
  | none ↦ err not_null_violation
  | some types ↦ ok (
    tt,
    record db {
      activity_tasks = db.activity_tasks ++ new_activity_task db.next_task_id now p types ∷ [];
      next_task_id = suc db.next_task_id;
    },
  )
]

unfoldable pub activity_task_visible : DequeueParams → ActivityTask → Bool
activity_task_visible p r =
    str_eq r.task_queue_name p.task_queue_name
    && (r.key.namespace_id == p.namespace_id && in_partitions p.partitions r.task_queue_partition)

-- t + d for a signed d of nanoseconds; an instant before the first is the first.
unfoldable pub shift : ℕ → Int64 → ℕ
shift t d = if ltb d 9223372036854775808 then t + d else t - (18446744073709551616 - d)

-- The lease lasts as long as the activity's own start_to_close_timeout.
unfoldable pub activity_expiry : ℕ → ActivityTask → ℕ
unfolding shift
activity_expiry now r = shift now r.start_to_close_timeout_ns

unfoldable pub dequeue_activity_task : ℕ → (ℕ → Bool) → Uuid → DequeueParams → Tx Db ActivityTask
unfolding next_available claim_row activity_task_visible activity_expiry
dequeue_activity_task now locked token p db =
    elim (next_available activity_leased now locked (activity_task_visible p) db.activity_tasks) [
      | none ↦ err no_rows
      | some r ↦ ok (
        claim activity_leased token (activity_expiry now) r,
        record db {
          activity_tasks =
              claim_row activity_leased r.task_id token (activity_expiry now) db.activity_tasks;
        },
      )
    ]

unfoldable pub get_activity_task_by_lease : ℕ → Option Uuid → Tx Db ActivityTask
unfolding has_lease
get_activity_task_by_lease id token db =
    or_fail no_rows (find? (has_lease activity_leased id token) db.activity_tasks) db

unfoldable pub complete_activity_task_rows : ℕ → Option Uuid → Tx Db ℕ
unfolding has_lease
complete_activity_task_rows id token db = ok (
  length (select (has_lease activity_leased id token) db.activity_tasks),
  record db { activity_tasks = delete (has_lease activity_leased id token) db.activity_tasks },
)

unfoldable pub retry_row : ℕ → Int64 → ActivityTask → ActivityTask
unfolding shift
retry_row now backoff r = record r {
  attempt = r.attempt + 1;
  lease = record {
    status = pending;
    visible_at = shift now backoff;
    lease_expiry = none;
    lease_token = none;
  };
}

-- The number of rows put back in the queue.
unfoldable pub retry_activity_task : ℕ → ℕ → Option Uuid → Int64 → Tx Db ℕ
unfolding has_lease retry_row
retry_activity_task now id token backoff db = ok (
  length (select (has_lease activity_leased id token) db.activity_tasks),
  record db {
    activity_tasks =
        update (has_lease activity_leased id token) (retry_row now backoff) db.activity_tasks;
  },
)

unfoldable pub reap_expired_activity_tasks : ℕ → Db → Db
unfolding reap_expired
reap_expired_activity_tasks now db = record db {
  activity_tasks = reap_expired activity_leased now db.activity_tasks;
}
