-- ===== src/Db/WorkflowTasks.antt =====
-- sqlc/workflow_tasks.sql.go.
use flowd_engine.Base.{
  ℕ, suc, ◌+◌, refl, Option, none, some, List, [], ◌∷◌, ◌++◌, String, str_eq, Bool, true, false,
  ◌&&◌, ◌||◌, ◌==◌, select, delete, length, contains, if◌then◌else◌,
}
use flowd_engine.Base.Result.{no_rows, Tx, ok, err, modify}
use flowd_engine.Proto.{Uuid}
use flowd_engine.Db.Types.{Db, RunKey, WorkflowTask, Lease, pending}
use flowd_engine.Db.Leased.{
  Leased, has_lease, next_available, claim, claim_row, reap_expired, before,
}

abbrev pub workflow_leased : Leased WorkflowTask
workflow_leased = record {
  task_id = λ r. r.task_id;
  lease = λ r. r.lease;
  with_lease = λ r l. record r { lease = l };
  lease-with = λ r l. refl;
  task_id-with = λ r l. refl;
}

-- The columns of a new row of a task table: 'PENDING', now(), and no lease.
abbrev pub new_lease : ℕ → Lease
new_lease now = record {
  status = pending;
  visible_at = now;
  lease_expiry = none;
  lease_token = none;
}

pub record EnqueueWorkflowTaskParams : Type 0 where
  pub key : RunKey
  pub task_queue_name : String
  pub task_queue_partition : ℕ
  pub scheduled_event_id : ℕ
  pub preferred_worker_identity : Option String
  pub sticky_deadline : Option ℕ

unfoldable pub new_workflow_task : ℕ → ℕ → EnqueueWorkflowTaskParams → WorkflowTask
new_workflow_task id now p = record {
  task_id = id;
  key = p.key;
  task_queue_name = p.task_queue_name;
  task_queue_partition = p.task_queue_partition;
  scheduled_event_id = p.scheduled_event_id;
  lease = new_lease now;
  preferred_worker_identity = p.preferred_worker_identity;
  sticky_deadline = p.sticky_deadline;
}

unfoldable pub enqueue_workflow_task : ℕ → EnqueueWorkflowTaskParams → Tx Db (Unit {0})
unfolding new_workflow_task
enqueue_workflow_task now p = modify λ db. record db {
  workflow_tasks = db.workflow_tasks ++ new_workflow_task db.next_task_id now p ∷ [];
  next_task_id = suc db.next_task_id;
}

-- COALESCE(cardinality(partitions), 0) = 0 OR task_queue_partition = ANY(partitions)
abbrev pub in_partitions : List ℕ → ℕ → Bool
in_partitions [] n = true
in_partitions (p ∷ ps) n = contains n (p ∷ ps)

-- preferred_worker_identity IS NULL OR = worker_identity OR sticky_deadline < now(). An empty
-- identity is bound as NULL, which equals nothing.
unfoldable pub is_routed_to : ℕ → String → Option String → Option ℕ → Bool
is_routed_to now worker none deadline = true
is_routed_to now worker (some preferred) deadline =
    (if str_eq worker "" then false else str_eq preferred worker) || before deadline now

pub record DequeueParams : Type 0 where
  pub task_queue_name : String
  pub namespace_id : ℕ
  pub worker_identity : String
  pub partitions : List ℕ

unfoldable pub workflow_task_visible : ℕ → DequeueParams → WorkflowTask → Bool
unfolding is_routed_to
workflow_task_visible now p r =
    str_eq r.task_queue_name p.task_queue_name
    && (r.key.namespace_id == p.namespace_id
        && (is_routed_to now p.worker_identity r.preferred_worker_identity r.sticky_deadline
            && in_partitions p.partitions r.task_queue_partition))

-- `token` is what gen_random_uuid() returns.
unfoldable pub dequeue_workflow_task :
    ℕ → (ℕ → Bool) → Uuid → ℕ → DequeueParams → Tx Db WorkflowTask
unfolding next_available claim_row workflow_task_visible
dequeue_workflow_task now locked token lease_length p db =
    elim (next_available workflow_leased now locked (workflow_task_visible now p)
      db.workflow_tasks) [
        | none ↦ err no_rows
        | some r ↦ ok (
          claim workflow_leased token (λ _. now + lease_length) r,
          record db {
            workflow_tasks =
                claim_row workflow_leased r.task_id token (λ _. now + lease_length)
                  db.workflow_tasks;
          },
        )
      ]

-- The number of rows deleted.
unfoldable pub complete_workflow_task_row : ℕ → Option Uuid → Tx Db ℕ
unfolding has_lease
complete_workflow_task_row id token db = ok (
  length (select (has_lease workflow_leased id token) db.workflow_tasks),
  record db { workflow_tasks = delete (has_lease workflow_leased id token) db.workflow_tasks },
)

unfoldable pub reap_expired_workflow_tasks : ℕ → Db → Db
unfolding reap_expired
reap_expired_workflow_tasks now db = record db {
  workflow_tasks = reap_expired workflow_leased now db.workflow_tasks;
}
