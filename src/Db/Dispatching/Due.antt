-- ===== src/Db/Dispatching/Due.antt =====
-- Which activity tasks are due for a poll, in terms of their columns, and that a poll is served
-- exactly from these.
use flowd_engine.Base.{
  ℕ, ◌≤◌, ◌≡◌, refl, ap, ◌⊎◌, inl, inr, ◌↔◌, contains, Bool, true, false, Option, none, some, List,
  [], ◌∷◌, str_eq_iff, arith,
}
use flowd_engine.Base.Result.{ok}
use flowd_engine.Proto.{Uuid}
use flowd_engine.Db.Types.{Db, ActivityTask, pending}
use flowd_engine.Db.ActivityTasks.{
  activity_leased, activity_task_visible, activity_expiry, dequeue_activity_task,
}
use flowd_engine.Db.Leased.{is_pending, is_available, next_available, claim, claim_row}
use flowd_engine.Db.Leased.Laws.{In, next_available-least, next_available-none}
use flowd_engine.Db.WorkflowTasks.{DequeueParams, in_partitions}

-- The task waits in the queue and the partitions that the poll asks for, its time has come, and no
-- other transaction has locked it.
pub record IsDue (now : ℕ) (locked : ℕ → Bool) (p : DequeueParams) (r : ActivityTask) : Type 0 where
  pub status : r.lease.status ≡ pending
  pub time : r.lease.visible_at ≤ now
  pub unlocked : locked r.task_id ≡ false
  pub queue : r.task_queue_name ≡ p.task_queue_name
  pub namespace : r.key.namespace_id ≡ p.namespace_id
  -- no partitions stand for all
  pub partition : (p.partitions ≡ []) ⊎ (contains r.task_queue_partition p.partitions ≡ true)

in_partitions_iff :
    (ps : List ℕ) (n : ℕ) → (in_partitions ps n ≡ true) ↔ ((ps ≡ []) ⊎ (contains n ps ≡ true))
in_partitions_iff [] n = (λ h. inl refl, λ h. refl)
in_partitions_iff (p ∷ ps) n = (inr, λ h. ground (arith, h))

IsDue-available :
    (now : ℕ) (locked : ℕ → Bool) (p : DequeueParams) (r : ActivityTask)
    → IsDue now locked p r
    → is_available activity_leased now locked (activity_task_visible p) r ≡ true
unfolding is_available activity_task_visible
IsDue-available now locked p r d = ground (
  arith,
  ap is_pending d.status,
  d.time,
  d.unlocked,
  d.namespace,
  (in_partitions_iff p.partitions r.task_queue_partition).1 d.partition,
  (str_eq_iff r.task_queue_name p.task_queue_name).1 d.queue,
)

-- While a task is due for a poll, the poll is given a task, and none that was enqueued after it.
pub dequeue_activity_task-serves :
    (now : ℕ) (locked : ℕ → Bool) (token : Uuid) (p : DequeueParams) (db : Db) (r : ActivityTask)
    → In r db.activity_tasks
    → IsDue now locked p r
    → (row : ActivityTask) × (db' : Db) × (dequeue_activity_task now locked token p db
        ≡ ok (row, db'))
      × (row.task_id ≤ r.task_id)
unfolding dequeue_activity_task claim
dequeue_activity_task-serves now locked token p db r i d =
    split (next_available activity_leased now locked v db.activity_tasks) refl
  where
    v : ActivityTask → Bool
    v = activity_task_visible p

    split :
        (o : Option ActivityTask)
        → next_available activity_leased now locked v db.activity_tasks ≡ o
        → (row : ActivityTask) × (db' : Db) × (dequeue_activity_task now locked token p db
            ≡ ok (row, db'))
          × (row.task_id ≤ r.task_id)
    split none e =
        let a = IsDue-available now locked p r d in
        let b = next_available-none activity_leased now locked v db.activity_tasks r e i in
        absurd (ground arith)
    split (some x) e =
        let (j, a, le) =
          next_available-least activity_leased now locked v db.activity_tasks x r e i
            (IsDue-available now locked p r d) in
        (
          claim activity_leased token (activity_expiry now) x,
          record db {
            activity_tasks =
                claim_row activity_leased x.task_id token (activity_expiry now) db.activity_tasks;
          },
          ground arith,
          le,
        )
