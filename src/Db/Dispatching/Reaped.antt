-- ===== src/Db/Dispatching/Reaped.antt =====
-- The reaper's tick on activity tasks, as the next polls see it.
use flowd_engine.Base.{
  ℕ, ◌≤◌, ◌<◌, ◌≡◌, ap, inl, inr, Bool, true, false, none, some, List, [], ◌∷◌, arith, update,
}
use flowd_engine.Base.Result.{ok}
use flowd_engine.Proto.{Uuid}
use flowd_engine.Db.Types.{Db, ActivityTask, pending, started}
use flowd_engine.Db.ActivityTasks.{dequeue_activity_task, reap_expired_activity_tasks}
use flowd_engine.Db.Dispatching.Due.{IsDue, dequeue_activity_task-serves}
use flowd_engine.Db.Leased.{is_started, is_expired, release_lease, reap_expired}
use flowd_engine.Db.Leased.Laws.{In}
use flowd_engine.Db.WorkflowTasks.{DequeueParams}

-- The row without its lease.
abbrev pub freed : ActivityTask → ActivityTask
freed r = record r {
  lease = record {
    status = pending;
    visible_at = r.lease.visible_at;
    lease_expiry = none;
    lease_token = none;
  };
}

-- A worker holds the task, or held it, until the time t.
pub record IsHeld (t : ℕ) (r : ActivityTask) : Type 0 where
  pub status : r.lease.status ≡ started
  pub expiry : r.lease.lease_expiry ≡ some t

In-updated :
    (p : ActivityTask → Bool) (f : ActivityTask → ActivityTask) (xs : List ActivityTask)
    (r : ActivityTask)
    → In r xs
    → (p r ≡ true → In (f r) (update p f xs)) × (p r ≡ false → In r (update p f xs))
unfolding update
In-updated p f [] r i = absurd i
In-updated p f (x ∷ xs) r (inl e) =
    (λ h. inl (ground (arith, ap p e, ap f e)), λ h. inl (ground (arith, ap p e)))
In-updated p f (x ∷ xs) r (inr i) =
    let (a, b) = In-updated p f xs r i in (λ h. inr (a h), λ h. inr (b h))

expired-true : (now t : ℕ) (r : ActivityTask) → IsHeld t r → t < now → is_expired now r.lease ≡ true
expired-true now t r h lt = ground (arith, ap is_started h.status, h.expiry, lt)

expired-false :
    (now t : ℕ) (r : ActivityTask) → IsHeld t r → now ≤ t → is_expired now r.lease ≡ false
expired-false now t r h le = ground (arith, ap is_started h.status, h.expiry, le)

-- The reaper's tick takes the lease of a task away once its time is over, and not before: then the
-- row is as if nobody had dequeued it, and before it stays as it is.
pub reap_expired_activity_tasks-In :
    (now t : ℕ) (db : Db) (r : ActivityTask)
    → In r db.activity_tasks
    → IsHeld t r
    → (t < now → In (freed r) (reap_expired_activity_tasks now db).activity_tasks)
      × (now ≤ t → In r (reap_expired_activity_tasks now db).activity_tasks)
unfolding reap_expired_activity_tasks reap_expired
reap_expired_activity_tasks-In now t db r i h =
    let (a, b) =
      In-updated (λ x. is_expired now x.lease) (λ x. record x { lease = release_lease x.lease })
        db.activity_tasks r i in
    (λ lt. a (expired-true now t r h lt), λ le. b (expired-false now t r h le))

-- A task whose worker is lost is not lost: after the reaper's tick, once the lease is over, a poll
-- for which the task without its lease is due is given a task, and none that was enqueued later.
pub reap_expired_activity_tasks-serves :
    (now later t : ℕ) (locked : ℕ → Bool) (token : Uuid) (p : DequeueParams) (db : Db)
    (r : ActivityTask)
    → In r db.activity_tasks
    → IsHeld t r
    → t < now
    → IsDue later locked p (freed r)
    → (row : ActivityTask) × (db' : Db) × (dequeue_activity_task later locked token p
          (reap_expired_activity_tasks now db)
        ≡ ok (row, db'))
      × (row.task_id ≤ r.task_id)
reap_expired_activity_tasks-serves now later t locked token p db r i h lt d =
    dequeue_activity_task-serves later locked token p (reap_expired_activity_tasks now db) (freed r)
      ((reap_expired_activity_tasks-In now t db r i h).0 lt) d
