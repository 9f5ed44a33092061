-- ===== src/History/Contiguity/Queues.antt =====
-- The statements on the task queues do not touch the histories.
use flowd_engine.Base.{
  ℕ, ◌+◌, refl, Option, none, some, [], ◌∷◌, ◌++◌, suc, Bool, String, str_eq, find?,
}
use flowd_engine.Base.Result.{ok, err, no_rows, Tx}
use flowd_engine.Proto.{Uuid, Bytes}
use flowd_engine.Db.Types.{Db, RunKey, Namespace}
use flowd_engine.Db.Leased.{next_available, claim, claim_row}
use flowd_engine.Db.ActivityTasks.{
  dequeue_activity_task, activity_leased, activity_task_visible, activity_expiry,
  reap_expired_activity_tasks,
}
use flowd_engine.Db.QueryTasks.{
  enqueue_query_task, dequeue_query_task, query_leased, query_task_visible, complete_query_task,
  fail_query_task, delete_query_task_row, reap_expired_query_tasks,
}
use flowd_engine.Db.Namespaces.{create_namespace_row}
use flowd_engine.Db.WorkflowTasks.{
  DequeueParams, dequeue_workflow_task, workflow_leased, workflow_task_visible,
  reap_expired_workflow_tasks,
}
use flowd_engine.History.Append.Contiguous.{IsContiguous}
use flowd_engine.History.Append.Preserve.{Leaves}
use flowd_engine.History.Contiguity.{elsewhere}
use flowd_engine.History.Keeps.{Keeps}

-- What a dequeue does with the row that it finds, or without one.
module _ {R : Type 0} (claimed : R → R) (stored : R → Db → Db) where
  abbrev given : Option R → Tx Db R
  given o db = elim o [ none ↦ err no_rows | some r ↦ ok (claimed r, stored r db) ]

  given-Keeps :
      (o : Option R) (db : Db)
      → ((r : R) → IsContiguous (stored r db))
      → Leaves IsContiguous (given o db)
  given-Keeps none db k = tt
  given-Keeps (some r) db k = k r

pub dequeue_workflow_task-Keeps :
    (now : ℕ) (locked : ℕ → Bool) (token : Uuid) (n : ℕ) (p : DequeueParams)
    → Keeps IsContiguous (dequeue_workflow_task now locked token n p)
unfolding dequeue_workflow_task
dequeue_workflow_task-Keeps now locked token n p = record {
  leaves = λ db c.
      given-Keeps (claim workflow_leased token (λ _. now + n))
        (λ r db. record db {
          workflow_tasks =
              claim_row workflow_leased r.task_id token (λ _. now + n) db.workflow_tasks;
        })
        (next_available workflow_leased now locked (workflow_task_visible now p) db.workflow_tasks)
        db (λ r. elsewhere db _ refl refl c);
}

pub dequeue_activity_task-Keeps :
    (now : ℕ) (locked : ℕ → Bool) (token : Uuid) (p : DequeueParams)
    → Keeps IsContiguous (dequeue_activity_task now locked token p)
unfolding dequeue_activity_task
dequeue_activity_task-Keeps now locked token p = record {
  leaves = λ db c.
      given-Keeps (claim activity_leased token (activity_expiry now))
        (λ r db. record db {
          activity_tasks =
              claim_row activity_leased r.task_id token (activity_expiry now) db.activity_tasks;
        })
        (next_available activity_leased now locked (activity_task_visible p) db.activity_tasks) db
        (λ r. elsewhere db _ refl refl c);
}

pub dequeue_query_task-Keeps :
    (now : ℕ) (locked : ℕ → Bool) (token : Uuid) (n : ℕ) (queue : String) (ns : ℕ)
    → Keeps IsContiguous (dequeue_query_task now locked token n queue ns)
unfolding dequeue_query_task
dequeue_query_task-Keeps now locked token n queue ns = record {
  leaves = λ db c.
      given-Keeps (claim query_leased token (λ _. now + n))
        (λ r db. record db {
          query_tasks = claim_row query_leased r.task_id token (λ _. now + n) db.query_tasks;
        })
        (next_available query_leased now locked (query_task_visible queue ns) db.query_tasks) db
        (λ r. elsewhere db _ refl refl c);
}

pub complete_query_task-Keeps :
    (id : ℕ) (token : Option Uuid) (result : Bytes)
    → Keeps IsContiguous (complete_query_task id token result)
unfolding complete_query_task
complete_query_task-Keeps id token result = record { leaves = λ db c. elsewhere db _ refl refl c }

pub fail_query_task-Keeps :
    (id : ℕ) (token : Option Uuid) (message : String)
    → Keeps IsContiguous (fail_query_task id token message)
unfolding fail_query_task
fail_query_task-Keeps id token message = record { leaves = λ db c. elsewhere db _ refl refl c }

pub enqueue_query_task-Keeps :
    (now : ℕ) (key : RunKey) (queue type : String) (args : Bytes)
    → Keeps IsContiguous (enqueue_query_task now key queue type args)
unfolding enqueue_query_task
enqueue_query_task-Keeps now key queue type args = record {
  leaves = λ db c. elsewhere db _ refl refl c;
}

pub delete_query_task_row-Keeps : (id : ℕ) → Keeps IsContiguous (delete_query_task_row id)
unfolding delete_query_task_row
delete_query_task_row-Keeps id = record { leaves = λ db c. elsewhere db _ refl refl c }

pub reap_expired-IsContiguous :
    (now : ℕ) (db : Db)
    → IsContiguous db
    → IsContiguous (reap_expired_workflow_tasks now db)
      × IsContiguous (reap_expired_activity_tasks now db)
      × IsContiguous (reap_expired_query_tasks now db)
unfolding reap_expired_workflow_tasks reap_expired_activity_tasks reap_expired_query_tasks
reap_expired-IsContiguous now db c =
    (elsewhere db _ refl refl c, elsewhere db _ refl refl c, elsewhere db _ refl refl c)

pub create_namespace_row-Keeps :
    (now : ℕ) (name : String) → Keeps IsContiguous (create_namespace_row now name)
unfolding create_namespace_row
create_namespace_row-Keeps now name = record {
  leaves = λ db c. split db c (find? (λ n. str_eq n.name name) db.namespaces);
}
  where
    split :
        (db : Db)
        → IsContiguous db
        → (o : Option Namespace)
        → Leaves {A = Namespace} IsContiguous (elim o [
          | some _ ↦ err no_rows
          | none ↦
              let row : Namespace = record {
                id = db.next_namespace_id;
                name = name;
                created_at = now;
              } in
              ok (
                row,
                record db {
                  namespaces = db.namespaces ++ row ∷ [];
                  next_namespace_id = suc db.next_namespace_id;
                },
              )
        ])
    split db c (some _) = tt
    split db c none = elsewhere db _ refl refl c
