-- ===== src/Db/QueryTasks.antt =====
-- sqlc/query_tasks.sql.go.
use flowd_engine.Base.{
  ℕ, suc, ◌+◌, refl, Option, none, some, [], ◌∷◌, ◌++◌, String, str_eq, Bool, ◌&&◌, ◌==◌, select,
  delete, update, find?, length,
}
use flowd_engine.Base.Result.{no_rows, Tx, ok, err, or_fail, modify}
use flowd_engine.Proto.{Uuid, Bytes}
use flowd_engine.Db.Types.{Db, RunKey, QueryTask, completed, failed}
use flowd_engine.Db.Leased.{Leased, has_lease, next_available, claim, claim_row, reap_expired}
use flowd_engine.Db.WorkflowTasks.{new_lease}

abbrev pub query_leased : Leased QueryTask
query_leased = record {
  task_id = λ r. r.task_id;
  lease = λ r. r.lease;
  with_lease = λ r l. record r { lease = l };
  lease-with = λ r l. refl;
  task_id-with = λ r l. refl;
}

unfoldable pub new_query_task : ℕ → ℕ → RunKey → String → String → Bytes → QueryTask
new_query_task id now key queue query_type args = record {
  task_id = id;
  key = key;
  task_queue_name = queue;
  query_type = query_type;
  query_args = args;
  result = none;
  failure_message = none;
  lease = new_lease now;
}

-- INSERT … RETURNING *
unfoldable pub enqueue_query_task : ℕ → RunKey → String → String → Bytes → Tx Db QueryTask
unfolding new_query_task
enqueue_query_task now key queue query_type args db =
    let row = new_query_task db.next_task_id now key queue query_type args in
    ok (
      row,
      record db { query_tasks = db.query_tasks ++ row ∷ []; next_task_id = suc db.next_task_id },
    )

unfoldable pub query_task_visible : String → ℕ → QueryTask → Bool
query_task_visible queue ns r = str_eq r.task_queue_name queue && r.key.namespace_id == ns

unfoldable pub dequeue_query_task : ℕ → (ℕ → Bool) → Uuid → ℕ → String → ℕ → Tx Db QueryTask
unfolding next_available claim_row query_task_visible
dequeue_query_task now locked token lease_length queue ns db =
    elim (next_available query_leased now locked (query_task_visible queue ns) db.query_tasks) [
      | none ↦ err no_rows
      | some r ↦ ok (
        claim query_leased token (λ _. now + lease_length) r,
        record db {
          query_tasks =
              claim_row query_leased r.task_id token (λ _. now + lease_length) db.query_tasks;
        },
      )
    ]

unfoldable pub complete_query_task : ℕ → Option Uuid → Bytes → Tx Db ℕ
unfolding has_lease
complete_query_task id token result db = ok (
  length (select (has_lease query_leased id token) db.query_tasks),
  record db {
    query_tasks =
        update (has_lease query_leased id token)
          (λ r. record r { lease = record (r.lease) { status = completed }; result = some result })
          db.query_tasks;
  },
)

unfoldable pub fail_query_task : ℕ → Option Uuid → String → Tx Db ℕ
unfolding has_lease
fail_query_task id token message db = ok (
  length (select (has_lease query_leased id token) db.query_tasks),
  record db {
    query_tasks =
        update (has_lease query_leased id token)
          (λ r. record r {
            lease = record (r.lease) { status = failed };
            failure_message = some message;
          })
          db.query_tasks;
  },
)

unfoldable pub get_query_task : ℕ → ℕ → Tx Db QueryTask
get_query_task id ns db =
    or_fail no_rows (find? (λ r. r.task_id == id && r.key.namespace_id == ns) db.query_tasks) db

unfoldable pub delete_query_task_row : ℕ → Tx Db (Unit {0})
delete_query_task_row id =
    modify λ db. record db { query_tasks = delete (λ r. r.task_id == id) db.query_tasks }

unfoldable pub reap_expired_query_tasks : ℕ → Db → Db
unfolding reap_expired
reap_expired_query_tasks now db = record db {
  query_tasks = reap_expired query_leased now db.query_tasks;
}
