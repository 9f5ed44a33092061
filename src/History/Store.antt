-- ===== src/History/Store.antt =====
-- internal/history/store.go: the store, its transactions, and the state of a server.
use flowd_engine.Base.{ℕ, String, List, [], ◌∷◌, ltb, if◌then◌else◌}
use flowd_engine.Base.Result.{no_rows, namespace_not_found, Result, ok, err, Tx}
use flowd_engine.Proto.{External, Bytes}
use flowd_engine.Db.Types.{Db, Namespace}
use flowd_engine.Db.Namespaces.{get_namespace_by_name}
use flowd_engine.History.TaskToken.{TokenCodec}
use flowd_engine.History.Notifier.{Notifier, QueueKey, notify}

pub record Store : Type 0 where
  pub num_shards : ℕ
  pub num_task_queue_partitions : ℕ
  pub task_token_signing_key : Bytes
  pub ext : External
  pub codec : TokenCodec

-- StoreOptions. A negative int32 is out of range here, and is treated as 0 is.
pub record StoreOptions : Type 0 where
  pub num_shards : ℕ
  pub num_task_queue_partitions : ℕ
  pub task_token_signing_key : Bytes

-- An empty signing key is replaced by `random`, the 32 bytes of crypto/rand.
unfoldable pub new_store : External → TokenCodec → Bytes → StoreOptions → Store
new_store ext codec random opts = record {
  num_shards = if ltb opts.num_shards 1 then 1 else opts.num_shards;
  num_task_queue_partitions =
      if ltb opts.num_task_queue_partitions 1 then 1 else opts.num_task_queue_partitions;
  task_token_signing_key = elim opts.task_token_signing_key [ [] ↦ random | b ∷ bs ↦ b ∷ bs ];
  ext = ext;
  codec = codec;
}

-- The database and the in-memory notifier.
pub record State : Type 0 where
  pub db : Db
  pub notifier : Notifier

abbrev settle : {A : Type 0} → Db → Result (A × Db) → Result A × Db
settle db (ok (a, db')) = (ok a, db')
settle db (err e) = (err e, db)

-- One transaction: it commits, or fails and leaves the database as it was. A statement that
-- runs outside a transaction is one by itself.
unfoldable pub with_tx : {A : Type 0} → Tx Db A → Db → Result A × Db
with_tx fn db = settle db (fn db)

abbrev pub id_or_not_found : Result (Namespace × Db) → Result ℕ
id_or_not_found (ok (ns, _)) = ok ns.id
id_or_not_found (err no_rows) = err namespace_not_found
id_or_not_found (err e) = err e

unfoldable pub get_namespace_id : Db → String → Result ℕ
unfolding get_namespace_by_name
get_namespace_id db name = id_or_not_found (get_namespace_by_name name db)

unfoldable pub notify_all : List QueueKey → Notifier → Notifier
notify_all [] n = n
notify_all (k ∷ ks) n = notify_all ks (notify k n)

-- What follows a transaction: on success the waiters of some queues are woken.
unfoldable pub then_notify :
    {A : Type 0} → (A → List QueueKey) → Notifier → Result A × Db → Result A × State
unfolding notify_all
then_notify keys n (ok a, db) = (ok a, record { db = db; notifier = notify_all (keys a) n })
then_notify keys n (err e, db) = (err e, record { db = db; notifier = n })

-- A request on a namespace starts by looking it up.
unfoldable pub with_namespace :
    {A : Type 0} → String → (ℕ → State → Result A × State) → State → Result A × State
unfolding get_namespace_id
with_namespace name f st = elim (get_namespace_id st.db name) [
  | err e ↦ (err e, st)
  | ok ns ↦ f ns st
]
