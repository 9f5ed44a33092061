-- ===== src/History/Sharding/Bounds.antt =====
-- Where a workflow's shard and task-queue partition lie.
use flowd_engine.Base.{ℕ, ◌<◌, ◌≤◌, ltb, String, arith, if◌then◌else◌}
use flowd_engine.Proto.{External, Bytes}
use flowd_engine.History.TaskToken.{TokenCodec}
use flowd_engine.History.Sharding.{partition_for}
use flowd_engine.History.Store.{StoreOptions, new_store}

partition_for-lt : (ext : External) (key : String) (n : ℕ) → 1 ≤ n → partition_for ext key n < n
unfolding partition_for
partition_for-lt ext key n h = ground arith

-- With whatever options a store is made, a workflow's shard is below its number of shards, and its
-- partition below its number of partitions.
pub new_store-bounds :
    (ext : External) (codec : TokenCodec) (random : Bytes) (opts : StoreOptions)
    (workflow_id : String)
    → let s = new_store ext codec random opts in
      (partition_for s.ext workflow_id s.num_shards < s.num_shards)
      × (partition_for s.ext workflow_id s.num_task_queue_partitions < s.num_task_queue_partitions)
unfolding new_store
new_store-bounds ext codec random opts workflow_id = (
  partition_for-lt ext workflow_id (if ltb opts.num_shards 1 then 1 else opts.num_shards)
      (ground arith),
  partition_for-lt ext workflow_id
      (if ltb opts.num_task_queue_partitions 1 then 1 else opts.num_task_queue_partitions)
      (ground arith),
)
