-- ===== src/History/Sharding.antt =====
-- internal/history/sharding.go.
pub mod Bounds
use flowd_engine.Base.{ℕ, ◌%◌, String, leb, if◌then◌else◌}
use flowd_engine.Proto.{External}

-- `n` is an int32 that the callers keep positive; the hash is a uint32, and so is `n` in the
-- remainder.
unfoldable pub partition_for : External → String → ℕ → ℕ
partition_for ext key n = if leb n 1 then 0 else ext.fnv32a key % n
