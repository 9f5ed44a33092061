-- ===== src/Scenarios/Caching.antt =====
-- The theorems on the worker's cache, at a cache of two runs.
use flowd_engine.Base.{ℕ, ◌≡◌, ◌≤◌, refl, inr, false, some, [], ◌∷◌, length, arith}
use flowd_engine.Sdk.Cache.{ExecCacheKey, cache_key_eq, ExecutionCache, get, put}
use flowd_engine.Sdk.Cache.Laws.{length-put, get-put, get-put_other}

abbrev cached : ℕ → ExecutionCache ℕ
cached capacity = record {
  capacity = capacity;
  entries =
      record { key = record { workflow_id = "a"; run_id = "r" }; value = 1 }
      ∷ record { key = record { workflow_id = "b"; run_id = "r" }; value = 2 }
      ∷ [];
}

abbrev run_a : ExecCacheKey
run_a = record { workflow_id = "a"; run_id = "r" }

abbrev run_c : ExecCacheKey
run_c = record { workflow_id = "c"; run_id = "r" }

length-put_example : length (put run_c 3 (cached 2)).entries ≤ (put run_c 3 (cached 2)).capacity
length-put_example = length-put run_c 3 (cached 2) (ground arith)

get-put_example : (get run_c (put run_c 3 (cached 2))).0 ≡ some 3
get-put_example = get-put run_c 3 (cached 2) (ground arith)

other_run : cache_key_eq run_a run_c ≡ false
unfolding cache_key_eq
other_run = refl

get-put_other_example : (get run_a (put run_c 3 (cached 3))).0 ≡ (get run_a (cached 3)).0
get-put_other_example = get-put_other run_c run_a 3 (cached 3) other_run (inr (ground arith))
