-- ===== src/Sdk/Cache.antt =====
-- sdk/worker/cache.go: the bounded cache of workflow executions, least recently used last. The
-- linked list is a list, the front first; the map `items`, an index into it that each operation
-- keeps in step, is the lookup by key. A capacity below 0 does what 0 does.
pub mod Laws
pub mod Once
use flowd_engine.Base.{
  ℕ, zero, suc, Bool, true, false, ◌&&◌, Option, none, some, List, [], ◌∷◌, String, str_eq, length,
  ltb, find?, if◌then◌else◌,
}

pub record ExecCacheKey : Type 0 where
  pub workflow_id : String
  pub run_id : String

unfoldable pub cache_key_eq : ExecCacheKey → ExecCacheKey → Bool
cache_key_eq a b = str_eq a.workflow_id b.workflow_id && str_eq a.run_id b.run_id

-- What is cached, an execution with its bookmark, is any type.
module _ (V : Type 0) where
  pub record CacheEntry : Type 0 where
    pub key : ExecCacheKey
    pub value : V

  pub record ExecutionCache : Type 0 where
    pub capacity : ℕ
    pub entries : List CacheEntry

module _ {V : Type 0} where
  unfoldable pub new_execution_cache : ℕ → ExecutionCache V
  new_execution_cache capacity = record { capacity = capacity; entries = [] }

  unfoldable pub item : ExecCacheKey → List (CacheEntry V) → Option (CacheEntry V)
  unfolding cache_key_eq
  item key es = find? (λ e. cache_key_eq key e.key) es

  -- list.Remove of the key's element.
  unfoldable pub remove_item : ExecCacheKey → List (CacheEntry V) → List (CacheEntry V)
  unfolding cache_key_eq
  remove_item key [] = []
  remove_item key (e ∷ es) =
      let rest = remove_item key es in if cache_key_eq key e.key then es else e ∷ rest

  -- list.Remove of the back.
  unfoldable pub remove_back : List (CacheEntry V) → List (CacheEntry V)
  remove_back [] = []
  remove_back (e ∷ []) = []
  remove_back (e ∷ f ∷ es) = e ∷ remove_back (f ∷ es)

  -- The value, and the cache with the entry moved to the front.
  unfoldable pub get : ExecCacheKey → ExecutionCache V → Option V × ExecutionCache V
  unfolding item remove_item
  get key c = elim (item key c.entries) [
    | none ↦ (none, c)
    | some e ↦ (some e.value, record c { entries = e ∷ remove_item key c.entries })
  ]

  unfoldable pub put : ExecCacheKey → V → ExecutionCache V → ExecutionCache V
  unfolding item remove_item remove_back
  put key value c = elim (item key c.entries) [
    | some e ↦ record c {
      entries = record { key = e.key; value = value } ∷ remove_item key c.entries;
    }
    | none ↦
        let pushed : List (CacheEntry V) = record { key = key; value = value } ∷ c.entries in
        record c { entries = if ltb c.capacity (length pushed) then remove_back pushed else pushed }
  ]

  unfoldable pub evict : ExecCacheKey → ExecutionCache V → ExecutionCache V
  unfolding remove_item
  evict key c = record c { entries = remove_item key c.entries }
