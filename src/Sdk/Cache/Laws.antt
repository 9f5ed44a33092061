-- ===== src/Sdk/Cache/Laws.antt =====
-- The cache stays within its capacity, finds what was put last, and forgets nothing while it has room.
use flowd_engine.Base.{
  suc, ◌≤◌, ◌<◌, ◌≡◌, refl, ap, ◌↔◌, ◌⊎◌, true, false, Option, none, some, List, [], ◌∷◌,
  str_eq_iff, length, arith, find?, find?-holds, is_some,
}
use flowd_engine.Sdk.Cache.{
  ExecCacheKey, cache_key_eq, CacheEntry, ExecutionCache, item, remove_item, remove_back, get, put,
}

pub cache_key_eq_iff : (a b : ExecCacheKey) → (cache_key_eq a b ≡ true) ↔ (a ≡ b)
unfolding cache_key_eq
cache_key_eq_iff a b =
    ground (arith, str_eq_iff a.workflow_id b.workflow_id, str_eq_iff a.run_id b.run_id)

module _ {V : Type 0} where
  length-remove_item :
      (key : ExecCacheKey) (es : List (CacheEntry V)) (e : CacheEntry V)
      → item key es ≡ some e
      → suc (length (remove_item key es)) ≡ length es
  unfolding item remove_item find?
  length-remove_item key [] e h = ground arith
  length-remove_item key (x ∷ es) e h = ground (arith, length-remove_item key es e)

  length-remove_back :
      (e : CacheEntry V) (es : List (CacheEntry V)) → length (remove_back (e ∷ es)) ≡ length es
  unfolding remove_back
  length-remove_back e [] = refl
  length-remove_back e (f ∷ es) = ap suc (length-remove_back f es)

  -- A put keeps the cache within its capacity.
  pub length-put :
      (key : ExecCacheKey) (value : V) (c : ExecutionCache V)
      → length c.entries ≤ c.capacity
      → length (put key value c).entries ≤ (put key value c).capacity
  unfolding put
  length-put key value c h = split (item key c.entries) refl
    where
      pushed : List (CacheEntry V)
      pushed = record { key = key; value = value } ∷ c.entries

      split :
          (o : Option (CacheEntry V))
          → item key c.entries ≡ o
          → length (put key value c).entries ≤ (put key value c).capacity
      split (some e) f = ground (arith, length-remove_item key c.entries e f)
      split none f =
          ground (arith, length-remove_back (record { key = key; value = value }) c.entries)

  pub item-key :
      (key : ExecCacheKey) (es : List (CacheEntry V)) (e : CacheEntry V)
      → item key es ≡ some e
      → key ≡ e.key
  unfolding item
  item-key key es e h =
      (cache_key_eq_iff key e.key).0 (find?-holds (λ x. cache_key_eq key x.key) es e h)

  item_front :
      (key : ExecCacheKey) (value : V) (es : List (CacheEntry V))
      → item key (record { key = key; value = value } ∷ es)
        ≡ some (record { key = key; value = value })
  unfolding item find?
  item_front key value es = ground (arith, cache_key_eq_iff key key)

  item_behind :
      (key : ExecCacheKey) (e : CacheEntry V) (es : List (CacheEntry V))
      → cache_key_eq key e.key ≡ false
      → item key (e ∷ es) ≡ item key es
  unfolding item find?
  item_behind key e es h = ground arith

  item-remove_back :
      (key : ExecCacheKey) (value : V) (es : List (CacheEntry V))
      → 1 ≤ length es
      → item key (remove_back (record { key = key; value = value } ∷ es))
        ≡ some (record { key = key; value = value })
  unfolding remove_back item find?
  item-remove_back key value [] h = ground arith
  item-remove_back key value (f ∷ es) h = ground (arith, cache_key_eq_iff key key)

  -- What was put last is found, in a cache that holds anything at all.
  pub get-put :
      (key : ExecCacheKey) (value : V) (c : ExecutionCache V)
      → 1 ≤ c.capacity
      → (get key (put key value c)).0 ≡ some value
  unfolding get put
  get-put key value c h = split (item key c.entries) refl
    where
      split :
          (o : Option (CacheEntry V))
          → item key c.entries ≡ o
          → (get key (put key value c)).0 ≡ some value
      split (some e) f = ground (
        arith,
        item_front e.key value (remove_item key c.entries),
        item-key key c.entries e f,
        ap (λ k. item k (record { key = e.key; value = value } ∷ remove_item key c.entries))
            {x = e.key} {y = key},
      )
      split none f =
          ground (arith, item_front key value c.entries, item-remove_back key value c.entries)

  item-remove_item :
      (key other : ExecCacheKey) (es : List (CacheEntry V))
      → cache_key_eq other key ≡ false
      → item other (remove_item key es) ≡ item other es
  unfolding item remove_item find?
  item-remove_item key other [] h = refl
  item-remove_item key other (e ∷ es) h = ground (
    arith,
    item-remove_item key other es h,
    cache_key_eq_iff key e.key,
    cache_key_eq_iff other e.key,
    cache_key_eq_iff other key,
    ap (cache_key_eq other) {x = key} {y = e.key},
  )

  -- A put does not lose another run while there is room, or when the key was there already.
  pub get-put_other :
      (key other : ExecCacheKey) (value : V) (c : ExecutionCache V)
      → cache_key_eq other key ≡ false
      → (is_some (item key c.entries) ≡ true) ⊎ (length c.entries < c.capacity)
      → (get other (put key value c)).0 ≡ (get other c).0
  unfolding get put
  get-put_other key other value c ne room = split (item key c.entries) refl
    where
      split :
          (o : Option (CacheEntry V))
          → item key c.entries ≡ o
          → (get other (put key value c)).0 ≡ (get other c).0
      split (some e) f = ground (
        arith,
        item-key key c.entries e f,
        ap (cache_key_eq other) {x = key} {y = e.key},
        item_behind other (record { key = e.key; value = value }) (remove_item key c.entries),
        item-remove_item key other c.entries ne,
      )
      split none f =
          ground (arith, item_behind other (record { key = key; value = value }) c.entries)

  -- A get that finds nothing changes nothing.
  pub get-none :
      (key : ExecCacheKey) (c : ExecutionCache V) → (get key c).0 ≡ none → get key c ≡ (none, c)
  unfolding get
  get-none key c h = ground (arith, h)
