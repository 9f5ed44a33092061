-- ===== src/Sdk/Cache/Once.antt =====
-- That the cache holds a run at most once, and what an eviction then leaves.
use flowd_engine.Base.{
  ◌≡◌, refl, subst, Bool, true, false, Option, none, some, List, [], ◌∷◌, arith, find?, ltb, length,
  if◌then◌else◌,
}
use flowd_engine.Sdk.Cache.{
  ExecCacheKey, CacheEntry, ExecutionCache, item, remove_item, remove_back, get, put, evict,
}
use flowd_engine.Sdk.Cache.Laws.{item-key, cache_key_eq_iff}

module _ {V : Type 0} where
  unfoldable pub IsOnce : List (CacheEntry V) → Type 0
  unfolding item
  IsOnce [] = Unit
  IsOnce (e ∷ es) = (item e.key es ≡ none) × IsOnce es

  item-remove_item-none :
      (key other : ExecCacheKey) (es : List (CacheEntry V))
      → item other es ≡ none
      → item other (remove_item key es) ≡ none
  unfolding item remove_item find?
  item-remove_item-none key other [] h = refl
  item-remove_item-none key other (e ∷ es) h = ground (arith, h, item-remove_item-none key other es)

  remove_item-IsOnce :
      (key : ExecCacheKey) (es : List (CacheEntry V)) → IsOnce es → IsOnce (remove_item key es)
  unfolding IsOnce remove_item
  remove_item-IsOnce key [] h = h
  remove_item-IsOnce key (e ∷ es) h =
      ground
        (arith, h.0, h.1, remove_item-IsOnce key es h.1, item-remove_item-none key e.key es h.0)

  removed :
      (key : ExecCacheKey) (es : List (CacheEntry V))
      → IsOnce es
      → item key (remove_item key es) ≡ none
  unfolding IsOnce item remove_item find?
  removed key [] h = refl
  removed key (e ∷ es) h = ground (arith, h.0, removed key es h.1, cache_key_eq_iff key e.key)

  item-remove_back-none :
      (key : ExecCacheKey) (es : List (CacheEntry V))
      → item key es ≡ none
      → item key (remove_back es) ≡ none
  unfolding item remove_back find?
  item-remove_back-none key [] h = h
  item-remove_back-none key (e ∷ []) h = refl
  item-remove_back-none key (e ∷ f ∷ es) h = ground (arith, h, item-remove_back-none key (f ∷ es))

  pub get-evict :
      (key : ExecCacheKey) (c : ExecutionCache V)
      → IsOnce c.entries
      → (get key (evict key c)).0 ≡ none
  unfolding get evict
  get-evict key c h = ground (arith, removed key c.entries h)

  remove_back-IsOnce : (es : List (CacheEntry V)) → IsOnce es → IsOnce (remove_back es)
  unfolding IsOnce remove_back
  remove_back-IsOnce [] h = h
  remove_back-IsOnce (e ∷ []) h = h.1
  remove_back-IsOnce (e ∷ f ∷ es) h =
      (item-remove_back-none e.key (f ∷ es) h.0, remove_back-IsOnce (f ∷ es) h.1)

  moved-IsOnce :
      (key : ExecCacheKey) (e : CacheEntry V) (es : List (CacheEntry V))
      → key ≡ e.key
      → IsOnce es
      → IsOnce (e ∷ remove_item key es)
  unfolding IsOnce
  moved-IsOnce key e es q h = (
    subst (λ k. item k (remove_item key es) ≡ none) q (removed key es h),
    remove_item-IsOnce key es h,
  )

  pushed-IsOnce :
      (key : ExecCacheKey) (value : V) (es : List (CacheEntry V))
      → item key es ≡ none
      → IsOnce es
      → IsOnce (record { key = key; value = value } ∷ es)
  unfolding IsOnce
  pushed-IsOnce key value es q h = (q, h)

  pub get-IsOnce :
      (key : ExecCacheKey) (c : ExecutionCache V) → IsOnce c.entries → IsOnce (get key c).1.entries
  unfolding get
  get-IsOnce key c h = split (item key c.entries) refl
    where
      split :
          (o : Option (CacheEntry V))
          → item key c.entries ≡ o
          → IsOnce
              (elim o as (λ _. Option V × ExecutionCache V) [
                | none ↦ (none, c)
                | some e ↦ (some e.value, record c { entries = e ∷ remove_item key c.entries })
              ]).1.entries
      split none q = h
      split (some e) q = moved-IsOnce key e c.entries (item-key key c.entries e q) h

  pub put-IsOnce :
      (key : ExecCacheKey) (value : V) (c : ExecutionCache V)
      → IsOnce c.entries
      → IsOnce (put key value c).entries
  unfolding put
  put-IsOnce key value c h = split (item key c.entries) refl
    where
      pushed : List (CacheEntry V)
      pushed = record { key = key; value = value } ∷ c.entries

      bounded : (b : Bool) → IsOnce pushed → IsOnce (if b then remove_back pushed else pushed)
      bounded true once = remove_back-IsOnce pushed once
      bounded false once = once

      split :
          (o : Option (CacheEntry V))
          → item key c.entries ≡ o
          → IsOnce
              (elim o as (λ _. ExecutionCache V) [
                | some e ↦ record c {
                  entries = record { key = e.key; value = value } ∷ remove_item key c.entries;
                }
                | none ↦ record c {
                  entries = if ltb c.capacity (length pushed) then remove_back pushed else pushed;
                }
              ]).entries
      split (some e) q =
          moved-IsOnce key (record { key = e.key; value = value }) c.entries
            (item-key key c.entries e q) h
      split none q =
          bounded (ltb c.capacity (length pushed)) (pushed-IsOnce key value c.entries q h)

  pub evict-IsOnce :
      (key : ExecCacheKey) (c : ExecutionCache V) → IsOnce c.entries → IsOnce (evict key c).entries
  unfolding evict
  evict-IsOnce key c h = remove_item-IsOnce key c.entries h
