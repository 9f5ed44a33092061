-- ===== src/Base/Table.antt =====
-- A database table as a list of rows, in the order of insertion, and the statements over it.
use Prim.Native.Nat.{ℕ}
use mathlib.Core.Path.{◌≡◌, refl}
use mathlib.Core.Bool.{Bool, true, ◌&&◌}
use mathlib.Core.Option.{Option, none, some}
use mathlib.Core.List.{List, [], ◌∷◌, ◌++◌}
use native.Mathlib.Omega.{arith}
use flowd_engine.Base.Tests.{if◌then◌else◌, leb}

module _ {ℓ} {A : Type ℓ} where
  -- The first row that meets the condition.
  unfoldable pub find? : (A → Bool) → List A → Option A
  find? p [] = none
  find? p (x ∷ xs) = if p x then some x else find? p xs

  -- SELECT … WHERE p.
  unfoldable pub select : (A → Bool) → List A → List A
  select p [] = []
  select p (x ∷ xs) = if p x then x ∷ select p xs else select p xs

  -- UPDATE … SET f WHERE p.
  unfoldable pub update : (A → Bool) → (A → A) → List A → List A
  update p f [] = []
  update p f (x ∷ xs) = (if p x then f x else x) ∷ update p f xs

  -- DELETE … WHERE p.
  unfoldable pub delete : (A → Bool) → List A → List A
  delete p [] = []
  delete p (x ∷ xs) = if p x then delete p xs else x ∷ delete p xs

  -- SELECT … ORDER BY m LIMIT 1: the first of the rows with the least value.
  unfoldable pub min_by : (A → ℕ) → List A → Option A
  min_by m [] = none
  min_by m (x ∷ xs) = elim (min_by m xs) [
    | none ↦ some x
    | some y ↦ if leb (m x) (m y) then some x else some y
  ]

  pub find?-append-none :
      (p : A → Bool) (xs ys : List A) → find? p xs ≡ none → find? p (xs ++ ys) ≡ find? p ys
  unfolding find?
  find?-append-none p [] ys h = refl
  find?-append-none p (x ∷ xs) ys h = ground (arith, find?-append-none p xs ys)

  pub find?-append-some :
      (p : A → Bool) (xs ys : List A) (r : A) → find? p xs ≡ some r → find? p (xs ++ ys) ≡ some r
  unfolding find?
  find?-append-some p [] ys r h = ground arith
  find?-append-some p (x ∷ xs) ys r h = ground (arith, find?-append-some p xs ys r)

  pub find?-holds : (p : A → Bool) (xs : List A) (r : A) → find? p xs ≡ some r → p r ≡ true
  unfolding find?
  find?-holds p [] r h = ground arith
  find?-holds p (x ∷ xs) r h = ground (arith, find?-holds p xs r)

  pub select-append :
      (p : A → Bool) (xs ys : List A) → select p (xs ++ ys) ≡ select p xs ++ select p ys
  unfolding select
  select-append p [] ys = refl
  select-append p (x ∷ xs) ys = ground (arith, select-append p xs ys)

  -- An update is seen through a condition that it does not change.
  pub find?-update :
      (q p : A → Bool) (f : A → A) (xs : List A)
      → ((x : A) → q (f x) ≡ q x)
      → find? q (update p f xs)
        ≡ elim (find? q xs) [ none ↦ none | some x ↦ some (if p x then f x else x) ]
  unfolding find? update
  find?-update q p f [] keep = refl
  find?-update q p f (x ∷ xs) keep = ground (arith, keep x, find?-update q p f xs keep)

  pub find?-select :
      (p q : A → Bool) (xs : List A) → find? p (select q xs) ≡ find? (λ x. q x && p x) xs
  unfolding find? select
  find?-select p q [] = refl
  find?-select p q (x ∷ xs) = ground (arith, find?-select p q xs)
