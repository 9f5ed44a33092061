-- ===== src/Base/Ordered.antt =====
-- ORDER BY a key, the greatest first, over an order that is given as a test.
use mathlib.Core.Path.{◌≡◌, refl}
use mathlib.Core.Logic.{◌⊎◌}
use mathlib.Core.Bool.{Bool, true, false, ◌&&◌}
use mathlib.Core.List.{List, [], ◌∷◌, ◌++◌}
use native.Mathlib.Omega.{arith}
use flowd_engine.Base.Tests.{if◌then◌else◌}
use flowd_engine.Base.Lists.{All}
use flowd_engine.Base.Table.{select}

module _ {A : Type 0} (lt : A → A → Bool) where
  unfoldable pub insert_desc : A → List A → List A
  insert_desc x [] = x ∷ []
  insert_desc x (y ∷ ys) = let rest = insert_desc x ys in if lt y x then x ∷ y ∷ ys else y ∷ rest

  unfoldable pub sort_desc : List A → List A
  unfolding insert_desc
  sort_desc [] = []
  sort_desc (x ∷ xs) = insert_desc x (sort_desc xs)

  -- Each is greater than all that come after it.
  unfoldable pub IsDesc : List A → Type 0
  IsDesc [] = Unit
  IsDesc (x ∷ xs) = All (λ y. lt y x ≡ true) xs × IsDesc xs

  -- Any two are in order, one way or the other.
  unfoldable pub AreComparable : List A → Type 0
  AreComparable [] = Unit
  AreComparable (x ∷ xs) = All (λ y. (lt y x ≡ true) ⊎ (lt x y ≡ true)) xs × AreComparable xs

  -- A strict order.
  pub record IsOrder : Type 0 where
    pub asymmetric : (x y : A) → lt x y ≡ true → lt y x ≡ false
    pub irreflexive : (x : A) → lt x x ≡ false
    pub transitive : (x y z : A) → lt x y ≡ true → lt y z ≡ true → lt x z ≡ true

  All-insert_desc {κ} :
      (P : A → Type κ) (x : A) (ys : List A) → P x → All P ys → All P (insert_desc x ys)
  unfolding insert_desc
  All-insert_desc P x [] h k = (h, tt)
  All-insert_desc P x (y ∷ ys) h k = split (lt y x) (All-insert_desc P x ys h k.1)
    where
      split :
          (b : Bool)
          → All P (insert_desc x ys)
          → All P (if b then x ∷ y ∷ ys else y ∷ insert_desc x ys)
      split true rest = (h, k)
      split false rest = (k.0, rest)

  All-sort_desc {κ} : (P : A → Type κ) (xs : List A) → All P xs → All P (sort_desc xs)
  unfolding sort_desc
  All-sort_desc P [] h = h
  All-sort_desc P (x ∷ xs) h = All-insert_desc P x (sort_desc xs) h.0 (All-sort_desc P xs h.1)

  All-select {κ} : (P : A → Type κ) (p : A → Bool) (xs : List A) → All P xs → All P (select p xs)
  unfolding select
  All-select P p [] h = h
  All-select P p (x ∷ xs) h = split (p x) (All-select P p xs h.1)
    where
      split : (b : Bool) → All P (select p xs) → All P (if b then x ∷ select p xs else select p xs)
      split true rest = (h.0, rest)
      split false rest = rest

  insert_desc_front :
      (x : A) (zs : List A) → All (λ z. lt z x ≡ true) zs → insert_desc x zs ≡ x ∷ zs
  unfolding insert_desc
  insert_desc_front x [] h = refl
  insert_desc_front x (z ∷ zs) h = ground (arith, h.0)

  All-below :
      (o : IsOrder) (x y : A) (ys : List A)
      → lt y x ≡ true
      → All (λ z. lt z y ≡ true) ys
      → All (λ z. lt z x ≡ true) ys
  All-below o x y [] h k = tt
  All-below o x y (z ∷ ys) h k = (o.transitive z y x k.0 h, All-below o x y ys h k.1)

  select-insert_desc :
      (o : IsOrder) (p : A → Bool) (x : A) (ys : List A)
      → IsDesc ys
      → select p (insert_desc x ys) ≡ (if p x then insert_desc x (select p ys) else select p ys)
  unfolding select insert_desc IsDesc
  select-insert_desc o p x [] h = ground arith
  select-insert_desc o p x (y ∷ ys) h = step (lt y x) refl (select-insert_desc o p x ys h.1)
    where
      step :
          (b : Bool)
          → lt y x ≡ b
          → select p (insert_desc x ys) ≡ (if p x then insert_desc x (select p ys) else select p ys)
          → select p (if b then x ∷ y ∷ ys else y ∷ insert_desc x ys)
            ≡ (if p x then insert_desc x (select p (y ∷ ys)) else select p (y ∷ ys))
      step true q ih = ground (
        arith,
        insert_desc_front x (select p (y ∷ ys))
            (All-select (λ z. lt z x ≡ true) p (y ∷ ys) (q, All-below o x y ys q h.0)),
      )
      step false q ih = ground (arith, q, ih)

  insert_desc-IsDesc :
      (x : A) (ys : List A)
      → All (λ y. (lt y x ≡ true) ⊎ (lt x y ≡ true)) ys
      → (o : IsOrder) → IsDesc ys
      → IsDesc (insert_desc x ys)
  unfolding insert_desc IsDesc
  insert_desc-IsDesc x [] c o h = (tt, tt)
  insert_desc-IsDesc x (y ∷ ys) c o h = split (lt y x) refl (insert_desc-IsDesc x ys c.1 o h.1) c.0
    where
      split :
          (b : Bool)
          → lt y x ≡ b
          → IsDesc (insert_desc x ys)
          → (lt y x ≡ true) ⊎ (lt x y ≡ true)
          → IsDesc (if b then x ∷ y ∷ ys else y ∷ insert_desc x ys)
      split true q ih d = ((q, All-below o x y ys q h.0), h)
      split false q ih d =
          (All-insert_desc (λ z. lt z y ≡ true) x ys (ground (arith, q, d)) h.0, ih)

  pub sort_desc-IsDesc : (o : IsOrder) (xs : List A) → AreComparable xs → IsDesc (sort_desc xs)
  unfolding sort_desc AreComparable IsDesc
  sort_desc-IsDesc o [] c = tt
  sort_desc-IsDesc o (x ∷ xs) c =
      insert_desc-IsDesc x (sort_desc xs) (All-sort_desc _ xs c.0) o (sort_desc-IsDesc o xs c.1)

  pub select-sort_desc :
      (o : IsOrder) (p : A → Bool) (xs : List A)
      → AreComparable xs
      → select p (sort_desc xs) ≡ sort_desc (select p xs)
  unfolding sort_desc select AreComparable
  select-sort_desc o p [] c = refl
  select-sort_desc o p (x ∷ xs) c = ground (
    arith,
    select-sort_desc o p xs c.1,
    select-insert_desc o p x (sort_desc xs) (sort_desc-IsDesc o xs c.1),
  )

  pub select-select :
      (p q : A → Bool) (xs : List A) → select p (select q xs) ≡ select (λ x. q x && p x) xs
  unfolding select
  select-select p q [] = refl
  select-select p q (x ∷ xs) = ground (arith, select-select p q xs)

  All-at {κ} : (P : A → Type κ) (xs : List A) (l : A) (ys : List A) → All P (xs ++ l ∷ ys) → P l
  All-at P [] l ys h = h.0
  All-at P (x ∷ xs) l ys h = All-at P xs l ys h.1

  select-All : (p : A → Bool) (ys : List A) → All (λ y. p y ≡ true) ys → select p ys ≡ ys
  unfolding select
  select-All p [] h = refl
  select-All p (y ∷ ys) h = ground (arith, h.0, select-All p ys h.1)

  -- In a list in order, what is less than a row is what comes after it.
  pub select-after :
      (o : IsOrder) (xs : List A) (l : A) (ys : List A)
      → IsDesc (xs ++ l ∷ ys)
      → select (λ r. lt r l) (xs ++ l ∷ ys) ≡ ys
  unfolding select IsDesc
  select-after o [] l ys h = ground (arith, o.irreflexive l, select-All (λ r. lt r l) ys h.0)
  select-after o (x ∷ xs) l ys h = ground (
    arith,
    o.asymmetric l x (All-at (λ z. lt z x ≡ true) xs l ys h.0),
    select-after o xs l ys h.1,
  )
