-- ===== src/Base/Lists.antt =====
-- Lists measured by native numbers, under the library's names, and the runs of numbers 1, …, n.
use Prim.Native.Nat.{ℕ, zero, suc, ◌+◌, ◌≤◌, ◌<◌}
use mathlib.Core.Path.{◌≡◌, refl, ap, ◌∙◌, sym}
use mathlib.Core.List.{List, [], ◌∷◌, ◌++◌, append-nil, append_assoc}
use mathlib.Core.Bool.{Bool, false, ◌||◌}
use mathlib.Core.Option.{Option, none, some}
use native.Mathlib.Omega.{arith}
use flowd_engine.Base.Tests.{◌==◌}

module _ {ℓ} {A : Type ℓ} where
  abbrev pub length : List A → ℕ
  length [] = 0
  length (x ∷ xs) = suc (length xs)

  abbrev pub take : ℕ → List A → List A
  take zero xs = []
  take (suc n) [] = []
  take (suc n) (x ∷ xs) = x ∷ take n xs

  abbrev pub drop : ℕ → List A → List A
  drop zero xs = xs
  drop (suc n) [] = []
  drop (suc n) (x ∷ xs) = drop n xs

  pub take-length-append : (xs ys : List A) → take (length xs) (xs ++ ys) ≡ xs
  take-length-append [] ys = refl
  take-length-append (x ∷ xs) ys = ap (◌∷◌ x) (take-length-append xs ys)

  pub drop-length-append : (xs ys : List A) → drop (length xs) (xs ++ ys) ≡ ys
  drop-length-append [] ys = refl
  drop-length-append (x ∷ xs) ys = drop-length-append xs ys

  pub length-append : (xs ys : List A) → length (xs ++ ys) ≡ length xs + length ys
  length-append [] ys = omega arith
  length-append (x ∷ xs) ys = omega (arith, length-append xs ys)

  pub length-take-le : (n : ℕ) (xs : List A) → length (take n xs) ≤ n
  length-take-le zero xs = omega arith
  length-take-le (suc n) [] = omega arith
  length-take-le (suc n) (x ∷ xs) = omega (arith, length-take-le n xs)

  -- The predicate holds of every element.
  abbrev pub All {κ} : (A → Type κ) → List A → Type κ
  All P [] = Unit
  All P (x ∷ xs) = P x × All P xs

abbrev pub contains : ℕ → List ℕ → Bool
contains n [] = false
contains n (m ∷ ms) = n == m || contains n ms

-- n, n + 1, …: `k` numbers in a row.
abbrev pub range_from : ℕ → ℕ → List ℕ
range_from n zero = []
range_from n (suc k) = n ∷ range_from (suc n) k

-- 1, …, n.
abbrev pub upto : ℕ → List ℕ
upto zero = []
upto (suc n) = upto n ++ (suc n ∷ [])

pub upto-append-range : (m k : ℕ) → upto m ++ range_from (suc m) k ≡ upto (k + m)
upto-append-range m zero = append-nil (upto m) ∙ ap upto {x = m} {y = 0 + m} (omega arith)
upto-append-range m (suc k) =
    sym (append_assoc (upto m) (suc m ∷ []) (range_from (suc (suc m)) k))
    ∙ upto-append-range (suc m) k
    ∙ ap upto {x = k + suc m} {y = suc k + m} (omega arith)

pub contains-append :
    (n : ℕ) (xs ys : List ℕ) → contains n (xs ++ ys) ≡ (contains n xs || contains n ys)
contains-append n [] ys = refl
contains-append n (x ∷ xs) ys = ground (arith, contains-append n xs ys)

pub contains-upto_above : (n m : ℕ) → m < n → contains n (upto m) ≡ false
contains-upto_above n zero h = refl
contains-upto_above n (suc m) h =
    ground (arith, contains-append n (upto m) (suc m ∷ []), contains-upto_above n m (omega arith))

-- The element at an index, if there is one.
abbrev pub get_elem? {ℓ} : {A : Type ℓ} → List A → ℕ → Option A
get_elem? [] i = none
get_elem? (x ∷ xs) zero = some x
get_elem? (x ∷ xs) (suc i) = get_elem? xs i

-- The list with the element at an index replaced, if there is one.
abbrev pub set_elem {ℓ} : {A : Type ℓ} → List A → ℕ → A → List A
set_elem [] i y = []
set_elem (x ∷ xs) zero y = y ∷ xs
set_elem (x ∷ xs) (suc i) y = x ∷ set_elem xs i y

module _ {ℓ} {A : Type ℓ} where
  pub get_elem?-none : (xs : List A) (i : ℕ) → get_elem? xs i ≡ none → length xs ≤ i
  get_elem?-none [] i h = omega arith
  get_elem?-none (x ∷ xs) zero h = ground (arith, h)
  get_elem?-none (x ∷ xs) (suc i) h = omega (arith, get_elem?-none xs i h)

  pub get_elem?-some : (xs : List A) (i : ℕ) (x : A) → get_elem? xs i ≡ some x → i < length xs
  get_elem?-some [] i x h = ground (arith, h)
  get_elem?-some (y ∷ xs) zero x h = omega arith
  get_elem?-some (y ∷ xs) (suc i) x h = omega (arith, get_elem?-some xs i x h)

  pub get_elem?-past : (xs : List A) (i : ℕ) → length xs ≤ i → get_elem? xs i ≡ none
  get_elem?-past [] i h = refl
  get_elem?-past (x ∷ xs) zero h = absurd (omega (arith, h))
  get_elem?-past (x ∷ xs) (suc i) h = get_elem?-past xs i (omega (arith, h))

  pub get_elem?-front :
      (xs ys : List A) (i : ℕ) (x : A) → get_elem? xs i ≡ some x → get_elem? (xs ++ ys) i ≡ some x
  get_elem?-front [] ys i x h = ground (arith, h)
  get_elem?-front (y ∷ xs) ys zero x h = h
  get_elem?-front (y ∷ xs) ys (suc i) x h = get_elem?-front xs ys i x h

  pub get_elem?-next : (xs ys : List A) (x : A) → get_elem? (xs ++ x ∷ ys) (length xs) ≡ some x
  get_elem?-next [] ys x = refl
  get_elem?-next (y ∷ xs) ys x = get_elem?-next xs ys x
