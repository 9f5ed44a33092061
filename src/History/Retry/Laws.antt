-- ===== src/History/Retry/Laws.antt =====
-- What the retry of internal/history/retry.go promises to its callers.
use flowd_engine.Base.{ℕ, zero, suc, ◌-◌, ◌≤◌, ◌<◌, ◌≡◌, Bool, true, false, refl, arith}
use flowd_engine.Base.Result.{Result}
use flowd_engine.History.Retry.{is_conflict, attempts, with_tx_retry_on_conflict}

module _ {S A : Type 0} (fn : ℕ → S → Result A × S) where
  -- The states before the attempts, if each of them conflicts: the one before the attempt with
  -- `n` attempts made.
  abbrev pub before_attempt : ℕ → S → S
  before_attempt zero s = s
  before_attempt (suc n) s = (fn (4 - n) (before_attempt n s)).1

  abbrev pub outcome : ℕ → S → Result A × S
  outcome n s = fn (4 - n) (before_attempt n s)

  -- The first attempt that does not conflict is the last, and its outcome is the answer.
  pub with_tx_retry_on_conflict-settles :
      (n : ℕ) (s : S)
      → n ≤ 4
      → ((m : ℕ) → m < n → is_conflict (outcome m s).0 ≡ true)
      → is_conflict (outcome n s).0 ≡ false
      → with_tx_retry_on_conflict fn s ≡ outcome n s
  unfolding with_tx_retry_on_conflict attempts
  with_tx_retry_on_conflict-settles zero s le before this = ground arith
  with_tx_retry_on_conflict-settles (suc zero) s le before this = ground (arith, before 0)
  with_tx_retry_on_conflict-settles (suc (suc zero)) s le before this =
      ground (arith, before 0, before 1)
  with_tx_retry_on_conflict-settles (suc (suc (suc zero))) s le before this =
      ground (arith, before 0, before 1, before 2)
  with_tx_retry_on_conflict-settles (suc (suc (suc (suc zero)))) s le before this =
      ground (arith, before 0, before 1, before 2, before 3)
  with_tx_retry_on_conflict-settles (suc (suc (suc (suc (suc n))))) s le before this = ground arith

  attempts-ends :
      (I : S → Type 0) (Q : Result A × S → Type 0)
      → ((k : ℕ) (t : S) → I t → (is_conflict (fn k t).0 ≡ true → I (fn k t).1) × Q (fn k t))
      → (k : ℕ) (r : Result A × S) → (is_conflict r.0 ≡ true → I r.1)
      → Q r
      → Q (attempts k fn r)
  unfolding attempts
  attempts-ends I Q step zero r q w = w
  attempts-ends I Q step (suc k) r q w =
      split (is_conflict r.0) refl
        λ e. let (i, v) = step k r.1 (q e) in attempts-ends I Q step k (fn k r.1) i v
    where
      split :
          (b : Bool)
          → is_conflict r.0 ≡ b
          → (is_conflict r.0 ≡ true → Q (attempts k fn (fn k r.1)))
          → Q (elim b as (λ _. Result A × S) [ true ↦ attempts k fn (fn k r.1) | false ↦ r ])
      split true e again = again e
      split false e again = w

  -- The outcome of the retry is that of one of its attempts, on a state that lost attempts left.
  pub with_tx_retry_on_conflict-ends :
      (I : S → Type 0) (Q : Result A × S → Type 0) (s : S)
      → ((k : ℕ) (t : S) → I t → (is_conflict (fn k t).0 ≡ true → I (fn k t).1) × Q (fn k t))
      → I s
      → Q (with_tx_retry_on_conflict fn s)
  unfolding with_tx_retry_on_conflict
  with_tx_retry_on_conflict-ends I Q s step p =
      let (i, w) = step 4 s p in attempts-ends I Q step 4 (fn 4 s) i w
