-- ===== src/History/Retry.antt =====
-- internal/history/retry.go: a transaction that is tried again when it loses a race.
pub mod Laws
use flowd_engine.Base.{ℕ, zero, suc, Bool, true, false, if◌then◌else◌}
use flowd_engine.Base.Result.{Error, concurrent_modification, Result, ok, err}

abbrev pub is_conflict_error : Error → Bool
is_conflict_error concurrent_modification = true
is_conflict_error _ = false

abbrev pub is_conflict : {A : Type 0} → Result A → Bool
is_conflict (ok a) = false
is_conflict (err e) = is_conflict_error e

abbrev pub max_concurrent_modification_retries : ℕ
max_concurrent_modification_retries = 5

-- An attempt takes the number of attempts that may follow it, so that the environment can act
-- differently at each.
unfoldable pub attempts : {S A : Type 0} → ℕ → (ℕ → S → Result A × S) → Result A × S → Result A × S
attempts zero fn r = r
attempts (suc k) fn r = elim (is_conflict r.0) [ true ↦ attempts k fn (fn k r.1) | false ↦ r ]

-- The loop `for attempt := 0; attempt < max; attempt++`: the first attempt always runs.
unfoldable pub with_tx_retry_on_conflict :
    {S A : Type 0} → (ℕ → S → Result A × S) → S → Result A × S
unfolding attempts
with_tx_retry_on_conflict fn s = attempts 4 fn (fn 4 s)
