-- ===== src/Base/Result.antt =====
-- Failure as a value, and transactions: a state monad over the database with errors.
use Prim.Native.Nat.{ℕ, zero, suc}
use mathlib.Core.Path.{◌≡◌, refl}
use mathlib.Core.Option.{Option, none, some}

-- The errors of internal/history/errors.go, by the sentinel that `errors.Is` finds, and those that
-- carry only a message.
pub data Error : Type 0 where
  concurrent_modification task_lease_expired no_task_available workflow_already_running
        workflow_not_found namespace_not_found namespace_already_exists idempotent_replay :
      Error
  -- pgx.ErrNoRows, and violated constraints: PRIMARY KEY or UNIQUE, and NOT NULL
  no_rows unique_violation not_null_violation : Error
  wrong_token_kind unsupported_command too_many_terminal_commands continue_as_new_not_alone : Error
  marshal_error unmarshal_error : Error
  token_too_short signature_mismatch unsupported_version : Error
  unknown_event_type : Error
  -- the context's deadline has passed
  context_expired : Error
  -- a panic on a nil pointer
  nil_dereference : Error

pub data Result {ℓ} (A : Type ℓ) : Type ℓ where
  ok : A → Result A
  err : Error → Result A

-- What a function does inside a transaction: it reads and writes the state, or fails.
abbrev pub Tx : Type 0 → Type 0 → Type 0
Tx S A = S → Result (A × S)

infixl 5 ◌>>=◌ ◌>>◌
abbrev pub ◌>>=◌ : {S A B : Type 0} → Tx S A → (A → Tx S B) → Tx S B
◌>>=◌ m f s = elim (m s) [ ok (a, s') ↦ f a s' | err e ↦ err e ]

abbrev pub ◌>>◌ : {S B : Type 0} → Tx S (Unit {0}) → Tx S B → Tx S B
m >> k = m >>= λ _. k

abbrev pub pure : {S A : Type 0} → A → Tx S A
pure a s = ok (a, s)

abbrev pub fail : {S A : Type 0} → Error → Tx S A
fail e s = err e

abbrev pub gets : {S A : Type 0} → (S → A) → Tx S A
gets f s = ok (f s, s)

abbrev pub modify : {S : Type 0} → (S → S) → Tx S (Unit {0})
modify f s = ok (tt, f s)

-- A read of one row, where none is an error.
abbrev pub or_fail : {S A : Type 0} → Error → Option A → Tx S A
or_fail e none s = err e
or_fail e (some a) s = ok (a, s)

-- `affected == 0` is an error.
abbrev pub nonzero : {S : Type 0} → Error → ℕ → Tx S (Unit {0})
nonzero e zero s = err e
nonzero e (suc n) s = ok (tt, s)

abbrev pub renamed : {S A : Type 0} → (Error → Error) → Tx S A → Tx S A
renamed f m s = elim (m s) [ ok r ↦ ok r | err e ↦ err (f e) ]

-- pgx.ErrNoRows is told apart from other errors.
abbrev pub no_rows_as : Error → Error → Error
no_rows_as e no_rows = e
no_rows_as e other = other

-- Inversion of a successful sequence, for proofs where the parts stay shut.
pub >>=-eq-ok :
    {S A B : Type 0} (m : Tx S A) (f : A → Tx S B) (s : S) (r : B × S)
    → (m >>= f) s ≡ ok r
    → (a : A) × (t : S) × (m s ≡ ok (a, t)) × (f a t ≡ ok r)
>>=-eq-ok {S} {A} {B} m f s r = split (m s) refl
  where
    split :
        (x : Result (A × S))
        → m s ≡ x
        → elim x [ ok (a, t) ↦ f a t | err e ↦ err e ] ≡ ok r
        → (a : A) × (t : S) × (m s ≡ ok (a, t)) × (f a t ≡ ok r)
    split (ok (a, t)) e h = (a, t, e, h)
    split (err x) e h = cc
