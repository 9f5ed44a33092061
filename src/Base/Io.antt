-- ===== src/Base/Io.antt =====
-- A sequence of statements outside a transaction: a failure keeps what the earlier ones did.
use flowd_engine.Base.Result.{Error, Result, ok, err}

abbrev pub Io : Type 0 → Type 0 → Type 0
Io S A = S → Result A × S

abbrev pub continue : {S A B : Type 0} → (A → Io S B) → Result A × S → Result B × S
continue f (ok a, s) = f a s
continue f (err e, s) = (err e, s)

infixl 5 ◌>>=◌ ◌>>◌
abbrev pub ◌>>=◌ : {S A B : Type 0} → Io S A → (A → Io S B) → Io S B
◌>>=◌ m f s = continue f (m s)

abbrev pub ◌>>◌ : {S B : Type 0} → Io S (Unit {0}) → Io S B → Io S B
m >> k = m >>= λ _. k

abbrev pub pure : {S A : Type 0} → A → Io S A
pure a s = (ok a, s)

abbrev pub fail : {S A : Type 0} → Error → Io S A
fail e s = (err e, s)
