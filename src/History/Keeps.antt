-- ===== src/History/Keeps.antt =====
-- A property of the database through a transaction: one rule for each way to put steps together.
use flowd_engine.Base.{ℕ, zero, suc, Bool, true, false, Option, none, some, if◌then◌else◌}
use flowd_engine.Base.Result.{
  Error, Result, ok, err, Tx, ◌>>=◌, ◌>>◌, pure, fail, or_fail, nonzero, renamed,
}
use flowd_engine.Db.Types.{Db}
use flowd_engine.History.Append.Preserve.{Leaves}
use flowd_engine.History.Store.{with_tx}

-- A computation that leaves a property of the database true.
pub record Keeps (P : Db → Type 0) {A : Type 0} (m : Tx Db A) : Type 0 where
  pub leaves : (db : Db) → P db → Leaves P (m db)

module _ {P : Db → Type 0} where
  pub >>=-Keeps :
      {A B : Type 0} (m : Tx Db A) (f : A → Tx Db B)
      → Keeps P m
      → ((a : A) → Keeps P (f a))
      → Keeps P (m >>= f)
  >>=-Keeps {A} {B} m f km kf = record { leaves = λ db c. split (m db) (km.leaves db c) }
    where
      split :
          (r : Result (A × Db))
          → Leaves P r
          → Leaves P (elim r [ ok (a, t) ↦ f a t | err e ↦ err e ])
      split (ok (a, t)) d = (kf a).leaves t d
      split (err e) d = tt

  pub >>-Keeps :
      {B : Type 0} (m : Tx Db (Unit {0})) (k : Tx Db B) → Keeps P m → Keeps P k → Keeps P (m >> k)
  >>-Keeps m k km kk = >>=-Keeps m (λ _. k) km (λ _. kk)

  pub or_fail-Keeps : {A : Type 0} (e : Error) (o : Option A) → Keeps P (or_fail e o)
  or_fail-Keeps e none = record { leaves = λ db c. tt }
  or_fail-Keeps e (some a) = record { leaves = λ db c. c }

  pub nonzero-Keeps : (e : Error) (n : ℕ) → Keeps P (nonzero e n)
  nonzero-Keeps e zero = record { leaves = λ db c. tt }
  nonzero-Keeps e (suc n) = record { leaves = λ db c. c }

  pub pure-Keeps : {A : Type 0} (a : A) → Keeps P (pure a)
  pure-Keeps a = record { leaves = λ db c. c }

  pub fail-Keeps : {A : Type 0} (e : Error) → Keeps P {A = A} (fail e)
  fail-Keeps e = record { leaves = λ db c. tt }

  pub renamed-Keeps :
      {A : Type 0} (f : Error → Error) (m : Tx Db A) → Keeps P m → Keeps P (renamed f m)
  renamed-Keeps {A} f m k = record { leaves = λ db c. split (m db) (k.leaves db c) }
    where
      split :
          (r : Result (A × Db)) → Leaves P r → Leaves P (elim r [ ok x ↦ ok x | err e ↦ err (f e) ])
      split (ok x) d = d
      split (err e) d = tt

  pub if-Keeps :
      {A : Type 0} (b : Bool) (m n : Tx Db A) → Keeps P m → Keeps P n → Keeps P (if b then m else n)
  if-Keeps true m n km kn = km
  if-Keeps false m n km kn = kn

  pub with_tx-Keeps : {A : Type 0} (m : Tx Db A) → Keeps P m → (db : Db) → P db → P (with_tx m db).1
  unfolding with_tx
  with_tx-Keeps {A} m k db c = split (m db) (k.leaves db c)
    where
      split : (r : Result (A × Db)) → Leaves P r → P (with_tx (λ _. r) db).1
      split (ok (a, t)) d = d
      split (err e) d = c

-- The rules, for each do block.
pub ruleset keeps_rules = (
  >>=-Keeps, >>-Keeps, or_fail-Keeps, nonzero-Keeps, pure-Keeps, fail-Keeps, renamed-Keeps,
  if-Keeps,
)
