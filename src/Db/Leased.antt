-- ===== src/Db/Leased.antt =====
-- The queue mechanism that the three task tables share (docs/adr/ADR-0002, Mechanism A): what
-- the Dequeue…, Complete… and ReapExpired… queries do to the columns of a lease.
pub mod Laws
use flowd_engine.Base.{
  ℕ, ◌≡◌, Bool, true, false, not, ◌&&◌, Option, none, some, List, ltb, leb, ◌==◌, select, update,
  min_by,
}
use flowd_engine.Proto.{Uuid}
use flowd_engine.Db.Types.{TaskStatus, pending, started, Lease}

-- A row with a task_id and a lease. The laws say that setting the lease sets that alone.
pub record Leased (R : Type 0) : Type 0 where
  pub task_id : R → ℕ
  pub lease : R → Lease
  pub with_lease : R → Lease → R
  pub lease-with : (r : R) (l : Lease) → lease (with_lease r l) ≡ l
  pub task_id-with : (r : R) (l : Lease) → task_id (with_lease r l) ≡ task_id r

abbrev pub is_pending : TaskStatus → Bool
is_pending pending = true
is_pending _ = false

abbrev pub is_started : TaskStatus → Bool
is_started started = true
is_started _ = false

-- a = b on a nullable column: NULL equals nothing.
abbrev pub token_eq : Option Uuid → Option Uuid → Bool
token_eq (some a) (some b) = a == b
token_eq _ _ = false

-- t < now on a nullable column.
abbrev pub before : Option ℕ → ℕ → Bool
before none now = false
before (some t) now = ltb t now

-- status = 'STARTED', lease_token = gen_random_uuid(), lease_expiry = expiry
abbrev pub start_lease : Uuid → ℕ → Lease → Lease
start_lease token expiry l = record l {
  status = started;
  lease_expiry = some expiry;
  lease_token = some token;
}

-- status = 'PENDING', lease_token = NULL, lease_expiry = NULL
abbrev pub release_lease : Lease → Lease
release_lease l = record l { status = pending; lease_expiry = none; lease_token = none }

-- status = 'STARTED' AND lease_expiry < now()
abbrev pub is_expired : ℕ → Lease → Bool
is_expired now l = is_started l.status && before l.lease_expiry now

module _ {R : Type 0} (t : Leased R) where
  open t use {task_id, lease, with_lease}

  -- task_id = $1 AND lease_token = $2
  unfoldable pub has_lease : ℕ → Option Uuid → R → Bool
  has_lease id token r = task_id r == id && token_eq (lease r).lease_token token

  -- The WHERE clause of the inner SELECT: `locked` are the rows that FOR UPDATE SKIP LOCKED skips
  -- because another transaction holds them, `visible` the conditions that each table adds.
  unfoldable pub is_available : ℕ → (ℕ → Bool) → (R → Bool) → R → Bool
  is_available now locked visible r =
      is_pending (lease r).status
      && (leb (lease r).visible_at now && (not (locked (task_id r)) && visible r))

  -- The row to hand out: ORDER BY task_id LIMIT 1.
  unfoldable pub next_available : ℕ → (ℕ → Bool) → (R → Bool) → List R → Option R
  unfolding is_available
  next_available now locked visible rows =
      min_by task_id (select (is_available now locked visible) rows)

  -- The row as UPDATE … RETURNING gives it back.
  unfoldable pub claim : Uuid → (R → ℕ) → R → R
  claim token expiry r = with_lease r (start_lease token (expiry r) (lease r))

  unfoldable pub claim_row : ℕ → Uuid → (R → ℕ) → List R → List R
  unfolding claim
  claim_row id token expiry rows = update (λ r. task_id r == id) (claim token expiry) rows

  -- UPDATE … SET status = 'PENDING' … WHERE status = 'STARTED' AND lease_expiry < now()
  unfoldable pub reap_expired : ℕ → List R → List R
  reap_expired now rows =
      update (λ r. is_expired now (lease r)) (λ r. with_lease r (release_lease (lease r))) rows
