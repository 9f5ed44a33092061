-- ===== src/Db/Leased/Laws.antt =====
-- What the queues of sqlc/workflow_tasks.sql.go, activity_tasks.sql.go and query_tasks.sql.go promise:
-- which row is handed out, that nobody else gets it meanwhile, and what a lost lease is worth.
use flowd_engine.Base.{
  ℕ, ◌≤◌, ◌≡◌, ◌≢◌, refl, ap, ◌↔◌, inl, inr, ◌⊎◌, Bool, true, false, Option, none, some, List, [],
  ◌∷◌, arith, leb, ◌==◌, if◌then◌else◌, find?, select, update, min_by,
}
use flowd_engine.Proto.{Uuid}
use flowd_engine.Db.Leased.{
  Leased, start_lease, has_lease, is_available, next_available, claim, claim_row,
}

-- The row is one of the list's.
abbrev pub In : {R : Type 0} → R → List R → Type 0
In x [] = ⊥
In x (y ∷ ys) = (x ≡ y) ⊎ In x ys

module _ {R : Type 0} where
  min_by-In : (m : R → ℕ) (xs : List R) (r : R) → min_by m xs ≡ some r → In r xs
  unfolding min_by
  min_by-In m [] r h = ground arith
  min_by-In m (x ∷ xs) r h = ground (arith, min_by-In m xs r)

  min_by-none : (m : R → ℕ) (xs : List R) → min_by m xs ≡ none → xs ≡ []
  unfolding min_by
  min_by-none m [] h = refl
  min_by-none m (x ∷ xs) h = ground arith

  min_by-le : (m : R → ℕ) (xs : List R) (r x : R) → min_by m xs ≡ some r → In x xs → m r ≤ m x
  unfolding min_by
  min_by-le m [] r x h i = ground arith
  min_by-le m (y ∷ ys) r x h i = go (min_by m ys) refl h i (λ z e j. min_by-le m ys z x e j)
    where
      go :
          (o : Option R)
          → min_by m ys ≡ o
          → elim o [ none ↦ some y | some z ↦ if leb (m y) (m z) then some y else some z ] ≡ some r
          → In x (y ∷ ys)
          → ((z : R) → min_by m ys ≡ some z → In x ys → m z ≤ m x)
          → m r ≤ m x
      go none e h i ih = ground (
        arith,
        min_by-none m ys e,
        ap (In x) {x = ys} {y = []},
        ap m {x = x} {y = y},
        ap m {x = r} {y = y},
      )
      go (some z) e h i ih =
          ground (arith, ih z e, ap m {x = x} {y = y}, ap m {x = r} {y = y}, ap m {x = r} {y = z})

  In-select : (p : R → Bool) (xs : List R) (x : R) → In x (select p xs) ↔ (In x xs × (p x ≡ true))
  unfolding select
  In-select p [] x = ground arith
  In-select p (y ∷ ys) x = ground (arith, In-select p ys x, ap p {x = x} {y = y})

  In-update :
      (p : R → Bool) (f : R → R) (xs : List R) (x : R)
      → In x (update p f xs)
      → (y : R) × In y xs × (x ≡ (if p y then f y else y))
  unfolding update
  In-update p f [] x i = ground arith
  In-update p f (y ∷ ys) x (inl e) = (y, inl refl, e)
  In-update p f (y ∷ ys) x (inr i) = let (z, j, e) = In-update p f ys x i in (z, inr j, e)

module _ {R : Type 0} (t : Leased R) where
  open t use {task_id, lease, with_lease}

  -- A row is handed out only if it is one of the table's and available, and no available row has a
  -- smaller task_id.
  pub next_available-least :
      (now : ℕ) (locked : ℕ → Bool) (visible : R → Bool) (rows : List R) (r x : R)
      → next_available t now locked visible rows ≡ some r
      → In x rows
      → is_available t now locked visible x ≡ true
      → In r rows × (is_available t now locked visible r ≡ true) × (task_id r ≤ task_id x)
  unfolding next_available
  next_available-least now locked visible rows r x h i a =
      let p = is_available t now locked visible in
      let j = min_by-In task_id (select p rows) r h in
      let (k, b) = (In-select p rows r).0 j in
      (k, b, min_by-le task_id (select p rows) r x h ((In-select p rows x).1 (i, a)))

  -- Nothing is handed out only if no row of the table is available.
  pub next_available-none :
      (now : ℕ) (locked : ℕ → Bool) (visible : R → Bool) (rows : List R) (x : R)
      → next_available t now locked visible rows ≡ none
      → In x rows
      → is_available t now locked visible x ≡ false
  unfolding next_available
  next_available-none now locked visible rows x h i =
      let p = is_available t now locked visible in
      ground (
        arith,
        min_by-none task_id (select p rows) h,
        (In-select p rows x).1,
        ap (In x) {x = select p rows} {y = []},
      )

  -- Once a task is claimed, no row with its id is available to anyone, at any time, until its lease
  -- is given up.
  pub claim_row-excludes :
      (id : ℕ) (token : Uuid) (expiry : R → ℕ) (rows : List R) (x : R) (now : ℕ) (locked : ℕ → Bool)
      (visible : R → Bool)
      → In x (claim_row t id token expiry rows)
      → task_id x ≡ id
      → is_available t now locked visible x ≡ false
  unfolding claim_row claim is_available
  claim_row-excludes id token expiry rows x now locked visible i e =
      let (y, j, f) = In-update (λ r. task_id r == id) (claim t token expiry) rows x i in
      ground (
        arith,
        ap lease f,
        ap task_id f,
        t.lease-with y (start_lease token (expiry y) (lease y)),
        t.task_id-with y (start_lease token (expiry y) (lease y)),
      )

  -- Of the tokens, exactly the one of the claim opens the row that was claimed.
  pub claim_row-has_lease :
      (id : ℕ) (token old : Uuid) (expiry : R → ℕ) (rows : List R) (x : R)
      → In x (claim_row t id token expiry rows)
      → task_id x ≡ id
      → has_lease t id (some old) x ≡ (token == old)
  unfolding claim_row claim has_lease
  claim_row-has_lease id token old expiry rows x i e =
      let (y, j, f) = In-update (λ r. task_id r == id) (claim t token expiry) rows x i in
      ground (
        arith,
        ap lease f,
        ap task_id f,
        t.lease-with y (start_lease token (expiry y) (lease y)),
        t.task_id-with y (start_lease token (expiry y) (lease y)),
      )

module _ {R : Type 0} where
  pub find?-none-In :
      (p : R → Bool) (xs : List R) → ((x : R) → In x xs → p x ≡ false) → find? p xs ≡ none
  unfolding find?
  find?-none-In p [] h = refl
  find?-none-In p (x ∷ xs) h =
      ground (arith, h x (inl refl), find?-none-In p xs (λ y i. h y (inr i)))

  pub select-none-In :
      (p : R → Bool) (xs : List R) → ((x : R) → In x xs → p x ≡ false) → select p xs ≡ []
  unfolding select
  select-none-In p [] h = refl
  select-none-In p (x ∷ xs) h =
      ground (arith, h x (inl refl), select-none-In p xs (λ y i. h y (inr i)))

module _ {R : Type 0} (t : Leased R) where
  open t use {task_id}

  pub available_of :
      (now : ℕ) (locked : ℕ → Bool) (visible : R → Bool) (rows : List R) (r : R)
      → next_available t now locked visible rows ≡ some r
      → In r rows × (is_available t now locked visible r ≡ true)
  unfolding next_available
  available_of now locked visible rows r h =
      (In-select (is_available t now locked visible) rows r).0
        (min_by-In task_id (select (is_available t now locked visible) rows) r h)

  -- After a claim the row is shut to other tokens.
  pub not_held :
      (id id' : ℕ) (token old : Uuid) (expiry : R → ℕ) (rows : List R) (x : R)
      → id ≡ id'
      → token ≢ old
      → In x (claim_row t id' token expiry rows)
      → has_lease t id (some old) x ≡ false
  unfolding has_lease
  not_held id id' token old expiry rows x same ne i = ground (
    arith,
    claim_row-has_lease t id' token old expiry rows x i,
    ap (λ k. has_lease t k (some old) x) {x = id} {y = id'},
  )
