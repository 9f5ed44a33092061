-- ===== src/History/Append/Contiguous.antt =====
-- The invariant behind AppendHistory: the event ids of each run are 1, …, next_event_id - 1.
use flowd_engine.Base.{
  ℕ, ◌+◌, ◌-◌, ◌≤◌, ◌≡◌, ◌≢◌, refl, ap, inl, inr, ◌⊎◌, Bool, true, false, Option, none, some, List,
  [], ◌∷◌, map, arith, if◌then◌else◌, Bool-cases, Option-cases, find?, update, find?-update,
  find?-holds, upto,
}
use flowd_engine.Db.Types.{Db, RunKey, key_eq, key_eq_iff, WorkflowExecution, HistoryRow}
use flowd_engine.Db.Executions.{has_version, advance_row}
use flowd_engine.Db.Events.{rows_of}

abbrev pub ids_of : RunKey → List HistoryRow → List ℕ
ids_of key rows = map (λ r. r.event_id) (rows_of key rows)

abbrev pub events_before : Option WorkflowExecution → ℕ
events_before none = 0
events_before (some we) = we.next_event_id - 1

-- The number of events that the run's counter stands for.
abbrev pub event_count : RunKey → List WorkflowExecution → ℕ
event_count key wes = events_before (find? (λ we. key_eq key we.key) wes)

-- The primary key of workflow_executions, and that next_event_id starts at 1.
abbrev pub AreRuns : List WorkflowExecution → Type 0
AreRuns [] = Unit {0}
AreRuns (we ∷ wes) =
    (find? (λ r. key_eq we.key r.key) wes ≡ none) × (1 ≤ we.next_event_id) × AreRuns wes

pub record IsContiguous (db : Db) : Type 0 where
  pub runs : AreRuns db.workflow_executions
  pub ids :
      (key : RunKey) → ids_of key db.history_events ≡ upto (event_count key db.workflow_executions)

key_eq-replace : (a b c : RunKey) → key_eq a b ≡ true → key_eq a c ≡ key_eq b c
key_eq-replace a b c h = ap (λ k. key_eq k c) ((key_eq_iff a b).0 h)

-- The row that has the version is the run's row.
pub find?-has_version :
    (key : RunKey) (expected : ℕ) (wes : List WorkflowExecution) (we : WorkflowExecution)
    → AreRuns wes
    → find? (has_version key expected) wes ≡ some we
    → (find? (λ r. key_eq key r.key) wes ≡ some we) × (we.next_event_id ≡ expected)
unfolding find? has_version
find?-has_version key expected [] we a h = ground arith
find?-has_version key expected (w ∷ wes) we a h = elim (Bool-cases (key_eq key w.key)) [
  | inl same ↦ ground (
    arith,
    find?-has_version key expected wes we a.2,
    ap (λ k. find? (λ r. key_eq k r.key) wes) ((key_eq_iff key w.key).0 same),
  )
  | inr other ↦ ground (arith, find?-has_version key expected wes we a.2)
]

pub find?-has_version-none :
    (key : RunKey) (expected : ℕ) (wes : List WorkflowExecution) (we : WorkflowExecution)
    → AreRuns wes
    → find? (λ r. key_eq key r.key) wes ≡ some we
    → we.next_event_id ≢ expected
    → find? (has_version key expected) wes ≡ none
find?-has_version-none key expected wes we a h ne =
    elim (Option-cases (find? (has_version key expected) wes)) [
      | inl e ↦ e
      | inr (w, e) ↦ ground (arith, find?-has_version key expected wes w a e)
    ]

pub AreRuns-positive :
    (key : RunKey) (wes : List WorkflowExecution) (we : WorkflowExecution)
    → AreRuns wes
    → find? (λ r. key_eq key r.key) wes ≡ some we
    → 1 ≤ we.next_event_id
unfolding find?
AreRuns-positive key [] we a h = ground arith
AreRuns-positive key (w ∷ wes) we a h = ground (arith, AreRuns-positive key wes we a.2)

-- Setting columns of rows, but not their key, keeps the runs apart.
pub AreRuns-update :
    (p : WorkflowExecution → Bool) (f : WorkflowExecution → WorkflowExecution)
    (wes : List WorkflowExecution)
    → ((we : WorkflowExecution) → (f we).key ≡ we.key)
    → ((we : WorkflowExecution) → 1 ≤ we.next_event_id → 1 ≤ (f we).next_event_id)
    → AreRuns wes
    → AreRuns (update p f wes)
unfolding update
AreRuns-update p f [] keep grow a = tt
AreRuns-update p f (w ∷ wes) keep grow a = ground (
  arith,
  keep w,
  grow w,
  find?-update (λ r. key_eq w.key r.key) p f wes (λ we. ap (key_eq w.key) (keep we)),
  ap (λ k. find? (λ r. key_eq k r.key) (update p f wes)) (keep w),
  AreRuns-update p f wes keep grow a.2,
)

-- The compare-and-set moves the counter of its run by the increment, and no other.
pub event_count-advance :
    (now increment : ℕ) (key j : RunKey) (wes : List WorkflowExecution) (we : WorkflowExecution)
    → AreRuns wes
    → find? (λ r. key_eq key r.key) wes ≡ some we
    → event_count j (update (has_version key we.next_event_id) (advance_row now increment) wes)
      ≡ (if key_eq key j then increment + event_count key wes else event_count j wes)
unfolding has_version advance_row
event_count-advance now increment key j wes we a h = elim (Bool-cases (key_eq key j)) [
  | inl same ↦
      rw (same, ← (key_eq_iff key j).0 same)
        (ground (
          arith,
          find?-update (λ r. key_eq key r.key) (has_version key we.next_event_id)
              (advance_row now increment) wes (λ r. refl),
          find?-holds (λ r. key_eq key r.key) wes we h,
          AreRuns-positive key wes we a h,
        ))
  | inr other ↦ rw other (untouched other (Option-cases (find? (λ r. key_eq j r.key) wes)))
]
  where
    moved :
        find?
          (λ r. key_eq j r.key)
          (update (has_version key we.next_event_id) (advance_row now increment) wes)
        ≡ elim (find? (λ r. key_eq j r.key) wes) [
          | none ↦ none
          | some x ↦
              some (if has_version key we.next_event_id x then advance_row now increment x else x)
        ]
    moved =
        find?-update (λ r. key_eq j r.key) (has_version key we.next_event_id)
          (advance_row now increment) wes (λ r. refl)

    untouched :
        key_eq key j ≡ false
        → (find? (λ r. key_eq j r.key) wes ≡ none)
          ⊎ ((x : WorkflowExecution) × (find? (λ r. key_eq j r.key) wes ≡ some x))
        → event_count j (update (has_version key we.next_event_id) (advance_row now increment) wes)
          ≡ event_count j wes
    untouched other (inl e) = rw moved (rw e)
    untouched other (inr (x, e)) =
        let here = find?-holds (λ r. key_eq j r.key) wes x e in
        let at_x = ap (key_eq key) ((key_eq_iff j x.key).0 here) in rw moved (rw e (ground arith))
