-- ===== src/History/Contiguity.antt =====
-- Every transaction of internal/history keeps the histories contiguous: the rules, and the statements.
pub mod Statements
pub mod Handlers
pub mod Queues
use flowd_engine.Base.{
  ℕ, zero, suc, ◌+◌, ◌-◌, ◌≤◌, ◌≡◌, refl, sym, ap, ◌∙◌, Bool, true, false, Option, none, some, List,
  [], ◌∷◌, subst, inl, inr, ◌⊎◌, ◌++◌, String, arith, find?, find?-append-none, find?-append-some,
  find?-update, update, if◌then◌else◌, Option-cases, Bool-cases, upto,
}
use flowd_engine.Base.Result.{
  unique_violation, Error, Result, ok, err, Tx, ◌>>=◌, ◌>>◌, pure, fail, or_fail, nonzero, renamed,
}
use flowd_engine.Db.Types.{
  Db, RunKey, key_eq, key_eq_iff, WorkflowExecution, ExecutionStatus, CurrentExecution,
}
use flowd_engine.Db.Executions.{
  NewExecution, new_row, find_execution, create_workflow_execution, close_workflow_execution,
  set_sticky_execution, insert_current_execution, replace_current_execution,
}
use flowd_engine.History.Append.Contiguous.{
  ids_of, events_before, event_count, AreRuns, IsContiguous, AreRuns-update,
}
use flowd_engine.History.Append.Preserve.{Leaves}
use flowd_engine.History.Keeps.{Keeps}

AreRuns-append :
    (wes : List WorkflowExecution) (w : WorkflowExecution)
    → find? (λ r. key_eq w.key r.key) wes ≡ none
    → 1 ≤ w.next_event_id
    → AreRuns wes
    → AreRuns (wes ++ w ∷ [])
unfolding find?
AreRuns-append [] w h p a = ground arith
AreRuns-append (x ∷ wes) w h p a = ground (
  arith,
  AreRuns-append wes w,
  find?-append-none (λ r. key_eq x.key r.key) wes (w ∷ []),
  key_eq_iff x.key w.key,
  key_eq_iff w.key x.key,
)

-- A new run has no events yet, which is what its counter says.
event_count-create :
    (now : ℕ) (key j : RunKey) (p : NewExecution) (wes : List WorkflowExecution)
    → find? (λ r. key_eq key r.key) wes ≡ none
    → event_count j (wes ++ new_row now key p ∷ []) ≡ event_count j wes
unfolding find? new_row
event_count-create now key j p wes h = split (Option-cases (find? (λ r. key_eq j r.key) wes))
  where
    split :
        (find? (λ r. key_eq j r.key) wes ≡ none)
          ⊎ ((x : WorkflowExecution) × (find? (λ r. key_eq j r.key) wes ≡ some x))
        → event_count j (wes ++ new_row now key p ∷ []) ≡ event_count j wes
    split (inl e) =
        ground (arith, find?-append-none (λ r. key_eq j r.key) wes (new_row now key p ∷ []) e)
    split (inr (x, e)) =
        ground (arith, find?-append-some (λ r. key_eq j r.key) wes (new_row now key p ∷ []) x e)

pub create_workflow_execution-Keeps :
    (now : ℕ) (key : RunKey) (p : NewExecution)
    → Keeps IsContiguous (create_workflow_execution now key p)
unfolding create_workflow_execution find_execution
create_workflow_execution-Keeps now key p = record {
  leaves = λ db c. split db c (find? (λ we. key_eq key we.key) db.workflow_executions) refl;
}
  where
    split :
        (db : Db)
        → IsContiguous db
        → (o : Option WorkflowExecution)
        → find? (λ we. key_eq key we.key) db.workflow_executions ≡ o
        → Leaves IsContiguous (elim o [
          | some _ ↦ err unique_violation
          | none ↦ ok (
            tt,
            record db { workflow_executions = db.workflow_executions ++ new_row now key p ∷ [] },
          )
        ])
    split db c (some w) e = tt
    split db c none e = record {
      runs =
          AreRuns-append db.workflow_executions (new_row now key p) (unfold new_row in e)
            (unfold new_row in omega arith) c.runs;
      ids = λ j. c.ids j ∙ sym (ap upto (event_count-create now key j p db.workflow_executions e));
    }

-- Columns other than the key and the counter do not matter.
pub update-IsContiguous :
    (p : WorkflowExecution → Bool) (f : WorkflowExecution → WorkflowExecution) (db : Db)
    → ((we : WorkflowExecution) → (f we).key ≡ we.key)
    → ((we : WorkflowExecution) → (f we).next_event_id ≡ we.next_event_id)
    → IsContiguous db
    → IsContiguous (record db { workflow_executions = update p f db.workflow_executions })
update-IsContiguous p f db key next c = record {
  runs = AreRuns-update p f db.workflow_executions key (λ we h. ground (arith, next we)) c.runs;
  ids = λ j.
      c.ids j ∙ sym (ap upto (same j (find? (λ r. key_eq j r.key) db.workflow_executions) refl));
}
  where
    same :
        (j : RunKey) (o : Option WorkflowExecution)
        → find? (λ r. key_eq j r.key) db.workflow_executions ≡ o
        → event_count j (update p f db.workflow_executions) ≡ event_count j db.workflow_executions
    same j none e = ground (
      arith,
      find?-update (λ r. key_eq j r.key) p f db.workflow_executions (λ r. ap (key_eq j) (key r)),
    )
    same j (some w) e = ground (
      arith,
      next w,
      find?-update (λ r. key_eq j r.key) p f db.workflow_executions (λ r. ap (key_eq j) (key r)),
    )

pub close_workflow_execution-Keeps :
    (now : ℕ) (key : RunKey) (status : ExecutionStatus)
    → Keeps IsContiguous (close_workflow_execution now key status)
unfolding close_workflow_execution
close_workflow_execution-Keeps now key status = record {
  leaves = λ db c.
      update-IsContiguous (λ we. key_eq key we.key)
        (λ we. record we { status = status; close_time = some now; updated_at = now }) db
        (λ we. refl) (λ we. refl) c;
}

pub set_sticky_execution-Keeps :
    (now : ℕ) (key : RunKey) (identity : Option String) (expires_at : Option ℕ)
    → Keeps IsContiguous (set_sticky_execution now key identity expires_at)
unfolding set_sticky_execution
set_sticky_execution-Keeps now key identity expires_at = record {
  leaves = λ db c.
      update-IsContiguous (λ we. key_eq key we.key)
        (λ we. record we {
          sticky_worker_identity = identity;
          sticky_expires_at = expires_at;
          updated_at = now;
        })
        db (λ we. refl) (λ we. refl) c;
}

-- So do the statements on the other tables.
pub elsewhere :
    (db db' : Db)
    → db'.workflow_executions ≡ db.workflow_executions
    → db'.history_events ≡ db.history_events
    → IsContiguous db
    → IsContiguous db'
elsewhere db db' w h c = record {
  runs = subst AreRuns (sym w) c.runs;
  ids = λ j. ap (ids_of j) h ∙ c.ids j ∙ sym (ap (λ l. upto (event_count j l)) w);
}
