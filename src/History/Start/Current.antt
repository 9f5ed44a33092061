-- ===== src/History/Start/Current.antt =====
-- What is the current run of a workflow after a start, on each of its branches.
use flowd_engine.Base.{
  ℕ, ◌≡◌, refl, sym, ap, subst, ◌∙◌, Option, none, some, List, [], ◌∷◌, ◌++◌, String, str_eq,
  str_eq_iff, str_eq_refl, arith, find?, find?-append-none, update, find?-update, find?-holds, ◌==◌,
  if◌then◌else◌, inl, inr, ◌⊎◌, Bool-cases,
}
use flowd_engine.Base.Result.{Error, Result, ok, err, no_rows, Tx, pure, >>=-eq-ok}
use flowd_engine.Base.Result
use flowd_engine.Db.Types.{Db, CurrentExecution}
use flowd_engine.Db.Executions.{
  find_current, is_current, insert_current_execution, get_current_execution, get_workflow_execution,
  replace_current_execution,
}
use flowd_engine.History.Append.Preserve.{Leaves}
use flowd_engine.History.Frames.{Others, begin_run-Others}
use flowd_engine.History.Start.{
  StartWorkflowExecutionParams, Started, new_run, same_run, take_over, begin_run, begin_unless,
  start_tx, current_row,
}
use flowd_engine.History.Store.{Store}

-- The request's run is the current one.
pub record IsCurrent (ns : ℕ) (p : StartWorkflowExecutionParams) (run_id : String) (db : Db)
    : Type 0 where
  pub row : CurrentExecution
  pub found : find_current ns p.workflow_id db ≡ some row
  pub request : row.create_request_id ≡ p.request_id
  pub same_run_id : row.run_id ≡ run_id

module _ (ns : ℕ) (p : StartWorkflowExecutionParams) (run : String) where
  find?-inserted :
      (cs : List CurrentExecution)
      → find? (is_current ns p.workflow_id) cs ≡ none
      → find? (is_current ns p.workflow_id) (cs ++ current_row ns p run ∷ [])
        ≡ some (current_row ns p run)
  unfolding find? is_current
  find?-inserted cs e =
      find?-append-none (is_current ns p.workflow_id) cs (current_row ns p run ∷ []) e
      ∙ ground (arith, str_eq_refl p.workflow_id)

  find?-replaced :
      (cs : List CurrentExecution) (c : CurrentExecution)
      → find? (is_current ns p.workflow_id) cs ≡ some c
      → find? (is_current ns p.workflow_id) (
          update
            (is_current ns p.workflow_id)
            (λ old. record old { run_id = run; create_request_id = p.request_id })
            cs)
        ≡ some (record c { run_id = run; create_request_id = p.request_id })
  unfolding is_current
  find?-replaced cs c e = ground (
    arith,
    find?-update (is_current ns p.workflow_id) (is_current ns p.workflow_id)
        (λ old. record old { run_id = run; create_request_id = p.request_id }) cs (λ x. refl),
    find?-holds (is_current ns p.workflow_id) cs c e,
  )

  insert_current_execution-cases :
      (db db' : Db) (n : ℕ)
      → insert_current_execution (current_row ns p run) db ≡ ok (n, db')
      → ((n ≡ 0) × (db' ≡ db))
        ⊎ ((n ≡ 1) × IsCurrent ns p run db' × (db'.namespaces ≡ db.namespaces))
  unfolding insert_current_execution find_current
  insert_current_execution-cases db db' n h = split (find_current ns p.workflow_id db) refl
    where
      stored : Db
      stored = record db { current_executions = db.current_executions ++ current_row ns p run ∷ [] }

      stored-IsCurrent : find_current ns p.workflow_id db ≡ none → IsCurrent ns p run stored
      stored-IsCurrent e = record {
        row = current_row ns p run;
        found = find?-inserted db.current_executions e;
        request = refl;
        same_run_id = refl;
      }

      split :
          (o : Option CurrentExecution)
          → find_current ns p.workflow_id db ≡ o
          → ((n ≡ 0) × (db' ≡ db))
            ⊎ ((n ≡ 1) × IsCurrent ns p run db' × (db'.namespaces ≡ db.namespaces))
      split (some c) e = inl (ground arith)
      split none e =
          let same : db' ≡ stored = ground arith in
          inr (
            ground arith,
            subst (IsCurrent ns p run) (sym same) (stored-IsCurrent e),
            ap (λ d. d.namespaces) same,
          )

  -- A replay reads only; else the new run becomes the current one.
  unfoldable Taken : Db → Db → Option String → Type 0
  Taken db db' (some id) = (db' ≡ db) × IsCurrent ns p id db
  Taken db db' none = IsCurrent ns p run db' × (db'.namespaces ≡ db.namespaces)

  take_over-Taken :
      (db db' : Db) (o : Option String) → take_over ns p run db ≡ ok (o, db') → Taken db db' o
  unfolding take_over get_current_execution get_workflow_execution replace_current_execution
      find_current Taken
  take_over-Taken db db' o h =
      split (find? (is_current ns p.workflow_id) db.current_executions) refl
    where
      replaced : Db
      replaced = record db {
        current_executions =
            update (is_current ns p.workflow_id)
              (λ old. record old { run_id = run; create_request_id = p.request_id })
              db.current_executions;
      }

      split :
          (c : Option CurrentExecution)
          → find? (is_current ns p.workflow_id) db.current_executions ≡ c
          → Taken db db' o
      split none e = ground arith
      split (some c) e = elim (Bool-cases (str_eq c.create_request_id p.request_id)) [
        | inl same ↦
            let out : o ≡ some c.run_id = ground arith in
            subst (Taken db db') (sym out) (
              ground arith,
              record {
                row = c;
                found = e;
                request = (str_eq_iff c.create_request_id p.request_id).0 same;
                same_run_id = refl;
              },
            )
        | inr other ↦
            let out : o ≡ none = ground arith in
            let to : db' ≡ replaced = ground arith in
            subst (Taken db db') (sym out) (
              subst (IsCurrent ns p run) (sym to) (record {
                row = record c { run_id = run; create_request_id = p.request_id };
                found = find?-replaced db.current_executions c e;
                request = refl;
                same_run_id = refl;
              }),
              ap (λ d. d.namespaces) to,
            )
      ]

  begin_run-IsCurrent :
      (s : Store) (now : ℕ) (db db' : Db)
      → begin_run s now ns p run db ≡ ok (tt, db')
      → IsCurrent ns p run db
      → IsCurrent ns p run db' × (db'.namespaces ≡ db.namespaces)
  unfolding find_current
  begin_run-IsCurrent s now db db' h c =
      let kept : Others db.namespaces db.current_executions db.activity_tasks db' =
        subst (Leaves (Others db.namespaces db.current_executions db.activity_tasks)) h (
          (begin_run-Others db.namespaces db.current_executions db.activity_tasks s now ns p
              run).leaves
            db (record { namespaces = refl; current_executions = refl; activity_tasks = refl })) in
      (
        record {
          row = c.row;
          found = ap (find? (is_current ns p.workflow_id)) kept.current_executions ∙ c.found;
          request = c.request;
          same_run_id = c.same_run_id;
        },
        kept.namespaces,
      )

  -- Whatever a start decides, the run that it answers with is the current one.
  unfoldable pub Answered : Db → Db → Started → Type 0
  Answered db db' new_run = IsCurrent ns p run db' × (db'.namespaces ≡ db.namespaces)
  Answered db db' (same_run id) = IsCurrent ns p id db

  begin_unless-Answered :
      (s : Store) (now : ℕ) (db mid db' : Db) (o : Option String) (r : Started)
      → begin_unless s now ns p run o mid ≡ ok (r, db')
      → Taken db mid o
      → Answered db db' r
  unfolding Answered Taken
  begin_unless-Answered s now db mid db' (some id) r h t =
      let out : r ≡ same_run id = ground arith in subst (Answered db db') (sym out) t.1
  begin_unless-Answered s now db mid db' none r h t =
      let (u, last, e, f) =
        >>=-eq-ok (begin_run s now ns p run) (λ _. pure new_run) mid (r, db') h in
      let out : r ≡ new_run = ground arith in
      let to : last ≡ db' = ground arith in
      let (c, n) = begin_run-IsCurrent s now mid last e t.0 in
      subst (Answered db db') (sym out)
        (subst (IsCurrent ns p run) to c, ap (λ d. d.namespaces) (sym to) ∙ n ∙ t.1)

  unfoldable replay_or_take : ℕ → Tx Db (Option String)
  replay_or_take n = if n == 0 then take_over ns p run else pure none

  replay_or_take-Taken :
      (db mid mid' : Db) (n : ℕ) (o : Option String)
      → ((n ≡ 0) × (mid ≡ db))
        ⊎ ((n ≡ 1) × IsCurrent ns p run mid × (mid.namespaces ≡ db.namespaces))
      → replay_or_take n mid ≡ ok (o, mid')
      → Taken db mid' o
  unfolding replay_or_take Taken
  replay_or_take-Taken db mid mid' n o (inl (z, e)) h =
      subst (λ d. Taken d mid' o) e
        (take_over-Taken mid mid' o (ap (λ k. replay_or_take k mid) (sym z) ∙ h))
  replay_or_take-Taken db mid mid' n o (inr (one, c, e)) h =
      let h1 : pure {S = Db} {A = Option String} none mid ≡ ok (o, mid') =
        ap (λ k. replay_or_take k mid) (sym one) ∙ h in
      let out : o ≡ none = ground arith in
      let to : mid ≡ mid' = ground arith in
      subst (Taken db mid') (sym out)
        (subst (IsCurrent ns p run) to c, ap (λ d. d.namespaces) (sym to) ∙ e)

  pub start_tx-Answered :
      (s : Store) (now : ℕ) (db db' : Db) (r : Started)
      → start_tx s now ns p run db ≡ ok (r, db')
      → Answered db db' r
  unfolding start_tx replay_or_take
  start_tx-Answered s now db db' r h =
      let rest : Option String → Tx Db Started = begin_unless s now ns p run in
      let (n, d1, e1, h1) =
        >>=-eq-ok (insert_current_execution (current_row ns p run))
          (λ n. Result.◌>>=◌ (replay_or_take n) rest) db (r, db') h in
      let (o, d2, e2, h2) = >>=-eq-ok (replay_or_take n) rest d1 (r, db') h1 in
      begin_unless-Answered s now db d2 db' o r h2
        (replay_or_take-Taken db d1 d2 n o (insert_current_execution-cases db d1 n e1) e2)
