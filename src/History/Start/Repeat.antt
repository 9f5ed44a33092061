-- ===== src/History/Start/Repeat.antt =====
-- A client that repeats a start, because it did not see the answer, starts nothing twice.
use flowd_engine.Base.{ℕ, ◌≡◌, refl, sym, ap, subst, ◌∙◌, String, str_eq, arith, find?}
use flowd_engine.Base.Result.{Result, ok, err}
use flowd_engine.Db.Types.{Db}
use flowd_engine.Db.Namespaces.{get_namespace_by_name}
use flowd_engine.History.Start.{
  StartWorkflowExecutionParams, Started, new_run, same_run, start_tx, start_workflow_execution,
}
use flowd_engine.History.Start.Idempotence.{start_workflow_execution-replay}
use flowd_engine.History.Store.{Store, State, with_tx, with_namespace, get_namespace_id}
use flowd_engine.History.Start.Current.{IsCurrent, Answered, start_tx-Answered}

get_namespace_id-names :
    (db db' : Db) (name : String)
    → db'.namespaces ≡ db.namespaces
    → get_namespace_id db' name ≡ get_namespace_id db name
unfolding get_namespace_id get_namespace_by_name
get_namespace_id-names db db' name e = ground (arith, ap (find? (λ n. str_eq n.name name)) e)

-- A start that was answered with a run, repeated on the state that it left, at any time, is
-- answered with the same run, whatever id the repetition draws for a new one, and the repetition
-- changes nothing.
pub start_workflow_execution_repeat :
    (s : Store) (now later : ℕ) (run again : String) (p : StartWorkflowExecutionParams)
    (st st' : State) (answer : String)
    → start_workflow_execution s now run p st ≡ (ok answer, st')
    → start_workflow_execution s later again p st' ≡ (ok answer, st')
unfolding start_workflow_execution with_namespace with_tx Answered
start_workflow_execution_repeat s now later run again p st st' answer h =
    in_namespace (get_namespace_id st.db p.namespace) refl
  where
    repeated :
        (ns : ℕ)
        → get_namespace_id st'.db p.namespace ≡ ok ns
        → IsCurrent ns p answer st'.db
        → start_workflow_execution s later again p st' ≡ (ok answer, st')
    repeated ns n c =
        start_workflow_execution-replay s later ns again p st' c.row n c.found c.request
        ∙ ap (λ r. (ok r, st')) c.same_run_id

    in_tx :
        (ns : ℕ)
        → get_namespace_id st.db p.namespace ≡ ok ns
        → (r : Result (Started × Db)) → start_tx s now ns p run st.db ≡ r
        → start_workflow_execution s later again p st' ≡ (ok answer, st')
    in_tx ns n (err e) f = ground arith
    in_tx ns n (ok (new_run, db')) f =
        let (c, names) = start_tx-Answered ns p run s now st.db db' new_run f in
        let to : db' ≡ st'.db = ground arith in
        let same : run ≡ answer = ground arith in
        repeated ns
          (get_namespace_id-names st.db st'.db p.namespace (ap (λ d. d.namespaces) (sym to) ∙ names)
            ∙ n)
          (subst (λ r. IsCurrent ns p r st'.db) same (subst (IsCurrent ns p run) to c))
    in_tx ns n (ok (same_run id, db')) f =
        let c = start_tx-Answered ns p run s now st.db db' (same_run id) f in
        let to : st.db ≡ st'.db = ground arith in
        let same : id ≡ answer = ground arith in
        repeated ns (ap (λ d. get_namespace_id d p.namespace) (sym to) ∙ n)
          (subst (λ r. IsCurrent ns p r st'.db) same (subst (IsCurrent ns p id) to c))

    in_namespace :
        (r : Result ℕ)
        → get_namespace_id st.db p.namespace ≡ r
        → start_workflow_execution s later again p st' ≡ (ok answer, st')
    in_namespace (err e) n = ground arith
    in_namespace (ok ns) n = in_tx ns n (start_tx s now ns p run st.db) refl
