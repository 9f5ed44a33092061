-- ===== src/History/Listing/Following.antt =====
-- The page after a row of the list of executions.
use flowd_engine.Base.{
  ℕ, ◌≡◌, sym, ap, ◌∙◌, subst, false, some, List, ◌∷◌, ◌++◌, length, take, ◌==◌, select, arith,
}
use flowd_engine.Base.Ordered.{
  sort_desc, IsDesc, AreComparable, IsOrder, sort_desc-IsDesc, select-sort_desc, select-select,
  select-after,
}
use flowd_engine.Base.Result.{ok}
use flowd_engine.Db.Types.{Db, WorkflowExecution}
use flowd_engine.History.Store.{State, with_namespace, get_namespace_id}
use flowd_engine.History.Listing.{
  ListLibrary, ListParams, ListWorkflowsCursor, cursor_of, row_less, matches, list_rows, list_page,
  page_at, list_page_size, cursor_from, list_workflow_executions,
}

-- The executions that the filters let through, in the order of the list.
abbrev pub listed_rows : ListLibrary → ℕ → ListParams → Db → List WorkflowExecution
listed_rows lib ns p db = sort_desc (row_less lib) (select (matches ns p) db.workflow_executions)

-- A cursor survives its JSON, which is not empty.
pub record IsKept (lib : ListLibrary) (c : ListWorkflowsCursor) : Type 0 where
  pub round_trip : lib.of_json (lib.to_json c) ≡ some c
  pub not_empty : (length (lib.to_json c) == 0) ≡ false

cursor_read :
    (lib : ListLibrary) (c : ListWorkflowsCursor)
    → IsKept lib c
    → cursor_from lib (lib.to_json c) ≡ ok (some c)
unfolding cursor_from
cursor_read lib c j = ground (arith, j.round_trip, j.not_empty)

list_rows-after :
    (lib : ListLibrary) (ns : ℕ) (p : ListParams) (n : ℕ) (db : Db) (xs : List WorkflowExecution)
    (l : WorkflowExecution) (ys : List WorkflowExecution)
    → IsOrder (row_less lib)
    → AreComparable (row_less lib) (select (matches ns p) db.workflow_executions)
    → listed_rows lib ns p db ≡ xs ++ l ∷ ys
    → list_rows lib ns p (some (cursor_of l)) n db ≡ take n ys
unfolding list_rows
list_rows-after lib ns p n db xs l ys o c h =
    let lt = row_less lib in
    let rows = select (matches ns p) db.workflow_executions in
    ap (take n) (
      ap (sort_desc lt) (sym (select-select lt (λ r. lt r l) (matches ns p) db.workflow_executions))
      ∙ sym (select-sort_desc lt o (λ r. lt r l) rows c)
      ∙ ap (select (λ r. lt r l)) h
      ∙ select-after lt o xs l ys (subst (IsDesc lt) h (sort_desc-IsDesc lt o rows c)))

-- In a namespace that exists, the page that is asked for with the token of a row lists the
-- executions that come after the row among those that the filters let through, newest first, as
-- many as the page size allows. Rows are compared by a strict order that compares any two of
-- those, and the row's cursor survives its JSON.
pub list_workflow_executions-after :
    (lib : ListLibrary) (p : ListParams) (ns : ℕ) (st : State) (xs : List WorkflowExecution)
    (l : WorkflowExecution) (ys : List WorkflowExecution)
    → get_namespace_id st.db p.namespace ≡ ok ns
    → IsKept lib (cursor_of l)
    → IsOrder (row_less lib)
    → AreComparable (row_less lib) (select (matches ns p) st.db.workflow_executions)
    → listed_rows lib ns p st.db ≡ xs ++ l ∷ ys
    → list_workflow_executions lib (record p { page_token = lib.to_json (cursor_of l) }) st
      ≡ (ok (list_page lib (list_page_size p.page_size) (take (list_page_size p.page_size) ys)), st)
unfolding list_workflow_executions with_namespace matches
list_workflow_executions-after lib p ns st xs l ys h j o c q =
    rw (h, list_workflow_executions, with_namespace)
      (ap (λ r. (page_at lib ns (record p { page_token = lib.to_json (cursor_of l) }) st.db r, st))
          (cursor_read lib (cursor_of l) j)
        ∙ ap (λ rows. (ok (list_page lib (list_page_size p.page_size) rows), st))
            (list_rows-after lib ns p (list_page_size p.page_size) st.db xs l ys o c q))
