-- ===== src/History/Query/Pages.antt =====
-- What the pages of a history hold: the next events in a row, none skipped and none twice.
use flowd_engine.Base.{
  ℕ, zero, suc, ◌+◌, ◌-◌, ◌≤◌, ◌<◌, ◌≡◌, refl, sym, ap, ◌∙◌, ◌&&◌, List, [], ◌∷◌, map, arith, take,
  select, select-append, range_from, upto, upto-append-range, ltb,
}
use flowd_engine.Db.Types.{Db, RunKey, key_eq, HistoryRow}
use flowd_engine.Db.Events.{list_history_events, order_by_id, insert_by_id, rows_of}
use flowd_engine.History.Append.Contiguous.{IsContiguous, ids_of, event_count}

abbrev ids : List HistoryRow → List ℕ
ids rows = map (λ r. r.event_id) rows

-- Rows with ids in a row are in order.
order_by_id-range :
    (a k : ℕ) (rows : List HistoryRow) → ids rows ≡ range_from a k → order_by_id rows ≡ rows
unfolding order_by_id insert_by_id
order_by_id-range a k [] h = refl
order_by_id-range a zero (r ∷ rows) h = ground arith
order_by_id-range a (suc k) (r ∷ []) h = refl
order_by_id-range a (suc zero) (r ∷ q ∷ rows) h = ground arith
order_by_id-range a (suc (suc k)) (r ∷ q ∷ rows) h =
    ap (insert_by_id r) (order_by_id-range (suc a) (suc k) (q ∷ rows) (ground arith)) ∙ ground arith

ids-select :
    (key : RunKey) (after : ℕ) (rows : List HistoryRow)
    → ids (select (λ r. key_eq key r.key && ltb after r.event_id) rows)
      ≡ select (ltb after) (ids_of key rows)
unfolding rows_of select
ids-select key after [] = refl
ids-select key after (r ∷ rows) = ground (arith, ids-select key after rows)

select-upto_below : (after n : ℕ) → n ≤ after → select (ltb after) (upto n) ≡ []
unfolding select
select-upto_below after zero h = refl
select-upto_below after (suc n) h =
    select-append (ltb after) (upto n) (suc n ∷ [])
    ∙ ground (arith, select-upto_below after n (omega arith))

select-range : (after n k : ℕ) → after < n → select (ltb after) (range_from n k) ≡ range_from n k
unfolding select
select-range after n zero h = refl
select-range after n (suc k) h = ground (arith, select-range after (suc n) k (omega arith))

select-upto :
    (after n : ℕ) → after ≤ n → select (ltb after) (upto n) ≡ range_from (suc after) (n - after)
select-upto after n h =
    ap (λ l. select (ltb after) l)
      (ap upto {x = n} {y = (n - after) + after} (omega arith)
        ∙ sym (upto-append-range after (n - after)))
    ∙ select-append (ltb after) (upto after) (range_from (suc after) (n - after))
    ∙ ground (
      arith,
      select-upto_below after after (omega arith),
      select-range after (suc after) (n - after) (omega arith),
    )

ids-take : (n : ℕ) (rows : List HistoryRow) → ids (take n rows) ≡ take n (ids rows)
ids-take zero rows = refl
ids-take (suc n) [] = refl
ids-take (suc n) (r ∷ rows) = ap (◌∷◌ r.event_id) (ids-take n rows)

-- Of a run with contiguous history, the page after an event that the run has is the next events in
-- a row, in order, up to the page's limit or the last event.
pub list_history_events-ids :
    (key : RunKey) (after limit : ℕ) (db : Db)
    → IsContiguous db
    → after ≤ event_count key db.workflow_executions
    → map (λ r. r.event_id) (list_history_events key after limit db)
      ≡ take limit (range_from (suc after) (event_count key db.workflow_executions - after))
unfolding list_history_events
list_history_events-ids key after limit db c h =
    let rows = select (λ r. key_eq key r.key && ltb after r.event_id) db.history_events in
    let n = event_count key db.workflow_executions in
    let e : ids rows ≡ range_from (suc after) (n - after) =
      ids-select key after db.history_events
      ∙ ap (λ l. select (ltb after) l) (c.ids key)
      ∙ select-upto after n h in
    ap (λ l. ids (take limit l)) (order_by_id-range (suc after) (n - after) rows e)
    ∙ ids-take limit rows
    ∙ ap (take limit) e
