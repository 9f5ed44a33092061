-- ===== src/History/Query/Paging.antt =====
-- GetHistory page by page: the token of a page leads to the event after its last one.
use flowd_engine.Base.{
  ℕ, zero, suc, ◌+◌, ◌-◌, ◌≤◌, ◌<◌, ◌≡◌, refl, sym, ap, ◌∙◌, inl, inr, Option, none, some, List, [],
  ◌∷◌, map, length, take, range_from, arith, Bool-cases, ◌==◌, subst, Bool, if◌then◌else◌,
}
use flowd_engine.Base.Result.{Result, ok, err}
use flowd_engine.Proto.{External, Bytes, HistoryEventType, Attributes}
use flowd_engine.Db.Types.{Db, RunKey, HistoryRow}
use flowd_engine.Db.Events.{list_history_events}
use flowd_engine.History.Append.Contiguous.{IsContiguous, event_count}
use flowd_engine.History.Dispatch.Decode.{
  HistoryEvent, with_attributes, decode_typed, decode_history_event, decode_all,
}
use flowd_engine.History.Query.{
  uint64, big_endian_from, put_uint64, page_size_or_default, after_of, last_id, next_token,
  get_history_page,
}
use flowd_engine.History.Query.Pages.{list_history_events-ids}

after_of-put_uint64 : (n : ℕ) → n < 9223372036854775808 → after_of (put_uint64 n) ≡ n
unfolding uint64 big_endian_from put_uint64
after_of-put_uint64 n h = let e : uint64 (put_uint64 n) ≡ n = omega arith in ground (arith, e)

abbrev pub ids_of_events : List HistoryEvent → List ℕ
ids_of_events events = map (λ e. e.event_id) events

with_attributes-id :
    (row : HistoryRow) (o : Option Attributes) (e : HistoryEvent)
    → with_attributes row o ≡ ok e
    → e.event_id ≡ row.event_id
with_attributes-id row none e h = absurd (ground (arith, h))
with_attributes-id row (some a) e h = ground (arith, h)

decode_history_event-id :
    (ext : External) (row : HistoryRow) (e : HistoryEvent)
    → decode_history_event ext row ≡ ok e
    → e.event_id ≡ row.event_id
unfolding decode_history_event
decode_history_event-id ext row e h = split row.event_type h
  where
    split : (type : HistoryEventType) → decode_typed ext row type ≡ ok e → e.event_id ≡ row.event_id
    split type h = ground (arith, with_attributes-id row (ext.unmarshal type row.attributes) e, h)

decode_all-ids :
    (ext : External) (rows : List HistoryRow) (events : List HistoryEvent)
    → decode_all ext rows ≡ ok events
    → ids_of_events events ≡ map (λ r. r.event_id) rows
unfolding decode_all
decode_all-ids ext [] events h = ground arith
decode_all-ids ext (r ∷ rs) events h =
    split (decode_history_event ext r) (decode_all ext rs) refl refl
      (λ evs. decode_all-ids ext rs evs)
  where
    split :
        (o : Result HistoryEvent) (q : Result (List HistoryEvent))
        → decode_history_event ext r ≡ o
        → decode_all ext rs ≡ q
        → ((evs : List HistoryEvent)
            → decode_all ext rs ≡ ok evs
            → ids_of_events evs ≡ map (λ r. r.event_id) rs)
        → ids_of_events events ≡ map (λ r. r.event_id) (r ∷ rs)
    split (err x) q e f ih = absurd (ground arith)
    split (ok ev) (err x) e f ih = absurd (ground arith)
    split (ok ev) (ok evs) e f ih = ground (arith, decode_history_event-id ext r ev e, ih evs f)

length-ids : (events : List HistoryEvent) → length (ids_of_events events) ≡ length events
length-ids [] = refl
length-ids (e ∷ es) = ap suc (length-ids es)

length-take-range :
    (p b m : ℕ)
    → (p ≤ m → length (take p (range_from b m)) ≡ p)
      × (m < p → length (take p (range_from b m)) ≡ m)
length-take-range zero b m = (λ h. refl, λ h. absurd (omega (arith, h)))
length-take-range (suc p) b zero = (λ h. absurd (omega (arith, h)), λ h. refl)
length-take-range (suc p) b (suc m) =
    let (x, y) = length-take-range p (suc b) m in
    (λ h. ap suc (x (omega (arith, h))), λ h. ap suc (y (omega (arith, h))))

last_id-range :
    (p b m d : ℕ) (events : List HistoryEvent)
    → ids_of_events events ≡ take (suc p) (range_from b m)
    → suc p ≤ m
    → last_id d events ≡ b + p
last_id-range p b zero d events h le = absurd (omega (arith, le))
last_id-range p b (suc m) d [] h le = absurd (ground (arith, h))
last_id-range zero b (suc m) d (e ∷ []) h le = ground (arith, h)
last_id-range zero b (suc m) d (e ∷ f ∷ es) h le = absurd (ground (arith, h))
last_id-range (suc p) b (suc m) d (e ∷ es) h le =
    let tail : ids_of_events es ≡ take (suc p) (range_from (suc b) m) = ground (arith, h) in
    omega (arith, last_id-range p (suc b) m e.event_id es tail (omega (arith, le)))

-- What a page says of the rest of the history: its token leads to the event after the page, and
-- without one the page ends with the last of the `n` events.
abbrev pub IsFollowed : ℕ → ℕ → ℕ → List HistoryEvent → Option Bytes → Type 0
IsFollowed after size n events (some token) = (after + size ≤ n) × (after_of token ≡ after + size)
IsFollowed after size n events none = after + length events ≡ n

token-IsFollowed :
    (after p n : ℕ) (events : List HistoryEvent)
    → n < 9223372036854775808
    → after ≤ n
    → ids_of_events events ≡ take (suc p) (range_from (suc after) (n - after))
    → IsFollowed after (suc p) n events (next_token (suc p) events)
token-IsFollowed after p n events small le h =
    let len : length events ≡ length (take (suc p) (range_from (suc after) (n - after))) =
      sym (length-ids events) ∙ ap length h in
    let (x, y) = length-take-range (suc p) (suc after) (n - after) in
    let answer : Bool → Option Bytes =
      λ b. if b then some (put_uint64 (last_id 0 events)) else none in
    elim (Bool-cases (length events == suc p)) [
      | inl full ↦
          let fits : suc p ≤ n - after = ground (arith, len, x, y) in
          let last : last_id 0 events ≡ after + suc p =
            omega (arith, last_id-range p (suc after) (n - after) 0 events h fits) in
          let token : after_of (put_uint64 (last_id 0 events)) ≡ after + suc p =
            after_of-put_uint64 (last_id 0 events) (omega (arith, last, fits, small, le)) ∙ last in
          subst (λ b. IsFollowed after (suc p) n events (answer b)) (sym full)
            (omega (arith, fits, le), token)
      | inr short ↦
          subst (λ b. IsFollowed after (suc p) n events (answer b)) (sym short)
            (ground (arith, len, x, y, le))
    ]

page_size-positive : (size : ℕ) → page_size_or_default size ≡ suc (page_size_or_default size - 1)
page_size-positive zero = refl
page_size-positive (suc n) = omega arith

-- A page of a contiguous history with fewer than 2^63 events, asked for with a token of an event
-- that the run has, or with none: if it can be decoded, it holds the next events in a row, up to
-- the page's size. If it comes with a token, that is the token of its last event, so that the next
-- page begins with the event after it; without one the page ends with the history.
pub get_history_page-IsFollowed :
    (ext : External) (key : RunKey) (size : ℕ) (token : Bytes) (db : Db)
    (events : List HistoryEvent) (next : Option Bytes)
    → let n = event_count key db.workflow_executions in
      let after = after_of token in
      IsContiguous db
      → n < 9223372036854775808
      → after ≤ n
      → get_history_page ext key size token db ≡ ok (events, next)
      → (ids_of_events events
          ≡ take (page_size_or_default size) (range_from (suc after) (n - after)))
        × IsFollowed after (page_size_or_default size) n events next
unfolding get_history_page
get_history_page-IsFollowed ext key size token db events next c small le h =
    split (decode_all ext (list_history_events key after p db)) refl
  where
    after : ℕ
    after = after_of token

    p : ℕ
    p = page_size_or_default size

    n : ℕ
    n = event_count key db.workflow_executions

    split :
        (o : Result (List HistoryEvent))
        → decode_all ext (list_history_events key after p db) ≡ o
        → (ids_of_events events ≡ take p (range_from (suc after) (n - after)))
          × IsFollowed after p n events next
    split (err e) f = absurd (ground arith)
    split (ok evs) f =
        let ids =
          decode_all-ids ext (list_history_events key after p db) evs f
          ∙ list_history_events-ids key after p db c le in
        let same : evs ≡ events = ground arith in
        let given : next_token p evs ≡ next = ground arith in
        let q : p ≡ suc (p - 1) = page_size-positive size in
        let followed : IsFollowed after p n evs (next_token p evs) =
          subst (λ k. IsFollowed after k n evs (next_token k evs)) (sym q)
            (token-IsFollowed after (p - 1) n evs small le
              (ids ∙ ap (λ k. take k (range_from (suc after) (n - after))) q)) in
        (
          subst (λ l. ids_of_events l ≡ take p (range_from (suc after) (n - after))) same ids,
          subst (λ t. IsFollowed after p n events t) given
              (subst (λ l. IsFollowed after p n l (next_token p evs)) same followed),
        )
