-- ===== src/Sdk/Worker/Unseen.antt =====
-- eventsAfter on a history whose ids count up.
use flowd_engine.Base.{ℕ, suc, ◌≤◌, ◌≡◌, refl, some, List, [], ◌∷◌, ◌++◌, arith}
use flowd_engine.History.Dispatch.Decode.{HistoryEvent}
use flowd_engine.Sdk.Worker.{events_after, newest_event_id}

-- The ids of events in a row, from `m` on.
abbrev pub CountFrom : ℕ → List HistoryEvent → Type 0
CountFrom m [] = Unit
CountFrom m (ev ∷ evs) = (ev.event_id ≡ m) × CountFrom (suc m) evs

newest_event_id-le :
    (m last : ℕ) (ev : HistoryEvent) (xs ys : List HistoryEvent)
    → CountFrom m ((ev ∷ xs) ++ ys)
    → newest_event_id (ev ∷ xs) ≡ some last
    → m ≤ last
unfolding newest_event_id
newest_event_id-le m last ev [] ys (i, h) q = ground (arith, i, q)
newest_event_id-le m last ev (x ∷ xs) ys (i, h) q =
    omega (arith, newest_event_id-le (suc m) last x xs ys h q)

events_after_all : (m : ℕ) (ys : List HistoryEvent) → CountFrom (suc m) ys → events_after ys m ≡ ys
unfolding events_after
events_after_all m [] h = refl
events_after_all m (y ∷ ys) (i, h) = ground (arith, i)

-- After events whose ids count up have been seen, the events after the last one seen are exactly
-- the rest of the history.
pub events_after-append :
    (m last : ℕ) (xs ys : List HistoryEvent)
    → CountFrom m (xs ++ ys)
    → newest_event_id xs ≡ some last
    → events_after (xs ++ ys) last ≡ ys
unfolding events_after newest_event_id
events_after-append m last [] ys h q = ground (arith, q)
events_after-append m last (ev ∷ []) ys (i, h) q = ground (arith, i, q, events_after_all m ys h)
events_after-append m last (ev ∷ x ∷ xs) ys (i, h) q = ground (
  arith,
  i,
  newest_event_id-le (suc m) last x xs ys h q,
  events_after-append (suc m) last (x ∷ xs) ys h q,
)
