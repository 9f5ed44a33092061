-- ===== src/History/Notifier/Wakes.antt =====
-- A notification reaches the waiters of its queue, and nobody else.
use flowd_engine.Base.{
  ℕ, ◌≡◌, ap, Bool, true, false, List, [], ◌∷◌, ◌++◌, str_eq_iff, arith, select, delete, map, inr,
  ◌⊎◌, ◌↔◌,
}
use flowd_engine.Db.Leased.Laws.{In}
use flowd_engine.History.Notifier.{
  QueueKey, workflow_queue_key, activity_queue_key, queue_eq, Waiter, Notifier, notify,
}

queue_eq_iff : (a b : QueueKey) → (queue_eq a b ≡ true) ↔ (a ≡ b)
unfolding queue_eq
queue_eq_iff (workflow_queue_key n q) (workflow_queue_key m r) = ground (arith, str_eq_iff q r)
queue_eq_iff (activity_queue_key n q) (activity_queue_key m r) = ground (arith, str_eq_iff q r)
queue_eq_iff (workflow_queue_key n q) (activity_queue_key m r) = ground arith
queue_eq_iff (activity_queue_key n q) (workflow_queue_key m r) = ground arith

In-append-right : (xs ys : List ℕ) (n : ℕ) → In n ys → In n (xs ++ ys)
In-append-right [] ys n i = i
In-append-right (x ∷ xs) ys n i = inr (In-append-right xs ys n i)

In-map-select :
    (p : Waiter → Bool) (ws : List Waiter) (w : Waiter)
    → In w ws
    → p w ≡ true
    → In w.id (map (λ v. v.id) (select p ws))
unfolding select
In-map-select p [] w i h = ground arith
In-map-select p (v ∷ vs) w i h =
    ground (arith, In-map-select p vs w, ap p {x = w} {y = v}, ap (λ u. u.id) {x = w} {y = v})

In-delete :
    (p : Waiter → Bool) (ws : List Waiter) (w : Waiter)
    → In w (delete p ws) ↔ (In w ws × (p w ≡ false))
unfolding delete
In-delete p [] w = ground arith
In-delete p (v ∷ vs) w = ground (arith, In-delete p vs w, ap p {x = w} {y = v})

-- A waiter that is registered is, after a notification, signalled if the notification is for its
-- queue, and else still registered.
pub notify_complete :
    (key : QueueKey) (n : Notifier) (w : Waiter)
    → In w n.waiters
    → ((w.queue ≡ key) × In w.id (notify key n).signalled)
      ⊎ (¬ (w.queue ≡ key) × In w (notify key n).waiters)
unfolding notify
notify_complete key n w i = ground (
  arith,
  queue_eq_iff w.queue key,
  In-map-select (λ v. queue_eq v.queue key) n.waiters w i,
  In-append-right n.signalled (map (λ v. v.id) (select (λ v. queue_eq v.queue key) n.waiters)) w.id,
  In-delete (λ v. queue_eq v.queue key) n.waiters w,
)
