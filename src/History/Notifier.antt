-- ===== src/History/Notifier.antt =====
-- internal/history/notifier.go: the waiters of the long polls, by task queue.
pub mod Wakes
use flowd_engine.Base.{
  ℕ, String, str_eq, Bool, true, false, ◌&&◌, ◌==◌, List, [], ◌∷◌, ◌++◌, select, delete, map,
}

-- "wf/<nsID>/<queue>" and "act/<nsID>/<queue>": distinct data give distinct keys.
pub data QueueKey : Type 0 where
  workflow_queue_key : ℕ → String → QueueKey
  activity_queue_key : ℕ → String → QueueKey

unfoldable pub queue_eq : QueueKey → QueueKey → Bool
queue_eq (workflow_queue_key n q) (workflow_queue_key m r) = n == m && str_eq q r
queue_eq (activity_queue_key n q) (activity_queue_key m r) = n == m && str_eq q r
queue_eq _ _ = false

-- A waiter's channel has room for one value; `id` tells the channels apart.
pub record Waiter : Type 0 where
  pub queue : QueueKey
  pub id : ℕ

-- `signalled` are the channels that hold a value.
pub record Notifier : Type 0 where
  pub waiters : List Waiter
  pub signalled : List ℕ

unfoldable pub register : QueueKey → ℕ → Notifier → Notifier
register key id n = record n { waiters = n.waiters ++ record { queue = key; id = id } ∷ [] }

-- The first waiter of the key with that channel leaves.
unfoldable pub remove_waiter : QueueKey → ℕ → List Waiter → List Waiter
unfolding queue_eq
remove_waiter key id [] = []
remove_waiter key id (w ∷ ws) = elim (queue_eq w.queue key && w.id == id) [
  | true ↦ ws
  | false ↦ w ∷ remove_waiter key id ws
]

unfoldable pub cancel : QueueKey → ℕ → Notifier → Notifier
unfolding remove_waiter
cancel key id n = record n { waiters = remove_waiter key id n.waiters }

-- Every waiter of the key leaves and is sent a value.
unfoldable pub notify : QueueKey → Notifier → Notifier
unfolding queue_eq
notify key n = record {
  waiters = delete (λ w. queue_eq w.queue key) n.waiters;
  signalled = n.signalled ++ map (λ w. w.id) (select (λ w. queue_eq w.queue key) n.waiters);
}
