-- ===== src/Scenarios/Requests.antt =====
-- The theorems on requests: repeated starts, retries, tokens, partitions and long polls.
use flowd_engine.Base.{
  ℕ, ◌≡◌, ◌≤◌, ◌<◌, refl, zero, suc, inl, inr, ◌⊎◌, true, some, [], ◌∷◌, find?, arith, length, take,
  drop,
}
use flowd_engine.Base.Result.{Result, ok, err, concurrent_modification}
use flowd_engine.Db.Types.{key_eq}
use flowd_engine.Db.Executions.{find_current, is_current, find_execution}
use flowd_engine.Db.Namespaces.{get_namespace_by_name}
use flowd_engine.Db.Leased.Laws.{In}
use flowd_engine.History.Notifier.{Notifier, workflow_queue_key, activity_queue_key, notify}
use flowd_engine.History.Notifier.Wakes.{notify_complete}
use flowd_engine.History.Retry.{is_conflict, with_tx_retry_on_conflict}
use flowd_engine.History.Retry.Laws.{outcome, with_tx_retry_on_conflict-settles}
use flowd_engine.History.Sharding.{partition_for}
use flowd_engine.History.Sharding.Bounds.{new_store-bounds}
use flowd_engine.History.Start.{start_workflow_execution}
use flowd_engine.History.Store.{get_namespace_id, new_store}
use flowd_engine.History.TaskToken.{
  decode_task_token, encode, sha256_size, task_token_version, bytes_eq,
}
use flowd_engine.History.TaskToken.Laws.{decode-encode, decode-signed}
use flowd_engine.Base.{update}
use flowd_engine.Db.Events.{insert_history_event}
use flowd_engine.Db.Executions.{
  insert_current_execution, create_workflow_execution, advance_next_event_id, has_version, new_row,
  advance_row,
}
use flowd_engine.Db.WorkflowTasks.{enqueue_workflow_task}
use flowd_engine.History.Append.{append_history, insert_events, advance_or_conflict}
use flowd_engine.History.Start.{start_tx, begin_run}
use flowd_engine.History.Start.Repeat.{start_workflow_execution_repeat}
use flowd_engine.History.Store.{State, with_namespace, with_tx}
use flowd_engine.History.System.{empty_db}
use flowd_engine.Scenarios.{
  ext, server, codec, options, zeros, activity_token, start_request, state_of,
}

-- An attempt that loses the race twice: it fails while the counter is below 2.
abbrev lucky : ℕ → ℕ → Result ℕ × ℕ
lucky k zero = (err concurrent_modification, 1)
lucky k (suc zero) = (err concurrent_modification, 2)
lucky k (suc (suc n)) = (ok 7, n)

lost_before : (m : ℕ) → m < 2 → is_conflict (outcome lucky m 0).0 ≡ true
lost_before zero h = refl
lost_before (suc zero) h = refl
lost_before (suc (suc m)) h = ground arith

with_tx_retry_on_conflict-settles_example : with_tx_retry_on_conflict lucky 0 ≡ outcome lucky 2 0
with_tx_retry_on_conflict-settles_example =
    with_tx_retry_on_conflict-settles lucky 2 0 (ground arith) lost_before refl

decode-encode_example :
    decode_task_token codec (encode codec activity_token (9 ∷ [])) (9 ∷ []) ≡ ok activity_token
decode-encode_example = decode-encode codec activity_token (9 ∷ []) refl refl refl

decodes :
    decode_task_token codec (encode codec activity_token (9 ∷ [])) (9 ∷ []) ≡ ok activity_token
unfolding decode_task_token encode bytes_eq
decodes = refl

decode-signed_example :
    let b = encode codec activity_token (9 ∷ []) in
    (sha256_size ≤ length b)
    × (take sha256_size b ≡ codec.hmac (9 ∷ []) (drop sha256_size b))
    × (codec.of_json (drop sha256_size b) ≡ some activity_token)
    × (activity_token.v ≡ task_token_version)
decode-signed_example =
    decode-signed codec (encode codec activity_token (9 ∷ [])) (9 ∷ []) activity_token decodes

new_store-bounds_example :
    let s = new_store ext codec zeros options in
    (partition_for s.ext "w" s.num_shards < s.num_shards)
    × (partition_for s.ext "w" s.num_task_queue_partitions < s.num_task_queue_partitions)
new_store-bounds_example = new_store-bounds ext codec zeros options "w"

abbrev polls : Notifier
polls = record {
  waiters =
      record { queue = workflow_queue_key 1 "q"; id = 4 }
      ∷ record { queue = activity_queue_key 1 "q"; id = 5 }
      ∷ [];
  signalled = [];
}

notify_complete_example :
    ((activity_queue_key 1 "q" ≡ workflow_queue_key 1 "q")
      × In 5 (notify (workflow_queue_key 1 "q") polls).signalled)
    ⊎ (¬ (activity_queue_key 1 "q" ≡ workflow_queue_key 1 "q")
        × In
            (record { queue = activity_queue_key 1 "q"; id = 5 })
            (notify (workflow_queue_key 1 "q") polls).waiters)
notify_complete_example =
    notify_complete (workflow_queue_key 1 "q") polls
      (record { queue = activity_queue_key 1 "q"; id = 5 }) (inr (inl refl))

-- A server with the namespace "n" and no workflow, and the state after a start.
abbrev fresh : State
fresh =
    state_of (record empty_db { namespaces = record { id = 1; name = "n"; created_at = 0 } ∷ [] })

abbrev started_state : State
started_state = (start_workflow_execution server 1 "r" (start_request "req") fresh).1

started_once :
    start_workflow_execution server 1 "r" (start_request "req") fresh ≡ (ok "r", started_state)
unfolding start_workflow_execution with_namespace with_tx start_tx insert_current_execution
    find_current is_current find_execution find? key_eq get_namespace_id get_namespace_by_name
    begin_run create_workflow_execution append_history insert_events advance_or_conflict
    advance_next_event_id has_version insert_history_event enqueue_workflow_task partition_for
    notify new_row update advance_row
started_once = refl

start_workflow_execution_repeat_example :
    start_workflow_execution server 9 "r2" (start_request "req") started_state
    ≡ (ok "r", started_state)
start_workflow_execution_repeat_example =
    start_workflow_execution_repeat server 1 9 "r" "r2" (start_request "req") fresh started_state
      "r" started_once
