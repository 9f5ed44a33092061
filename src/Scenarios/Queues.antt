-- ===== src/Scenarios/Queues.antt =====
-- The theorems on the task queues, at queues with two tasks.
use flowd_engine.Base.{
  ℕ, suc, ◌+◌, ◌≡◌, ◌≢◌, ◌≤◌, refl, inl, inr, false, none, some, List, [], ◌∷◌, find?, update,
  min_by, select, arith, ◌==◌, Bool,
}
use flowd_engine.Base.Result.{ok, err, task_lease_expired}
use flowd_engine.Db.Types.{Db, ActivityTask, WorkflowTask}
use flowd_engine.Db.ActivityTasks.{
  activity_leased, activity_task_visible, dequeue_activity_task, activity_expiry,
  get_activity_task_by_lease,
}
use flowd_engine.Db.Dispatching.{dequeue_activity_task-exclusive, dequeue_workflow_task-exclusive}
use flowd_engine.Db.Leased.{is_available, next_available, claim, claim_row, has_lease}
use flowd_engine.Db.Leased.Laws.{In, claim_row-has_lease}
use flowd_engine.Db.ActivityTasks.{reap_expired_activity_tasks}
use flowd_engine.Db.Dispatching.Due.{IsDue, dequeue_activity_task-serves}
use flowd_engine.Db.Dispatching.Reaped.{IsHeld, freed, reap_expired_activity_tasks-serves}
use flowd_engine.History.Activity.Retries.{
  row_of, capped, wait_after, next_attempt, IsRetryable, fail_activity_task-retries,
}
use flowd_engine.Proto.{Failure}
use flowd_engine.Db.WorkflowTasks.{
  DequeueParams, dequeue_workflow_task, workflow_task_visible, workflow_leased, is_routed_to,
}
use flowd_engine.History.Activity.{complete_activity_task, fail_activity_task}
use flowd_engine.History.Activity.Leases.{stale_lease-rejected}
use flowd_engine.Base.{ap, delete, Option, String}
use flowd_engine.Base.Result.{Result}
use flowd_engine.History.Activity.Failed.{fail_activity_task_once}
use flowd_engine.Db.ActivityTasks.{complete_activity_task_rows}
use flowd_engine.Db.Events.{insert_history_event}
use flowd_engine.Db.Executions.{
  get_workflow_execution, find_execution, advance_next_event_id, has_version,
}
use flowd_engine.Db.Types.{key_eq}
use flowd_engine.Db.WorkflowTasks.{enqueue_workflow_task}
use flowd_engine.History.Activity.{complete_activity_tx, complete_activity_task_row}
use flowd_engine.History.Activity.Once.{complete_activity_task_once}
use flowd_engine.History.Append.{append_history, insert_events, advance_or_conflict}
use flowd_engine.History.Store.{State, with_tx, then_notify}
use flowd_engine.History.Wake.{record_and_wake}
use flowd_engine.History.Dispatch.{fail_workflow_task}
use flowd_engine.History.TaskToken.{TaskToken, workflow}
use flowd_engine.History.WorkflowTask.{complete_workflow_task}
use flowd_engine.History.WorkflowTask.Leases.{stale_workflow_lease-rejected}
use flowd_engine.Scenarios.{
  ext, server, activity_row, workflow_row, db_with_tasks, state_of, activity_token,
}

abbrev poll : DequeueParams
poll = record { task_queue_name = "q"; namespace_id = 1; worker_identity = "x"; partitions = [] }

abbrev all_free : ℕ → Bool
all_free n = false

abbrev given_activity : ℕ → ℕ → ActivityTask
given_activity token id = claim activity_leased token (activity_expiry 5) (activity_row id)

abbrev given_workflow : ℕ → ℕ → WorkflowTask
given_workflow token id = claim workflow_leased token (λ _. 15) (workflow_row id)

-- After the first dequeue, and after the second.
abbrev db_one : Db
db_one = record db_with_tasks { activity_tasks = given_activity 2 1 ∷ activity_row 2 ∷ [] }

abbrev db_two : Db
db_two = record db_with_tasks { activity_tasks = given_activity 2 1 ∷ given_activity 3 2 ∷ [] }

abbrev db_one_workflow : Db
db_one_workflow = record db_with_tasks { workflow_tasks = given_workflow 2 1 ∷ workflow_row 2 ∷ [] }

abbrev db_two_workflows : Db
db_two_workflows = record db_with_tasks {
  workflow_tasks = given_workflow 2 1 ∷ given_workflow 3 2 ∷ [];
}

first_dequeue :
    dequeue_activity_task 5 all_free 2 poll db_with_tasks ≡ ok (given_activity 2 1, db_one)
unfolding dequeue_activity_task next_available is_available claim_row claim update min_by select
    activity_task_visible activity_expiry
first_dequeue = refl

second_dequeue : dequeue_activity_task 5 all_free 3 poll db_one ≡ ok (given_activity 3 2, db_two)
unfolding dequeue_activity_task next_available is_available claim_row claim update min_by select
    activity_task_visible activity_expiry
second_dequeue = refl

dequeue_activity_task-exclusive_example :
    (given_activity 3 2).task_id ≢ (given_activity 2 1).task_id
dequeue_activity_task-exclusive_example =
    dequeue_activity_task-exclusive 5 5 all_free all_free 2 3 poll poll db_with_tasks db_one db_two
      (given_activity 2 1) (given_activity 3 2) first_dequeue second_dequeue

first_workflow :
    dequeue_workflow_task 5 all_free 2 10 poll db_with_tasks
    ≡ ok (given_workflow 2 1, db_one_workflow)
unfolding dequeue_workflow_task next_available is_available claim_row claim update min_by select
    workflow_task_visible is_routed_to
first_workflow = refl

second_workflow :
    dequeue_workflow_task 5 all_free 3 10 poll db_one_workflow
    ≡ ok (given_workflow 3 2, db_two_workflows)
unfolding dequeue_workflow_task next_available is_available claim_row claim update min_by select
    workflow_task_visible is_routed_to
second_workflow = refl

dequeue_workflow_task-exclusive_example :
    (given_workflow 3 2).task_id ≢ (given_workflow 2 1).task_id
dequeue_workflow_task-exclusive_example =
    dequeue_workflow_task-exclusive 5 5 10 10 all_free all_free 2 3 poll poll db_with_tasks
      db_one_workflow db_two_workflows (given_workflow 2 1) (given_workflow 3 2) first_workflow
      second_workflow

-- The token says lease 1, the task was handed out under lease 2.
stale_lease-rejected_example :
    (complete_activity_task server 9 activity_token none (state_of db_one)
      ≡ (err task_lease_expired, state_of db_one))
    × (fail_activity_task server 9 activity_token none (state_of db_one)
        ≡ (err task_lease_expired, state_of db_one))
unfolding claim
stale_lease-rejected_example =
    stale_lease-rejected server 5 9 all_free 2 1 poll db_with_tasks (given_activity 2 1)
      activity_token none none (state_of db_one) first_dequeue refl refl (ground arith) refl

-- The same task under lease 1, which the token names.
abbrev db_held : Db
db_held = record db_with_tasks { activity_tasks = given_activity 1 1 ∷ activity_row 2 ∷ [] }

held : row_of 1 db_held ≡ some (given_activity 1 1)
unfolding find? claim activity_expiry
held = refl

abbrev broken : Failure
broken = record { message = "m"; type = "t" }

may_follow : IsRetryable ext broken (given_activity 1 1)
unfolding claim activity_expiry
may_follow = record {
  unlisted = λ t i. absurd i;
  remain = inr (ground arith);
  attempt = ground arith;
  limit = ground arith;
  wait = ground arith;
  max_wait = ground arith;
}

fail_activity_task-retries_example :
    let (reply, st') =
      fail_activity_task server 9 activity_token (some broken) (state_of db_held) in
    let row = given_activity 1 1 in
    let due = 9 + capped row.retry_max_interval_ns (wait_after ext row) in
    (reply ≡ ok none)
    × (row_of 1 st'.db ≡ some (next_attempt due row))
    × (row_of 2 st'.db ≡ row_of 2 db_held)
    × (st'.db.history_events ≡ db_held.history_events)
    × (st'.db.workflow_tasks ≡ db_held.workflow_tasks)
    × (st'.notifier ≡ (state_of db_held).notifier)
fail_activity_task-retries_example =
    fail_activity_task-retries server 9 activity_token broken (state_of db_held)
      (given_activity 1 1) 2 refl held (unfold claim in refl) may_follow (ground arith)

abbrev failed_once : State
failed_once = (fail_activity_task server 9 activity_token (some broken) (state_of db_held)).1

failed_first :
    fail_activity_task server 9 activity_token (some broken) (state_of db_held)
    ≡ (ok none, failed_once)
failed_first =
    ap (λ (r : Result (Option String)). (r, failed_once)) (fail_activity_task-retries_example).0

fail_activity_task_once_example :
    (complete_activity_task server 10 activity_token none failed_once
      ≡ (err task_lease_expired, failed_once))
    × (fail_activity_task server 10 activity_token none failed_once
        ≡ (err task_lease_expired, failed_once))
fail_activity_task_once_example =
    fail_activity_task_once server 9 10 activity_token (some broken) none none (state_of db_held)
      failed_once none failed_first refl

second-IsDue : IsDue 5 all_free poll (activity_row 2)
second-IsDue = record {
  status = refl;
  time = ground arith;
  unlocked = refl;
  queue = refl;
  namespace = refl;
  partition = inl refl;
}

dequeue_activity_task-serves_example :
    (row : ActivityTask) × (db' : Db) × (dequeue_activity_task 5 all_free 2 poll db_with_tasks
      ≡ ok (row, db'))
    × (row.task_id ≤ 2)
dequeue_activity_task-serves_example =
    dequeue_activity_task-serves 5 all_free 2 poll db_with_tasks (activity_row 2) (inr (inl refl))
      second-IsDue

-- Held under the first lease until the time that start_to_close_timeout gives.
abbrev lease_end : ℕ
lease_end = activity_expiry 5 (activity_row 1)

first-IsHeld : IsHeld lease_end (given_activity 2 1)
unfolding claim
first-IsHeld = record { status = refl; expiry = refl }

first_freed-IsDue : IsDue 9 all_free poll (freed (given_activity 2 1))
unfolding claim
first_freed-IsDue = record {
  status = refl;
  time = ground arith;
  unlocked = refl;
  queue = refl;
  namespace = refl;
  partition = inl refl;
}

reap_expired_activity_tasks-serves_example :
    (row : ActivityTask) × (db' : Db) × (dequeue_activity_task 9 all_free 3 poll
        (reap_expired_activity_tasks (suc lease_end) db_one)
      ≡ ok (row, db'))
    × (row.task_id ≤ (given_activity 2 1).task_id)
reap_expired_activity_tasks-serves_example =
    reap_expired_activity_tasks-serves (suc lease_end) 9 lease_end all_free 3 poll db_one
      (given_activity 2 1) (inl refl) first-IsHeld (omega arith) first_freed-IsDue

abbrev two_rows : List ActivityTask
two_rows = activity_row 1 ∷ activity_row 2 ∷ []

In-claimed : In (given_activity 2 1) (claim_row activity_leased 1 2 (activity_expiry 5) two_rows)
unfolding claim_row update claim activity_expiry
In-claimed = inl refl

claim_row-has_lease_example : has_lease activity_leased 1 (some 7) (given_activity 2 1) ≡ (2 == 7)
claim_row-has_lease_example =
    claim_row-has_lease activity_leased 1 2 7 (activity_expiry 5) two_rows (given_activity 2 1)
      In-claimed (unfold claim in refl)

abbrev completed_state : State
completed_state = (complete_activity_task server 9 activity_token none (state_of db_held)).1

completed_first :
    complete_activity_task server 9 activity_token none (state_of db_held)
    ≡ (ok "q", completed_state)
unfolding complete_activity_task complete_activity_tx complete_activity_task_row with_tx then_notify
    get_activity_task_by_lease complete_activity_task_rows find? has_lease claim activity_expiry
    delete select get_workflow_execution find_execution key_eq record_and_wake append_history
    insert_events advance_or_conflict advance_next_event_id has_version insert_history_event
    enqueue_workflow_task
completed_first = refl

complete_activity_task_once_example :
    (complete_activity_task server 12 activity_token none completed_state
      ≡ (err task_lease_expired, completed_state))
    × (fail_activity_task server 12 activity_token none completed_state
        ≡ (err task_lease_expired, completed_state))
complete_activity_task_once_example =
    complete_activity_task_once server 9 12 activity_token none none none (state_of db_held)
      completed_state "q" completed_first refl

abbrev workflow_token : TaskToken
workflow_token = record activity_token { kind = workflow }

-- The token says lease 1, the workflow task was handed out under lease 2.
stale_workflow_lease-rejected_example :
    (complete_workflow_task server 9 "r2" "req2" workflow_token [] none (state_of db_one_workflow)
      ≡ (err task_lease_expired, state_of db_one_workflow))
    × (fail_workflow_task server 9 workflow_token (state_of db_one_workflow)
        ≡ (err task_lease_expired, state_of db_one_workflow))
unfolding claim
stale_workflow_lease-rejected_example =
    stale_workflow_lease-rejected server 5 9 all_free 2 1 10 poll db_with_tasks (given_workflow 2 1)
      workflow_token "r2" "req2" [] none (state_of db_one_workflow) first_workflow refl refl
      (ground arith) refl
