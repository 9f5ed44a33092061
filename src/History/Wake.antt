-- ===== src/History/Wake.antt =====
-- How an event wakes a workflow: it is appended with WorkflowTaskScheduled, and a workflow task is
-- enqueued, routed by the run's sticky registration (internal/history/util.go).
use flowd_engine.Base.{ℕ, String, Option, some, none, List, [], ◌∷◌, ltb, if◌then◌else◌}
use flowd_engine.Base.Result.{Tx, ◌>>=◌, ◌>>◌, pure}
use flowd_engine.Proto.{workflow_task_scheduled, task_scheduled}
use flowd_engine.Db.Types.{Db, RunKey, WorkflowExecution}
use flowd_engine.Db.WorkflowTasks.{enqueue_workflow_task}
use flowd_engine.History.Append.{NewEvent, append_history}
use flowd_engine.History.Sharding.{partition_for}
use flowd_engine.History.Store.{Store}

-- A registration that has not expired is passed on, any other dropped.
abbrev pub live_sticky : ℕ → Option String → Option ℕ → Option String × Option ℕ
live_sticky now (some worker) (some expires_at) =
    if ltb expires_at now then (none, none) else (some worker, some expires_at)
live_sticky now _ _ = (none, none)

unfoldable pub sticky_enqueue_fields : ℕ → WorkflowExecution → Option String × Option ℕ
sticky_enqueue_fields now we = live_sticky now we.sticky_worker_identity we.sticky_expires_at

-- ids[1]; the caller has appended two events.
abbrev pub second : List ℕ → ℕ
second (a ∷ b ∷ ids) = b
second _ = 0

abbrev pub scheduled_event : String → NewEvent
scheduled_event queue = record {
  event_type = workflow_task_scheduled;
  attributes = task_scheduled queue;
}

-- The common tail of SignalWorkflowExecution, RequestCancelWorkflowExecution,
-- CompleteActivityTask, FailActivityTask and fireDueTimer; `we` is the row that was read.
unfoldable pub record_and_wake : Store → ℕ → RunKey → WorkflowExecution → NewEvent → Tx Db String
unfolding append_history sticky_enqueue_fields enqueue_workflow_task partition_for
record_and_wake s now key we event = do
  appended ←
      append_history s.ext now key we.next_event_id (event ∷ scheduled_event we.task_queue ∷ [])
  let sticky = sticky_enqueue_fields now we
  enqueue_workflow_task now (record {
    key = key;
    task_queue_name = we.task_queue;
    task_queue_partition = partition_for s.ext key.workflow_id s.num_task_queue_partitions;
    scheduled_event_id = second appended.1;
    preferred_worker_identity = sticky.0;
    sticky_deadline = sticky.1;
  })
  pure we.task_queue
