-- ===== src/Frontend.antt =====
-- internal/frontend: what the gRPC service makes of requests before and after internal/history.
-- errors.go, payload.go and the defaults of service.go; the texts of the statuses are left out.
pub mod Keys
pub mod Service
pub mod Query
use flowd_engine.Base.{
  ℕ, Bool, true, false, Option, none, some, List, [], ◌∷◌, String, str_eq, length, leb,
  if◌then◌else◌,
}
use flowd_engine.Base.Result.{
  Error, concurrent_modification, task_lease_expired, no_task_available, workflow_already_running,
  workflow_not_found, namespace_not_found, namespace_already_exists,
}
use flowd_engine.Proto.{
  Payload, Command, schedule_activity_task, complete_workflow_execution,
  continue_as_new_workflow_execution,
}

-- The codes that the service answers with; `ok` is a reply of its own.
pub data StatusCode : Type 0 where
  invalid_argument unauthenticated permission_denied not_found already_exists aborted
        deadline_exceeded internal_error :
      StatusCode

-- toGRPCError. The errors that carry only a message are internal ones.
unfoldable pub to_grpc_error : Error → StatusCode
to_grpc_error workflow_already_running = already_exists
to_grpc_error namespace_already_exists = already_exists
to_grpc_error workflow_not_found = not_found
to_grpc_error namespace_not_found = not_found
to_grpc_error task_lease_expired = aborted
to_grpc_error concurrent_modification = aborted
to_grpc_error no_task_available = deadline_exceeded
to_grpc_error _ = internal_error

abbrev pub max_payload_bytes : ℕ
max_payload_bytes = 2097152

unfoldable pub check_payload_size : Option Payload → Option StatusCode
check_payload_size none = none
check_payload_size (some p) =
    if leb (length p.content) max_payload_bytes then none else some invalid_argument

abbrev first_failure : Option StatusCode → Option StatusCode → Option StatusCode
first_failure (some code) rest = some code
first_failure none rest = rest

-- The payload of a command, of the variants that the loop looks at.
abbrev pub payload_of : Command → Option Payload
payload_of (schedule_activity_task c) = c.input
payload_of (complete_workflow_execution result) = result
payload_of (continue_as_new_workflow_execution c) = c.input
payload_of _ = none

unfoldable pub check_commands_payload_size : List Command → Option StatusCode
unfolding check_payload_size
check_commands_payload_size [] = none
check_commands_payload_size (c ∷ cs) =
    first_failure (check_payload_size (payload_of c)) (check_commands_payload_size cs)

abbrev pub default_namespace : String
default_namespace = "default"

unfoldable pub namespace_or_default : String → String
namespace_or_default namespace = if str_eq namespace "" then default_namespace else namespace
