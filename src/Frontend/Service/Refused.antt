-- ===== src/Frontend/Service/Refused.antt =====
-- Calls that are turned away, by the interceptor, by a check or by a token that does not decode.
use flowd_engine.Base.{
  ◌≡◌, refl, Bool, true, false, Option, none, some, List, [], ◌∷◌, String, str_eq, arith,
  if◌then◌else◌,
}
use flowd_engine.Base.Result.{Error, Result, ok, err}
use flowd_engine.Proto.{Bytes}
use flowd_engine.History.Store.{Store, State}
use flowd_engine.History.TaskToken.{TaskToken, decode_task_token}
use flowd_engine.Frontend.{
  StatusCode, invalid_argument, unauthenticated, permission_denied, to_grpc_error,
  check_payload_size, check_commands_payload_size,
}
use flowd_engine.Frontend.Keys.{Strings, parse_api_keys, authorize}
use flowd_engine.Frontend.Service.{
  Request, start_workflow, signal_workflow, request_cancel, get_history, terminate,
  respond_workflow_completed, respond_workflow_failed, respond_activity_completed,
  respond_activity_failed, respond_query_completed, create_namespace_request, Reply, status, done,
  started, namespace_info, Draw, get_namespace, reply_to, checked, with_token, handle, serve,
  history_reply,
}

-- The codes of a call that was turned away: InvalidArgument, Unauthenticated, PermissionDenied.
unfoldable pub is_refusal : StatusCode → Bool
is_refusal invalid_argument = true
is_refusal unauthenticated = true
is_refusal permission_denied = true
is_refusal _ = false

unfoldable pub refuses : Reply → Bool
unfolding is_refusal
refuses (status code) = is_refusal code
refuses _ = false

to_grpc_error-is_refusal : (e : Error) → is_refusal (to_grpc_error e) ≡ false
unfolding is_refusal to_grpc_error
to_grpc_error-is_refusal Error.workflow_already_running = refl
to_grpc_error-is_refusal Error.namespace_already_exists = refl
to_grpc_error-is_refusal Error.workflow_not_found = refl
to_grpc_error-is_refusal Error.namespace_not_found = refl
to_grpc_error-is_refusal Error.task_lease_expired = refl
to_grpc_error-is_refusal Error.concurrent_modification = refl
to_grpc_error-is_refusal Error.no_task_available = refl
to_grpc_error-is_refusal _ = refl

-- The reply and the state after a call on the state `st`.
abbrev Kept : State → Reply × State → Type 0
Kept st r = refuses r.0 ≡ true → r.1 ≡ st

replied :
    {A : Type 0} (f : A → Reply) (st : State) (r : Result A × State)
    → ((a : A) → refuses (f a) ≡ false)
    → Kept st (reply_to f r)
unfolding refuses
replied f st (ok a, st') h q = ground (arith, h a, q)
replied f st (err e, st') h q = ground (arith, to_grpc_error-is_refusal e, q)

checked-Kept :
    (o : Option StatusCode) (st : State) (r : Reply × State) → Kept st r → Kept st (checked o st r)
checked-Kept (some code) st r h q = refl
checked-Kept none st r h q = h q

with_token-Kept :
    (s : Store) (b : Bytes) (st : State) (f : TaskToken → Reply × State)
    → ((token : TaskToken) → Kept st (f token))
    → Kept st (with_token s b st f)
with_token-Kept s b st f h = split (decode_task_token s.codec b s.task_token_signing_key)
  where
    split :
        (r : Result TaskToken)
        → Kept st (elim r as (λ _. Reply × State) [
          | err e ↦ (status invalid_argument, st)
          | ok token ↦ f token
        ])
    split (ok token) = h token
    split (err e) = λ q. refl

unless-Kept :
    (b : Bool) (st : State) (r : Reply × State)
    → Kept st r
    → Kept st (if b then (status invalid_argument, st) else r)
unless-Kept true st r h q = refl
unless-Kept false st r h q = h q

handle-Kept :
    (s : Store) (d : Draw) (request : Request) (st : State) → Kept st (handle s d request st)
unfolding handle refuses
handle-Kept s d (start_workflow p) st =
    checked-Kept (check_payload_size p.input) st _ (replied started st _ (λ a. refl))
handle-Kept s d (signal_workflow p) st =
    checked-Kept (check_payload_size p.input) st _ (replied (λ _. done) st _ (λ a. refl))
handle-Kept s d (request_cancel p) st = replied (λ _. done) st _ (λ a. refl)
handle-Kept s d (get_history namespace workflow_id run_id size token) st =
    replied history_reply st _ (λ a. refl)
handle-Kept s d (terminate namespace workflow_id run_id reason) st =
    replied (λ _. done) st _ (λ a. refl)
handle-Kept s d (respond_workflow_completed b commands sticky) st =
    checked-Kept (check_commands_payload_size commands) st _
      (with_token-Kept s b st _ (λ token. replied (λ _. done) st _ (λ a. refl)))
handle-Kept s d (respond_workflow_failed b failure) st =
    with_token-Kept s b st _ (λ token. replied (λ _. done) st _ (λ a. refl))
handle-Kept s d (respond_activity_completed b result) st =
    checked-Kept (check_payload_size result) st _
      (with_token-Kept s b st _ (λ token. replied (λ _. done) st _ (λ a. refl)))
handle-Kept s d (respond_activity_failed b failure) st =
    with_token-Kept s b st _ (λ token. replied (λ _. done) st _ (λ a. refl))
handle-Kept s d (respond_query_completed b result failure) st =
    checked-Kept (check_payload_size result) st _
      (with_token-Kept s b st _ (λ token. replied (λ _. done) st _ (λ a. refl)))
handle-Kept s d (create_namespace_request name) st =
    unless-Kept (str_eq name "") st _ (replied namespace_info st _ (λ a. refl))

-- A call that is answered with InvalidArgument, Unauthenticated or PermissionDenied leaves the
-- database and the notifier as they were, whatever the request.
pub serve-refused :
    (s : Store) (lib : Strings) (entries : List String) (d : Draw) (metadata : Option (List String))
    (request : Request) (st : State)
    → refuses (serve s lib entries d metadata request st).0 ≡ true
    → (serve s lib entries d metadata request st).1 ≡ st
unfolding serve
serve-refused s lib [] d metadata request st = handle-Kept s d request st
serve-refused s lib (entry ∷ entries) d metadata request st =
    checked-Kept (authorize (parse_api_keys lib (entry ∷ entries)) metadata (get_namespace request))
      st (handle s d request st) (handle-Kept s d request st)
