-- ===== src/Frontend/Service.antt =====
-- internal/frontend/service.go: the handlers, and the interceptor before them. The two polls, which
-- wait, and the descriptions and lists of executions are left out.
pub mod Refused
use flowd_engine.Base.{
  ℕ, Bool, true, false, Option, none, some, List, [], ◌∷◌, String, str_eq, if◌then◌else◌,
}
use flowd_engine.Base.Result.{Error, Result, ok, err}
use flowd_engine.Proto.{Bytes, Int64, Payload, Failure, RetryPolicy, Command}
use flowd_engine.Db.Types.{Db, Namespace, RunKey}
use flowd_engine.History.Dispatch.Decode.{HistoryEvent}
use flowd_engine.History.Store.{Store, State, with_namespace}
use flowd_engine.History.TaskToken.{TaskToken, decode_task_token}
use flowd_engine.History.Start.{StartWorkflowExecutionParams, start_workflow_execution}
use flowd_engine.History.Signal.{
  SignalWorkflowExecutionParams, signal_workflow_execution, RequestCancelParams,
  request_cancel_workflow_execution,
}
use flowd_engine.History.Query.{get_history_page, terminate_workflow_execution, create_namespace}
use flowd_engine.History.WorkflowTask.{StickyAttributes, complete_workflow_task}
use flowd_engine.History.Dispatch.{fail_workflow_task}
use flowd_engine.History.Activity.{complete_activity_task, fail_activity_task}
use flowd_engine.History.WorkflowQuery.{complete_query, fail_query}
use flowd_engine.Frontend.{
  StatusCode, invalid_argument, to_grpc_error, check_payload_size, check_commands_payload_size,
  namespace_or_default,
}
use flowd_engine.Frontend.Keys.{Strings, parse_api_keys, authorize}

-- The requests, with the names of their messages; the namespace is as the message has it.
pub data Request : Type 0 where
  start_workflow : StartWorkflowExecutionParams → Request
  signal_workflow : SignalWorkflowExecutionParams → Request
  request_cancel : RequestCancelParams → Request
  -- workflow_id, run_id, page_size, next_page_token; workflow_id, run_id, reason
  get_history : String → String → String → ℕ → Bytes → Request
  terminate : String → String → String → String → Request
  respond_workflow_completed : Bytes → List Command → Option StickyAttributes → Request
  respond_workflow_failed : Bytes → Option Failure → Request
  respond_activity_completed : Bytes → Option Payload → Request
  respond_activity_failed : Bytes → Option Failure → Request
  respond_query_completed : Bytes → Option Payload → Option Failure → Request
  create_namespace_request : String → Request

pub data Reply : Type 0 where
  status : StatusCode → Reply
  done : Reply
  started : String → Reply
  history_page : List HistoryEvent → Option Bytes → Reply
  namespace_info : Namespace → Reply

-- What a handler draws: the time, uuid.NewString() for a run and for a request, and the
-- transactions that race with it.
pub record Draw : Type 0 where
  pub now : ℕ
  pub run_id : String
  pub request_id : String
  pub race : ℕ → Db → Db

-- GetNamespace of the messages that have it.
unfoldable pub get_namespace : Request → Option String
get_namespace (start_workflow p) = some p.namespace
get_namespace (signal_workflow p) = some p.namespace
get_namespace (request_cancel p) = some p.namespace
get_namespace (get_history namespace workflow_id run_id size token) = some namespace
get_namespace (terminate namespace workflow_id run_id reason) = some namespace
get_namespace _ = none

abbrev pub reply_to : {A : Type 0} → (A → Reply) → Result A × State → Reply × State
reply_to f (ok a, st) = (f a, st)
reply_to f (err e, st) = (status (to_grpc_error e), st)

abbrev pub done_with : {A : Type 0} → Result A × State → Reply × State
done_with = reply_to (λ _. done)

-- A check that comes first.
abbrev pub checked : Option StatusCode → State → Reply × State → Reply × State
checked (some code) st rest = (status code, st)
checked none st rest = rest

-- DecodeTaskToken, whose errors are all InvalidArgument.
abbrev pub with_token : Store → Bytes → State → (TaskToken → Reply × State) → Reply × State
with_token s b st f = elim (decode_task_token s.codec b s.task_token_signing_key) [
  | err e ↦ (status invalid_argument, st)
  | ok token ↦ f token
]

abbrev in_db : {A : Type 0} → State → Result A × Db → Result A × State
in_db st (r, db) = (r, record st { db = db })

abbrev request_id_or : String → String → String
request_id_or new id = if str_eq id "" then new else id

abbrev query_answer :
    Store → TaskToken → Option Payload → Option Failure → Db → Result (Unit {0}) × Db
query_answer s token result (some f) db = fail_query s token f.message db
query_answer s token result none db = complete_query s token result db

abbrev page_or_error :
    Result (List HistoryEvent × Option Bytes)
    → State
    → Result (List HistoryEvent × Option Bytes) × State
page_or_error r st = (r, st)

abbrev history_reply : List HistoryEvent × Option Bytes → Reply
history_reply (events, token) = history_page events token

unfoldable pub handle_start_workflow :
    Store → Draw → StartWorkflowExecutionParams → State → Reply × State
unfolding start_workflow_execution check_payload_size namespace_or_default
handle_start_workflow s d p st = checked (check_payload_size p.input) st (
    reply_to started (
      start_workflow_execution s d.now d.run_id
        (record p {
          namespace = namespace_or_default p.namespace;
          request_id = request_id_or d.request_id p.request_id;
        })
        st))

unfoldable pub handle_signal_workflow :
    Store → Draw → SignalWorkflowExecutionParams → State → Reply × State
unfolding signal_workflow_execution check_payload_size namespace_or_default
handle_signal_workflow s d p st = checked (check_payload_size p.input) st (
    done_with (
      signal_workflow_execution s d.now d.race
        (record p { namespace = namespace_or_default p.namespace }) st))

unfoldable pub handle_request_cancel : Store → Draw → RequestCancelParams → State → Reply × State
unfolding request_cancel_workflow_execution namespace_or_default
handle_request_cancel s d p st = done_with (
    request_cancel_workflow_execution s d.now d.race
      (record p { namespace = namespace_or_default p.namespace }) st)

unfoldable pub handle_get_history :
    Store → Draw → String → String → String → ℕ → Bytes → State → Reply × State
unfolding get_history_page with_namespace namespace_or_default
handle_get_history s d namespace workflow_id run_id size token st = reply_to history_reply (
    with_namespace (namespace_or_default namespace)
      (λ ns. page_or_error (
        get_history_page s.ext
          (record { namespace_id = ns; workflow_id = workflow_id; run_id = run_id }) size token
          st.db))
      st)

unfoldable pub handle_terminate :
    Store → Draw → String → String → String → String → State → Reply × State
unfolding terminate_workflow_execution namespace_or_default
handle_terminate s d namespace workflow_id run_id reason st = done_with (
    terminate_workflow_execution s d.now (namespace_or_default namespace) workflow_id run_id reason
      st)

unfoldable pub handle_respond_workflow_completed :
    Store → Draw → Bytes → List Command → Option StickyAttributes → State → Reply × State
unfolding complete_workflow_task check_commands_payload_size decode_task_token
handle_respond_workflow_completed s d b commands sticky st =
    checked (check_commands_payload_size commands) st (
      with_token s b st (λ token.
        done_with (complete_workflow_task s d.now d.run_id d.request_id token commands sticky st)))

unfoldable pub handle_respond_workflow_failed :
    Store → Draw → Bytes → Option Failure → State → Reply × State
unfolding fail_workflow_task decode_task_token
handle_respond_workflow_failed s d b failure st =
    with_token s b st (λ token. done_with (fail_workflow_task s d.now token st))

unfoldable pub handle_respond_activity_completed :
    Store → Draw → Bytes → Option Payload → State → Reply × State
unfolding complete_activity_task check_payload_size decode_task_token
handle_respond_activity_completed s d b result st =
    checked (check_payload_size result) st
      (with_token s b st (λ token. done_with (complete_activity_task s d.now token result st)))

unfoldable pub handle_respond_activity_failed :
    Store → Draw → Bytes → Option Failure → State → Reply × State
unfolding fail_activity_task decode_task_token
handle_respond_activity_failed s d b failure st =
    with_token s b st (λ token. done_with (fail_activity_task s d.now token failure st))

unfoldable pub handle_respond_query_completed :
    Store → Draw → Bytes → Option Payload → Option Failure → State → Reply × State
unfolding complete_query fail_query check_payload_size decode_task_token
handle_respond_query_completed s d b result failure st =
    checked (check_payload_size result) st (
      with_token s b st (λ token. done_with (in_db st (query_answer s token result failure st.db))))

unfoldable pub handle_create_namespace_request : Store → Draw → String → State → Reply × State
unfolding create_namespace
handle_create_namespace_request s d name st =
    if str_eq name ""
    then (status invalid_argument, st)
    else reply_to namespace_info (in_db st (create_namespace d.now name st.db))

unfoldable pub handle : Store → Draw → Request → State → Reply × State
unfolding handle_start_workflow handle_signal_workflow handle_request_cancel handle_get_history
    handle_terminate handle_respond_workflow_completed handle_respond_workflow_failed
    handle_respond_activity_completed handle_respond_activity_failed handle_respond_query_completed
    handle_create_namespace_request
handle s d (start_workflow p) st = handle_start_workflow s d p st
handle s d (signal_workflow p) st = handle_signal_workflow s d p st
handle s d (request_cancel p) st = handle_request_cancel s d p st
handle s d (get_history namespace workflow_id run_id size token) st =
    handle_get_history s d namespace workflow_id run_id size token st
handle s d (terminate namespace workflow_id run_id reason) st =
    handle_terminate s d namespace workflow_id run_id reason st
handle s d (respond_workflow_completed b commands sticky) st =
    handle_respond_workflow_completed s d b commands sticky st
handle s d (respond_workflow_failed b failure) st = handle_respond_workflow_failed s d b failure st
handle s d (respond_activity_completed b result) st =
    handle_respond_activity_completed s d b result st
handle s d (respond_activity_failed b failure) st = handle_respond_activity_failed s d b failure st
handle s d (respond_query_completed b result failure) st =
    handle_respond_query_completed s d b result failure st
handle s d (create_namespace_request name) st = handle_create_namespace_request s d name st

-- A call of the service: the interceptor, which is installed if there are entries of keys
-- (cmd/flowd/main.go), then the handler.
unfoldable pub serve :
    Store → Strings → List String → Draw → Option (List String) → Request → State → Reply × State
unfolding parse_api_keys authorize get_namespace handle
serve s lib [] d metadata request st = handle s d request st
serve s lib (entry ∷ entries) d metadata request st =
    checked (authorize (parse_api_keys lib (entry ∷ entries)) metadata (get_namespace request)) st
      (handle s d request st)
