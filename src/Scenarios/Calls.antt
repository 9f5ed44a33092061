-- ===== src/Scenarios/Calls.antt =====
-- The theorems on the service's calls, with one key that is restricted to two namespaces.
use flowd_engine.Base.{
  find?, ◌≡◌, ◌↔◌, refl, true, none, some, List, [], ◌∷◌, String, str_eq, if◌then◌else◌, ◌||◌,
}
use flowd_engine.Frontend.Keys.{
  Strings, ApiKeyScope, namespaces, allows, scope_of, authorize, parse_api_keys,
}
use flowd_engine.Frontend.Keys.Scopes.{listed, scope_of-allows, Admitted, authorize-Admitted}
use flowd_engine.Frontend.Service.{Request, terminate, Draw, serve}
use flowd_engine.Frontend.Service.Refused.{refuses, serve-refused}
use flowd_engine.Base.Result.{ok}
use flowd_engine.Db.Types.{Db, key_eq}
use flowd_engine.History.WorkflowQuery.{EnqueueQueryParams, enqueue_query}
use flowd_engine.Scenarios.{server, db_with_run, state_of}

-- Texts without space around them, and one with separators.
abbrev lib : Strings
lib = record {
  cut = λ s sep. if str_eq s "k:n|m" then ("k", some "n|m") else (s, none);
  trim_space = λ s. s;
  split = λ s sep. if str_eq s "n|m" then "n" ∷ "m" ∷ [] else s ∷ [];
}

abbrev table : List (String × ApiKeyScope)
table = ("k", namespaces ("m" ∷ "n" ∷ [])) ∷ []

parsed : parse_api_keys lib ("k:n|m" ∷ []) ≡ table
unfolding parse_api_keys
parsed = refl

scope_of-allows_example :
    allows (scope_of lib (some "n|m")) "m"
    ≡ (listed lib "*" ("n" ∷ "m" ∷ []) || listed lib "m" ("n" ∷ "m" ∷ []))
scope_of-allows_example = scope_of-allows lib (some "n|m") "m" refl

authorize-Admitted_example :
    (authorize table (some ("k" ∷ [])) (some "m") ≡ none)
    ↔ Admitted table (some ("k" ∷ [])) (some "m")
authorize-Admitted_example = authorize-Admitted table (some ("k" ∷ [])) (some "m")

in_scope : authorize table (some ("k" ∷ [])) (some "m") ≡ none
unfolding authorize
in_scope = refl

abbrev draw : Draw
draw = record { now = 9; run_id = "r2"; request_id = "q2"; race = λ i db. db }

abbrev outside : Request
outside = terminate "other" "w" "r" "reason"

out_of_scope :
    refuses
      (serve server lib ("k:n|m" ∷ []) draw (some ("k" ∷ [])) outside (state_of db_with_run)).0
    ≡ true
unfolding refuses serve
out_of_scope = refl

serve-refused_example :
    (serve server lib ("k:n|m" ∷ []) draw (some ("k" ∷ [])) outside (state_of db_with_run)).1
    ≡ state_of db_with_run
serve-refused_example =
    serve-refused server lib ("k:n|m" ∷ []) draw (some ("k" ∷ [])) outside (state_of db_with_run)
      out_of_scope

abbrev query_params : EnqueueQueryParams
query_params = record {
  namespace = "n";
  workflow_id = "w";
  run_id = "r";
  query_type = "status";
  query_args = none;
}

-- The run with a query that waits, whose id is 1.
abbrev queried : Db
queried = (enqueue_query server 5 query_params (state_of db_with_run)).1.db

enqueued_as : (enqueue_query server 5 query_params (state_of db_with_run)).0 ≡ ok (1, 1)
unfolding enqueue_query find? key_eq
enqueued_as = refl
