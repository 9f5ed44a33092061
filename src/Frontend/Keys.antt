-- ===== src/Frontend/Keys.antt =====
-- internal/frontend/auth.go: API keys, each with the namespaces that it may act in.
pub mod Scopes
use flowd_engine.Base.{
  Bool, true, false, Option, none, some, List, [], ◌∷◌, ◌++◌, String, str_eq, if◌then◌else◌,
}
use flowd_engine.Frontend.{StatusCode, unauthenticated, permission_denied, namespace_or_default}

-- strings.Cut, strings.TrimSpace and strings.SplitSeq. `cut` gives what is before and after the
-- separator, if there is one.
pub record Strings : Type 0 where
  pub cut : String → String → String × Option String
  pub trim_space : String → String
  pub split : String → String → List String

-- apiKeyScope; `any_namespace` is the nil map.
pub data ApiKeyScope : Type 0 where
  any_namespace : ApiKeyScope
  namespaces : List String → ApiKeyScope

unfoldable pub contains_text : String → List String → Bool
contains_text s [] = false
contains_text s (t ∷ ts) = let rest = contains_text s ts in if str_eq s t then true else rest

unfoldable pub allows : ApiKeyScope → String → Bool
unfolding contains_text
allows any_namespace namespace = true
allows (namespaces names) namespace = contains_text namespace names

-- The loop over a scope's list: an empty name is skipped, and "*" ends it.
unfoldable pub scan_names : Strings → List String → List String → ApiKeyScope
scan_names lib names [] = namespaces names
scan_names lib names (n ∷ ns) =
    let name = lib.trim_space n in
    let skipped = scan_names lib names ns in
    let added = scan_names lib (name ∷ names) ns in
    if str_eq name "" then skipped else if str_eq name "*" then any_namespace else added

unfoldable pub scope_of : Strings → Option String → ApiKeyScope
unfolding scan_names
scope_of lib none = any_namespace
scope_of lib (some list) = scan_names lib [] (lib.split list "|")

-- One entry of FLOWD_API_KEYS; an empty key is skipped.
unfoldable pub enter : Strings → String → List (String × ApiKeyScope) → List (String × ApiKeyScope)
unfolding scope_of
enter lib entry table =
    let (before, list) = lib.cut entry ":" in
    let key = lib.trim_space before in
    if str_eq key "" then table else (key, scope_of lib list) ∷ table

-- parseAPIKeys: a later entry of a key replaces an earlier one, so the latest stands first.
unfoldable pub parse_from :
    Strings → List String → List (String × ApiKeyScope) → List (String × ApiKeyScope)
unfolding enter
parse_from lib [] table = table
parse_from lib (entry ∷ entries) table = parse_from lib entries (enter lib entry table)

unfoldable pub parse_api_keys : Strings → List String → List (String × ApiKeyScope)
unfolding parse_from
parse_api_keys lib entries = parse_from lib entries []

unfoldable pub scope_for : String → List (String × ApiKeyScope) → Option ApiKeyScope
scope_for key [] = none
scope_for key ((k, scope) ∷ table) =
    let rest = scope_for key table in if str_eq key k then some scope else rest

-- The key that the metadata carries: none without metadata, without a value or with an empty one.
unfoldable pub presented_key : Option (List String) → Option String
presented_key none = none
presented_key (some []) = none
presented_key (some (value ∷ values)) = if str_eq value "" then none else some value

-- The interceptor's test of the namespace, that of a request that has one.
unfoldable pub authorize_scope : Option ApiKeyScope → Option String → Option StatusCode
unfolding allows namespace_or_default
authorize_scope none namespace = some unauthenticated
authorize_scope (some scope) none = none
authorize_scope (some scope) (some name) =
    if allows scope (namespace_or_default name) then none else some permission_denied

unfoldable pub authorize_key :
    List (String × ApiKeyScope) → Option String → Option String → Option StatusCode
unfolding authorize_scope scope_for
authorize_key table none namespace = some unauthenticated
authorize_key table (some key) namespace = authorize_scope (scope_for key table) namespace

-- The tests of the interceptor: none lets the request through to its handler.
unfoldable pub authorize :
    List (String × ApiKeyScope) → Option (List String) → Option String → Option StatusCode
unfolding presented_key authorize_key
authorize table metadata namespace = authorize_key table (presented_key metadata) namespace
