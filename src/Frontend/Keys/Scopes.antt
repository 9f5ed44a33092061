-- ===== src/Frontend/Keys/Scopes.antt =====
-- Which requests a key's entry lets through.
use flowd_engine.Base.{
  ◌≡◌, ◌↔◌, refl, ap, ◌∙◌, sym, Bool, true, false, ◌||◌, Option, none, some, List, [], ◌∷◌, String,
  str_eq, str_eq_iff, if◌then◌else◌, arith,
}
use flowd_engine.Frontend.{namespace_or_default}
use flowd_engine.Frontend.Keys.{
  Strings, ApiKeyScope, any_namespace, contains_text, allows, scan_names, scope_of, scope_for,
  presented_key, authorize_scope, authorize_key, authorize,
}

-- The names of a list as the loop reads them.
abbrev pub listed : Strings → String → List String → Bool
listed lib name [] = false
listed lib name (n ∷ ns) = str_eq name (lib.trim_space n) || listed lib name ns

-- One name: `empty`, `star` and `same` are the tests of it, and the rest is what its two
-- continuations allow.
allows_step :
    (name : String) (empty star star' same seen any rest : Bool) (skipped added : ApiKeyScope)
    → star' ≡ star
    → (empty ≡ true → (star ≡ false) × (same ≡ false))
    → allows skipped name ≡ (any || (seen || rest))
    → allows added name ≡ (any || ((if same then true else seen) || rest))
    → allows (if empty then skipped else if star then any_namespace else added) name
      ≡ ((star' || any) || (seen || (same || rest)))
unfolding allows
allows_step name true star star' same seen any rest skipped added h k p q =
    ground (arith, h, (k refl).0, (k refl).1, p)
allows_step name false true star' same seen any rest skipped added h k p q = ground (arith, h)
allows_step name false false star' same seen any rest skipped added h k p q = ground (arith, h, q)

empty_name :
    (name t : String)
    → str_eq name "" ≡ false
    → str_eq t "" ≡ true
    → (str_eq t "*" ≡ false) × (str_eq name t ≡ false)
empty_name name t h e =
    let t_empty = (str_eq_iff t "").0 e in
    (ap (λ x. str_eq x "*") t_empty, ap (str_eq name) t_empty ∙ h)

scan_names-allows :
    (lib : Strings) (name : String) (names ns : List String)
    → str_eq name "" ≡ false
    → allows (scan_names lib names ns) name
      ≡ (listed lib "*" ns || (contains_text name names || listed lib name ns))
unfolding scan_names allows contains_text
scan_names-allows lib name names [] h = ground arith
scan_names-allows lib name names (n ∷ ns) h =
    let t = lib.trim_space n in
    allows_step name (str_eq t "") (str_eq t "*") (str_eq "*" t) (str_eq name t)
      (contains_text name names) (listed lib "*" ns) (listed lib name ns) (scan_names lib names ns)
      (scan_names lib (t ∷ names) ns) (ground (arith, str_eq_iff t "*", str_eq_iff "*" t))
      (empty_name name t h) (scan_names-allows lib name names ns h)
      (scan_names-allows lib name (t ∷ names) ns h)

-- A key's entry that gives a list of namespaces lets a request into a namespace, whose name is not
-- empty, exactly if the list names the namespace or names "*"; an entry without a list lets it into
-- every one.
pub scope_of-allows :
    (lib : Strings) (list : Option String) (name : String)
    → str_eq name "" ≡ false
    → allows (scope_of lib list) name ≡ elim list [
      | none ↦ true
      | some l ↦ listed lib "*" (lib.split l "|") || listed lib name (lib.split l "|")
    ]
unfolding scope_of allows contains_text
scope_of-allows lib none name h = refl
scope_of-allows lib (some l) name h = scan_names-allows lib name [] (lib.split l "|") h

abbrev name_or : String → Option String → String
name_or name none = name
name_or name (some n) = n

-- The request presents a key that is in the table, and acts in a namespace that the key's scope
-- allows, if it names one; an empty name stands for the default namespace.
pub Admitted : List (String × ApiKeyScope) → Option (List String) → Option String → Type 0
Admitted table metadata namespace =
    (key : String) × (scope : ApiKeyScope) × (presented_key metadata ≡ some key)
    × (scope_for key table ≡ some scope)
    × ((name : String) → namespace ≡ some name → allows scope (namespace_or_default name) ≡ true)

module _ (table : List (String × ApiKeyScope)) (metadata : Option (List String))
    (namespace : Option String) where
  allowed :
      (scope : ApiKeyScope) (named : Option String)
      → authorize_scope (some scope) named ≡ none
      → (name : String) → named ≡ some name
      → allows scope (namespace_or_default name) ≡ true
  unfolding authorize_scope
  allowed scope none h name q = ground (arith, q)
  allowed scope (some n) h name q =
      ap (λ o. allows scope (namespace_or_default (name_or name o))) (sym q) ∙ ground (arith, h)

  let_in :
      (scope : ApiKeyScope) (named : Option String)
      → ((name : String) → named ≡ some name → allows scope (namespace_or_default name) ≡ true)
      → authorize_scope (some scope) named ≡ none
  unfolding authorize_scope
  let_in scope none f = refl
  let_in scope (some n) f = ground (arith, f n refl)

  with_scope :
      (key : String) (o : Option ApiKeyScope)
      → presented_key metadata ≡ some key
      → scope_for key table ≡ o
      → authorize_scope o namespace ≡ none
      → Admitted table metadata namespace
  unfolding authorize_scope Admitted
  with_scope key none p q h = ground (arith, h)
  with_scope key (some scope) p q h = (key, scope, p, q, allowed scope namespace h)

  with_key :
      (o : Option String)
      → presented_key metadata ≡ o
      → authorize_key table o namespace ≡ none
      → Admitted table metadata namespace
  unfolding authorize_key Admitted
  with_key none p h = ground (arith, h)
  with_key (some key) p h = with_scope key (scope_for key table) p refl h

  Admitted-authorize : Admitted table metadata namespace → authorize table metadata namespace ≡ none
  unfolding authorize authorize_key Admitted
  Admitted-authorize (key, scope, p, q, f) =
      ap (λ o. authorize_key table o namespace) p
      ∙ ap (λ o. authorize_scope o namespace) q
      ∙ let_in scope namespace f

-- The interceptor lets a request through to its handler exactly if it presents a key of the table
-- whose scope allows the request's namespace, where it has one.
pub authorize-Admitted :
    (table : List (String × ApiKeyScope)) (metadata : Option (List String))
    (namespace : Option String)
    → (authorize table metadata namespace ≡ none) ↔ Admitted table metadata namespace
unfolding authorize
authorize-Admitted table metadata namespace = (
  with_key table metadata namespace (presented_key metadata) refl,
  Admitted-authorize table metadata namespace,
)
