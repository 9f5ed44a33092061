-- ===== src/Db/Namespaces.antt =====
-- sqlc/namespaces.sql.go.
use flowd_engine.Base.{ℕ, suc, none, some, [], ◌∷◌, ◌++◌, String, str_eq, find?}
use flowd_engine.Base.Result.{no_rows, Tx, ok, err, or_fail}
use flowd_engine.Db.Types.{Db, Namespace}

unfoldable pub get_namespace_by_name : String → Tx Db Namespace
get_namespace_by_name name db = or_fail no_rows (find? (λ n. str_eq n.name name) db.namespaces) db

-- INSERT … ON CONFLICT (name) DO NOTHING RETURNING *: no row comes back for a name that is taken.
unfoldable pub create_namespace_row : ℕ → String → Tx Db Namespace
create_namespace_row now name db = elim (find? (λ n. str_eq n.name name) db.namespaces) [
  | some _ ↦ err no_rows
  | none ↦
      let row : Namespace = record { id = db.next_namespace_id; name = name; created_at = now } in
      ok (
        row,
        record db {
          namespaces = db.namespaces ++ row ∷ [];
          next_namespace_id = suc db.next_namespace_id;
        },
      )
]
