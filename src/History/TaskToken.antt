-- ===== src/History/TaskToken.antt =====
-- internal/history/tasktoken.go: signed task tokens. JSON and HMAC-SHA256 are parameters.
pub mod Laws
use flowd_engine.Base.{
  ℕ, ◌≡◌, String, Bool, List, [], ◌∷◌, ◌++◌, Option, some, none, length, take, drop, ltb, ◌==◌,
  ◌&&◌, false, true, if◌then◌else◌,
}
use flowd_engine.Base.Result.{
  Result, ok, err, unmarshal_error, marshal_error, token_too_short, signature_mismatch,
  unsupported_version,
}
use flowd_engine.Proto.{Bytes}

pub data TaskTokenKind : Type 0 where
  workflow activity query : TaskTokenKind

pub record TaskToken : Type 0 where
  pub v : ℕ
  pub kind : TaskTokenKind
  pub namespace_id : ℕ
  pub workflow_id : String
  pub run_id : String
  pub task_id : ℕ
  pub lease_token : String

-- json.Marshal and json.Unmarshal of a TaskToken, and HMAC-SHA256 of a message under a key.
pub record TokenCodec : Type 0 where
  pub to_json : TaskToken → Bytes
  pub of_json : Bytes → Option TaskToken
  pub hmac : Bytes → Bytes → Bytes

abbrev pub task_token_version : ℕ
task_token_version = 2

abbrev pub sha256_size : ℕ
sha256_size = 32

unfoldable pub new_task_token : TaskTokenKind → ℕ → String → String → ℕ → String → TaskToken
new_task_token kind ns workflow_id run_id task_id lease_token = record {
  v = task_token_version;
  kind = kind;
  namespace_id = ns;
  workflow_id = workflow_id;
  run_id = run_id;
  task_id = task_id;
  lease_token = lease_token;
}

unfoldable pub encode : TokenCodec → TaskToken → Bytes → Bytes
encode c t key = let payload = c.to_json t in c.hmac key payload ++ payload

-- hmac.Equal
unfoldable pub bytes_eq : Bytes → Bytes → Bool
bytes_eq [] [] = true
bytes_eq [] (_ ∷ _) = false
bytes_eq (_ ∷ _) [] = false
bytes_eq (a ∷ xs) (b ∷ ys) = a == b && bytes_eq xs ys

abbrev check_version : TaskToken → Result TaskToken
check_version t = if t.v == task_token_version then ok t else err unsupported_version

abbrev parsed : Option TaskToken → Result TaskToken
parsed none = err unmarshal_error
parsed (some t) = check_version t

unfoldable pub decode_task_token : TokenCodec → Bytes → Bytes → Result TaskToken
unfolding bytes_eq
decode_task_token c b key =
    if ltb (length b) sha256_size
    then err token_too_short
    else (let sig = take sha256_size b in
        let payload = drop sha256_size b in
        if bytes_eq sig (c.hmac key payload)
        then parsed (c.of_json payload)
        else err signature_mismatch)
