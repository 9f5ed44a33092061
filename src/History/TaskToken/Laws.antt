-- ===== src/History/TaskToken/Laws.antt =====
-- What a task token that decodes, or does not, says.
use flowd_engine.Base.{
  ◌≡◌, ap, ◌↔◌, [], ◌∷◌, ◌++◌, some, length, take, drop, take-length-append, drop-length-append,
  length-append, arith, ◌≤◌, true,
}
use flowd_engine.Base.Result.{ok}
use flowd_engine.Proto.{Bytes}
use flowd_engine.History.TaskToken.{
  TaskToken, TokenCodec, task_token_version, sha256_size, encode, bytes_eq, decode_task_token,
}

bytes_eq_iff : (a b : Bytes) → (bytes_eq a b ≡ true) ↔ (a ≡ b)
unfolding bytes_eq
bytes_eq_iff [] [] = ground arith
bytes_eq_iff [] (b ∷ bs) = ground arith
bytes_eq_iff (a ∷ xs) [] = ground arith
bytes_eq_iff (a ∷ xs) (b ∷ ys) = ground (arith, bytes_eq_iff xs ys)

-- A token of the current version that was encoded decodes, under the same key, to itself, if its
-- JSON reads back as it and its HMAC-SHA256 is 32 bytes long.
pub decode-encode :
    (c : TokenCodec) (t : TaskToken) (key : Bytes)
    → c.of_json (c.to_json t) ≡ some t
    → length (c.hmac key (c.to_json t)) ≡ sha256_size
    → t.v ≡ task_token_version
    → decode_task_token c (encode c t key) key ≡ ok t
unfolding decode_task_token encode
decode-encode c t key json size h =
    let payload = c.to_json t in
    let sig = c.hmac key payload in
    ground (
      arith,
      size,
      length-append sig payload,
      ap (λ n. take n (sig ++ payload)) size,
      ap (λ n. drop n (sig ++ payload)) size,
      take-length-append sig payload,
      drop-length-append sig payload,
      bytes_eq_iff sig sig,
      json,
    )

-- A token that decodes is signed with the key, over the JSON of the token that comes out, and has
-- the current version.
pub decode-signed :
    (c : TokenCodec) (b key : Bytes) (t : TaskToken)
    → decode_task_token c b key ≡ ok t
    → (sha256_size ≤ length b)
      × (take sha256_size b ≡ c.hmac key (drop sha256_size b))
      × (c.of_json (drop sha256_size b) ≡ some t)
      × (t.v ≡ task_token_version)
unfolding decode_task_token
decode-signed c b key t h =
    ground (arith, bytes_eq_iff (take sha256_size b) (c.hmac key (drop sha256_size b)))
