-- ===== src/Crypto.antt =====
-- node_relay/relay_crypto.py: sealing and opening the blobs that cross the bucket.
-- AES-256-GCM and the JSON and base64 codecs are parameters; the framing is modelled in full.
pub mod Framing
pub mod Binding
use worker_hive_relay.Prelude.{
  ℕ, ◌+◌, String, ◌<>◌, ◌≡◌, Bool, true, false, not, ◌&&◌, ◌||◌, Option, none, some, List, [], ◌∷◌,
  ◌++◌, Bytes, length, take, drop, ltb, ◌==◌, ◌=ₛ◌, if◌then◌else◌, utf8, strip, lower,
}
use worker_hive_relay.Env.{Env, env_of, nonempty}
use worker_hive_relay.Exec.{
  Error, Result, ok, err, fail, invalid_tag, crypto_error, not_found, value_error, type_error,
  attribute_error, key_error, hive_claim_error, hive_registration_error, mnemos_search_error,
  transient_landing, permanent_landing, runtime_error, system_exit, other,
}
use worker_hive_relay.Value.{Value, Fields}

-- What the code calls and the repository does not hold: AESGCM of `cryptography`, by key, nonce,
-- text and associated data, and the codecs `json` and `base64` (`none` is their ValueError).
-- `dumps` is `json.dumps` in UTF-8, `dumps_compact` the same with the separators "," and ":".
pub record Codec : Type 0 where
  pub encrypt : Bytes → Bytes → Bytes → Bytes → Result Bytes
  pub decrypt : Bytes → Bytes → Bytes → Bytes → Result Bytes
  pub dumps : Fields → Bytes
  pub dumps_compact : Fields → Bytes
  pub loads : Bytes → Option Value
  pub b64decode : String → Option Bytes

-- b"NDR1"
abbrev pub magic_bytes : Bytes
magic_bytes = 78 ∷ 68 ∷ 82 ∷ 49 ∷ []

-- b"SHR1"
abbrev pub legacy_magic : Bytes
legacy_magic = 83 ∷ 72 ∷ 82 ∷ 49 ∷ []

abbrev pub version : ℕ
version = 1

abbrev pub nonce_len : ℕ
nonce_len = 12

abbrev pub header : Bytes
header = magic_bytes ++ version ∷ []

abbrev key_envs : List String
key_envs = "NODE_RELAY_E2EE_KEY" ∷ "SPARK_HIVE_RELAY_E2EE_KEY" ∷ []

abbrev pub bytes_eq : Bytes → Bytes → Bool
bytes_eq [] [] = true
bytes_eq [] (_ ∷ _) = false
bytes_eq (_ ∷ _) [] = false
bytes_eq (x ∷ xs) (y ∷ ys) = x == y && bytes_eq xs ys

key_from_env : Env → Option String
unfolding env_of
key_from_env env = env_of env key_envs none

-- `aad_for(kind, uuid)`.
unfoldable pub aad_for : String → String → Bytes
aad_for kind uuid = utf8 (kind <> (":" <> uuid))

unfoldable pub write_magic : Env → Bytes
write_magic env =
    let flag =
      lower (strip (elim (env "NODE_RELAY_WRITE_LEGACY_MAGIC") [ none ↦ "" | some f ↦ f ])) in
    if flag =ₛ "1" || flag =ₛ "true" || flag =ₛ "yes" || flag =ₛ "on"
    then legacy_magic
    else magic_bytes

unfoldable pub aad_with_magic : Bytes → Option Bytes → Bytes
aad_with_magic magic none = magic ++ version ∷ []
aad_with_magic magic (some context) = magic ++ (version ∷ context)

-- `except InvalidTag` around the decryption; any other exception passes.
abbrev pub on_invalid_tag : Result Bytes → Result Bytes
on_invalid_tag (ok p) = ok p
on_invalid_tag (err e) = elim e.kind [
  | invalid_tag ↦ fail crypto_error "authentication failed — wrong key or tampered blob"
  | _ ↦ err e
]

module _ (codec : Codec) where
  check_key_len : Bytes → Result Bytes
  check_key_len key =
      if length key == 32
      then ok key
      else fail crypto_error "E2EE key must decode to 32 bytes (AES-256)"

  check_decoded : Option Bytes → Result Bytes
  unfolding check_key_len
  check_decoded none = fail crypto_error "E2EE key is not valid base64"
  check_decoded (some key) = check_key_len key

  load_raw : Option String → Result Bytes
  unfolding check_decoded
  load_raw none = fail crypto_error "no E2EE key"
  load_raw (some raw) =
      if raw =ₛ "" then fail crypto_error "no E2EE key" else check_decoded (codec.b64decode raw)

  -- `load_key(b64_key)`.
  unfoldable pub load_key : Env → Option String → Result Bytes
  unfolding load_raw key_from_env
  load_key env none = load_raw (key_from_env env)
  load_key env (some b64_key) = load_raw (some b64_key)

  abbrev frame : Bytes → Bytes → Result Bytes → Result Bytes
  frame magic nonce (ok ciphertext) = ok (magic ++ (version ∷ (nonce ++ ciphertext)))
  frame magic nonce (err e) = err e

  -- The body of `seal` once the nonce is known.
  seal_with : Bytes → Fields → Bytes → Option Bytes → Bytes → Result Bytes
  seal_with magic payload key aad nonce =
      frame magic nonce
        (codec.encrypt key nonce (codec.dumps_compact payload) (aad_with_magic magic aad))

  -- `seal(payload, key, aad, nonce)`; `random` is what `os.urandom(12)` gives if it is asked.
  unfoldable pub seal :
      Env → (random : Bytes) → Fields → (key : Bytes) → (aad nonce : Option Bytes) → Result Bytes
  unfolding seal_with
  seal env random payload key aad none =
      if length key == 32
      then seal_with (write_magic env) payload key aad random
      else fail crypto_error "key must be 32 bytes"
  seal env random payload key aad (some nonce) =
      if not (length key == 32)
      then fail crypto_error "key must be 32 bytes"
      else if not (length nonce == nonce_len)
      then fail crypto_error "nonce must be 12 bytes"
      else seal_with (write_magic env) payload key aad nonce

  -- The last line of `open_blob`: `json.loads(plaintext)`, whose ValueError is not caught.
  abbrev decode : Result Bytes → Result Value
  decode (err e) = err e
  decode (ok plaintext) = elim (codec.loads plaintext) [
    | none ↦ fail value_error "malformed JSON"
    | some v ↦ ok v
  ]

  -- `open_blob` behind its length check: the magic, the version byte and the rest.
  abbrev open_framed : Bytes → Bytes → Bytes → Option Bytes → Result Value
  open_framed magic [] key aad = fail crypto_error "blob too short"
  open_framed magic (v ∷ rest) key aad =
      if not (bytes_eq magic magic_bytes) && not (bytes_eq magic legacy_magic)
      then fail crypto_error "bad magic — not a mnemos-node-relay blob"
      else if not (v == version)
      then fail crypto_error "unsupported relay version"
      else decode (
          on_invalid_tag (
            codec.decrypt key (take nonce_len rest) (drop nonce_len rest)
              (aad_with_magic magic aad)))

  unfoldable pub open_blob : Bytes → (key : Bytes) → (aad : Option Bytes) → Result Value
  open_blob blob key aad =
      if ltb (length blob) (length header + nonce_len)
      then fail crypto_error "blob too short"
      else open_framed (take 4 blob) (drop 4 blob) key aad
