-- ===== src/Crypto/Framing.antt =====
-- The wire format of relay_crypto.py: what `seal` writes, `open_blob` reads.
use worker_hive_relay.Prelude.{
  ℕ, ◌≤◌, String, ◌≡◌, ◌⊎◌, inl, inr, refl, sym, ap, subst, ◌∙◌, true, Option, none, some, [], ◌∷◌,
  ◌++◌, arith, Bytes, length, take, drop, length-append, take-append, take-append-drop, drop-append,
}
use worker_hive_relay.Env.{Env}
use worker_hive_relay.Exec.{Result, ok, fail, invalid_tag}
use worker_hive_relay.Value.{Value, obj, Fields}
use worker_hive_relay.Crypto.{
  Codec, magic_bytes, legacy_magic, version, write_magic, aad_with_magic, on_invalid_tag, decode,
  load_key, seal, open_blob, open_framed, bytes_eq,
}

-- AES-GCM decrypts what it encrypted, and refuses it under other associated data.
pub record IsAead (codec : Codec) : Type 0 where
  pub decrypt-encrypt :
      (key nonce plain aad : Bytes)
      → length key ≡ 32
      → length nonce ≡ 12
      → (c : Bytes) × (codec.encrypt key nonce plain aad ≡ ok c)
        × (codec.decrypt key nonce c aad ≡ ok plain)
  pub authentic :
      (key nonce plain aad other_aad c : Bytes)
      → codec.encrypt key nonce plain aad ≡ ok c
      → (aad ≡ other_aad → ⊥)
      → (m : String) × (codec.decrypt key nonce c other_aad ≡ fail invalid_tag m)

pub bytes_eq→eq : (xs ys : Bytes) → bytes_eq xs ys ≡ true → xs ≡ ys
bytes_eq→eq [] [] h = refl
bytes_eq→eq [] (y ∷ ys) h = cc
bytes_eq→eq (x ∷ xs) [] h = cc
bytes_eq→eq (x ∷ xs) (y ∷ ys) h = ground (arith, bytes_eq→eq xs ys)

-- The two magics that a reader accepts.
abbrev pub IsMagic : Bytes → Type 0
IsMagic m = (m ≡ magic_bytes) ⊎ (m ≡ legacy_magic)

pub write_magic-IsMagic : (env : Env) → IsMagic (write_magic env)
unfolding write_magic
write_magic-IsMagic env = ground arith

abbrev pub nonce_of : Bytes → Option Bytes → Bytes
nonce_of random none = random
nonce_of random (some n) = n

take_exact : (n : ℕ) (xs ys : Bytes) → length xs ≡ n → take n (xs ++ ys) ≡ xs
take_exact n xs ys h = subst (λ k. take k (xs ++ ys) ≡ xs) h (take-append xs ys)

drop_exact : (n : ℕ) (xs ys : Bytes) → length xs ≡ n → drop n (xs ++ ys) ≡ ys
drop_exact n xs ys h = subst (λ k. drop k (xs ++ ys) ≡ ys) h (drop-append xs ys)

module _ (codec : Codec) where
  -- Opening a well-framed blob is decrypting its parts.
  pub open-frame :
      (magic nonce c key : Bytes) (aad : Option Bytes)
      → IsMagic magic
      → length nonce ≡ 12
      → open_blob codec (magic ++ (version ∷ (nonce ++ c))) key aad
        ≡ decode codec (on_invalid_tag (codec.decrypt key nonce c (aad_with_magic magic aad)))
  unfolding open_blob
  open-frame magic nonce c key aad (inl e) h =
      rw (e, take_exact 12 nonce c h, drop_exact 12 nonce c h)
        (ground (arith, length-append nonce c))
  open-frame magic nonce c key aad (inr e) h =
      rw (e, take_exact 12 nonce c h, drop_exact 12 nonce c h)
        (ground (arith, length-append nonce c))

  -- `seal` past its checks writes magic, version, nonce and ciphertext.
  pub seal-frame :
      (env : Env) (random : Bytes) (payload : Fields) (key : Bytes) (aad nonce : Option Bytes)
      (c : Bytes)
      → length key ≡ 32
      → length (nonce_of random nonce) ≡ 12
      → codec.encrypt key
          (nonce_of random nonce)
          (codec.dumps_compact payload)
          (aad_with_magic (write_magic env) aad)
        ≡ ok c
      → seal codec env random payload key aad nonce
        ≡ ok (write_magic env ++ (version ∷ (nonce_of random nonce ++ c)))
  unfolding seal
  seal-frame env random payload key aad none c k n e = ground arith
  seal-frame env random payload key aad (some x) c k n e = ground arith

  module _ (law : IsAead codec) where
    -- The key and the nonce having their lengths, and the JSON codec reading this payload back,
    -- `seal` returns a blob that `open_blob` opens to the payload under the same key and
    -- associated data, whichever magic the writer uses.
    pub open_blob-seal :
        (env : Env) (random : Bytes) (payload : Fields) (key : Bytes) (aad nonce : Option Bytes)
        → length key ≡ 32
        → length (nonce_of random nonce) ≡ 12
        → codec.loads (codec.dumps_compact payload) ≡ some (obj payload)
        → (blob : Bytes) × (seal codec env random payload key aad nonce ≡ ok blob)
          × (open_blob codec blob key aad ≡ ok (obj payload))
    open_blob-seal env random payload key aad nonce k n j =
        let (c, e, d) =
          law.decrypt-encrypt key (nonce_of random nonce) (codec.dumps_compact payload)
            (aad_with_magic (write_magic env) aad) k n in
        (
          write_magic env ++ (version ∷ (nonce_of random nonce ++ c)),
          seal-frame env random payload key aad nonce c k n e,
          rw
              (open-frame (write_magic env) (nonce_of random nonce) c key aad
                (write_magic-IsMagic env) n)
              (rw (d, j)),
        )

  decode-ok :
      (r : Result Bytes) (v : Value)
      → decode codec (on_invalid_tag r) ≡ ok v
      → (plain : Bytes) × (r ≡ ok plain) × (codec.loads plain ≡ some v)
  decode-ok r v h = ground arith

  open_framed-ok :
      (magic tail key : Bytes) (aad : Option Bytes) (v : Value)
      → open_framed codec magic tail key aad ≡ ok v
      → IsMagic magic
        × (rest : Bytes) × (tail ≡ version ∷ rest)
        × (decode codec (
              on_invalid_tag
                (codec.decrypt key (take 12 rest) (drop 12 rest) (aad_with_magic magic aad)))
            ≡ ok v)
  open_framed-ok magic [] key aad v h = absurd (ground arith)
  open_framed-ok magic (x ∷ rest) key aad v h = (
    ground (arith, bytes_eq→eq magic magic_bytes, bytes_eq→eq magic legacy_magic),
    rest,
    ground arith,
    ground arith,
  )

  -- A blob that opens has at least 17 bytes, an accepted magic and the version; its body decrypts
  -- under the associated data that its own magic gives; and the plaintext is the JSON text of
  -- the result.
  pub open_blob-ok :
      (blob key : Bytes) (aad : Option Bytes) (v : Value)
      → open_blob codec blob key aad ≡ ok v
      → (17 ≤ length blob)
        × (magic : Bytes) × (nonce : Bytes) × (c : Bytes) × (plain : Bytes) × (blob
            ≡ magic ++ (version ∷ (nonce ++ c)))
        × IsMagic magic
        × (codec.decrypt key nonce c (aad_with_magic magic aad) ≡ ok plain)
        × (codec.loads plain ≡ some v)
  unfolding open_blob
  open_blob-ok blob key aad v h =
      let (m, rest, t, d) = open_framed-ok (take 4 blob) (drop 4 blob) key aad v (ground arith) in
      let (plain, e, j) = decode-ok _ v d in
      (
        ground arith,
        take 4 blob,
        take 12 rest,
        drop 12 rest,
        plain,
        sym (take-append-drop 4 blob)
            ∙ ap (λ z. take 4 blob ++ z)
                (t ∙ ap (λ z. version ∷ z) (sym (take-append-drop 12 rest))),
        m,
        e,
        j,
      )

  -- A key that loads has 32 bytes.
  pub length-load_key :
      (env : Env) (given : Option String) (key : Bytes)
      → load_key codec env given ≡ ok key
      → length key ≡ 32
  unfolding load_key
  length-load_key env none key h = ground arith
  length-load_key env (some raw) key h = ground arith
