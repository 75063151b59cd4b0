-- ===== src/Crypto/Binding.antt =====
-- A blob is bound to its prefix and job: `aad_for` and the refusal of a moved blob.
use Prim.Native.Char.{Char, code}
use text.Mathlib.TextLemmas
use worker_hive_relay.Prelude.{
  String, ◌<>◌, ◌≡◌, refl, sym, ap, ap₂, ◌∙◌, Bool, true, not, ◌&&◌, Option, some, [], ◌∷◌, ◌++◌,
  arith, Bytes, length, ◌==◌, utf8-injective,
}
use worker_hive_relay.Env.{Env}
use worker_hive_relay.Exec.{ok, fail, crypto_error}
use worker_hive_relay.Value.{Fields}
use worker_hive_relay.Crypto.{Codec, version, write_magic, aad_for, aad_with_magic, seal, open_blob}
use worker_hive_relay.Crypto.Framing.{IsAead, write_magic-IsMagic, nonce_of, open-frame, seal-frame}

-- A text without a colon, such as a blob's kind.
abbrev pub has_no_colon : String → Bool
has_no_colon String.[] = true
has_no_colon (String.◌∷◌ c s) = not (code c == b':') && has_no_colon s

head_of : (c d : Char) (p q u : String) → String.◌∷◌ c p <> u ≡ String.◌∷◌ d q → c ≡ d
head_of c d p q u h = TextLemmas.head-eq_of_cons-eq (sym (TextLemmas.cons-append c p u) ∙ h)

cut_at_colon :
    (k l u v : String)
    → has_no_colon k ≡ true
    → has_no_colon l ≡ true
    → k <> (":" <> u) ≡ l <> (":" <> v)
    → (k ≡ l) × (u ≡ v)
cut_at_colon String.[] String.[] u v hk hl h = (
  refl,
  TextLemmas.append_cancel_left ":" u v
      (sym (TextLemmas.nil-append (":" <> u)) ∙ h ∙ TextLemmas.nil-append (":" <> v)),
)
cut_at_colon String.[] (String.◌∷◌ d l) u v hk hl h = absurd (
    let e : b':' ≡ code d = ap code (
      head_of ":" d "" (l <> (":" <> v)) u
        (sym (TextLemmas.nil-append (":" <> u)) ∙ h ∙ TextLemmas.cons-append d l (":" <> v))) in
    ground arith)
cut_at_colon (String.◌∷◌ c k) String.[] u v hk hl h = absurd (
    let e : b':' ≡ code c = ap code (
      head_of ":" c "" (k <> (":" <> u)) v
        (sym (TextLemmas.nil-append (":" <> v)) ∙ sym h ∙ TextLemmas.cons-append c k (":" <> u))) in
    ground arith)
cut_at_colon (String.◌∷◌ c k) (String.◌∷◌ d l) u v hk hl h =
    let e =
      sym (TextLemmas.cons-append c k (":" <> u)) ∙ h ∙ TextLemmas.cons-append d l (":" <> v) in
    let (r, t) =
      cut_at_colon k l u v (ground arith) (ground arith) (TextLemmas.tail-eq_of_cons-eq e) in
    (ap₂ String.◌∷◌ (TextLemmas.head-eq_of_cons-eq e) r, t)

-- Kinds without a colon and job ids: different pairs have different associated data.
pub aad_for-injective :
    (kind other_kind uuid other_uuid : String)
    → has_no_colon kind ≡ true
    → has_no_colon other_kind ≡ true
    → aad_for kind uuid ≡ aad_for other_kind other_uuid
    → (kind ≡ other_kind) × (uuid ≡ other_uuid)
unfolding aad_for
aad_for-injective kind other_kind uuid other_uuid hk hl h =
    cut_at_colon kind other_kind uuid other_uuid hk hl (utf8-injective _ _ h)

aad_with_magic-injective :
    (magic : Bytes) (a b : Bytes)
    → aad_with_magic magic (some a) ≡ aad_with_magic magic (some b)
    → a ≡ b
unfolding aad_with_magic
aad_with_magic-injective [] a b h = cc
aad_with_magic-injective (x ∷ magic) a b h =
    aad_with_magic-injective magic a b (unfold aad_with_magic in cc)

module _ (codec : Codec) (law : IsAead codec) where
  -- A blob that `seal` made for one kind and job is refused with a RelayCryptoError when it is
  -- opened for another kind or another job; kinds have no colon, and the key and the nonce
  -- have their lengths.
  pub open_blob-seal_moved :
      (env : Env) (random : Bytes) (payload : Fields) (key : Bytes) (nonce : Option Bytes)
      (kind other_kind uuid other_uuid : String) (blob : Bytes)
      → length key ≡ 32
      → length (nonce_of random nonce) ≡ 12
      → has_no_colon kind ≡ true
      → has_no_colon other_kind ≡ true
      → ((kind ≡ other_kind) × (uuid ≡ other_uuid) → ⊥)
      → seal codec env random payload key (some (aad_for kind uuid)) nonce ≡ ok blob
      → (m : String) × (open_blob codec blob key (some (aad_for other_kind other_uuid))
          ≡ fail crypto_error m)
  open_blob-seal_moved env random payload key nonce kind other_kind uuid other_uuid blob k n hk hl
        differ s =
      let magic = write_magic env in
      let aad = aad_with_magic magic (some (aad_for kind uuid)) in
      let moved = aad_with_magic magic (some (aad_for other_kind other_uuid)) in
      let (c, e, _) =
        law.decrypt-encrypt key (nonce_of random nonce) (codec.dumps_compact payload) aad k n in
      let (m, refused) =
        law.authentic key (nonce_of random nonce) (codec.dumps_compact payload) aad moved c e
          (λ same. differ (
            aad_for-injective kind other_kind uuid other_uuid hk hl
              (aad_with_magic-injective magic _ _ same))) in
      let made = seal-frame codec env random payload key (some (aad_for kind uuid)) nonce c k n e in
      let framed =
        open-frame codec magic (nonce_of random nonce) c key (some (aad_for other_kind other_uuid))
          (write_magic-IsMagic env) n in
      let same : blob ≡ magic ++ (version ∷ (nonce_of random nonce ++ c)) = cc (s, made) in
      ("authentication failed — wrong key or tampered blob", rw same (framed ∙ rw refused))
