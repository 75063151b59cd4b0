-- ===== src/Tests.antt =====
-- A process and a bus for the tests: flat JSON in a length-tagged form, a sealing that carries its
-- associated data, and a bus that answers every request with one status code.
pub mod Client
pub mod Crypto
pub mod Poller
pub mod Home
pub mod Repos
pub mod Lander
pub mod Feed
pub mod Executors
use Prim.Native.Char.{Char, code}
use Prim.Native.String.{char_at}
use worker_hive_relay.Prelude.{
  ℕ, zero, suc, ◌+◌, ◌-◌, String, ◌<>◌, ◌≡◌, refl, sym, ap, inl, inr, Bool, true, false, Option,
  none, some, List, [], ◌∷◌, ◌++◌, arith, Bytes, length, take, drop, take-append, drop-append, ◌==◌,
  if◌then◌else◌, len, Bool-cases,
}
use worker_hive_relay.Exec.{Result, ok, err, fail, invalid_tag}
use worker_hive_relay.Value.{
  Value, null, bool, num, str, arr, obj, Items, nil, Fields, empty, field,
}
use worker_hive_relay.Crypto.{Codec, bytes_eq}
use worker_hive_relay.Crypto.Framing.{IsAead, bytes_eq→eq}
use worker_hive_relay.Backend.Memory.{Store, memory}
use worker_hive_relay.Client.{Host, World}
use worker_hive_relay.Hive.{Bus, Bridge, HiveClient}

-- A text, behind its length.
pub codes : String → Bytes
codes String.[] = []
codes (String.◌∷◌ c s) = code c ∷ codes s

pub of_codes : Bytes → String
of_codes [] = ""
of_codes (c ∷ cs) =
    String.◌∷◌
      (char_at
        " !\"#$%&'()*+,-./0123456789:;<=>?@ABCDEFGHIJKLMNOPQRSTUVWXYZ[\\]^_`abcdefghijklmnopqrstuvwxyz"
        (c - 32))
      (of_codes cs)

abbrev text_bytes : String → Bytes
text_bytes s = length (codes s) ∷ codes s

pub value_bytes : Value → Bytes
unfolding codes
value_bytes null = 0 ∷ []
value_bytes (bool true) = 1 ∷ []
value_bytes (bool false) = 2 ∷ []
value_bytes (num n) = 3 ∷ n ∷ []
value_bytes (str s) = 4 ∷ text_bytes s
value_bytes (arr _) = 5 ∷ []
value_bytes (obj _) = 5 ∷ []

pub dumps : Fields → Bytes
unfolding value_bytes
dumps empty = 0 ∷ []
dumps (field k v d) = 1 ∷ (text_bytes k ++ (value_bytes v ++ dumps d))

abbrev read_text : Bytes → String × Bytes
read_text [] = ("", [])
read_text (n ∷ rest) = (of_codes (take n rest), drop n rest)

abbrev read_num : Bytes → Option (Value × Bytes)
read_num [] = none
read_num (n ∷ rest) = some (num n, rest)

abbrev read_value : Bytes → Option (Value × Bytes)
read_value [] = none
read_value (tag ∷ rest) =
    if tag == 0
    then some (null, rest)
    else if tag == 1
    then some (bool true, rest)
    else if tag == 2
    then some (bool false, rest)
    else if tag == 3
    then read_num rest
    else if tag == 4
    then some (str (read_text rest).0, (read_text rest).1)
    else none

abbrev with_field : String → Option (Value × Bytes) → (Bytes → Option Fields) → Option Fields
with_field k none more = none
with_field k (some (v, rest)) more = elim (more rest) [ none ↦ none | some d ↦ some (field k v d) ]

pub read_fields : ℕ → Bytes → Option Fields
unfolding of_codes
read_fields zero bytes = none
read_fields (suc n) [] = none
read_fields (suc n) (zero ∷ _) = some empty
read_fields (suc n) (suc _ ∷ rest) =
    let more = read_fields n in with_field (read_text rest).0 (read_value (read_text rest).1) more

pub loads : Bytes → Option Value
unfolding read_fields
loads bytes = elim (read_fields (length bytes) bytes) [ none ↦ none | some d ↦ some (obj d) ]

abbrev decrypt : Bytes → Bytes → Result Bytes
decrypt [] aad = fail invalid_tag "tag"
decrypt (n ∷ rest) aad =
    if bytes_eq (take n rest) aad then ok (drop n rest) else fail invalid_tag "tag"

abbrev pub codec : Codec
codec = record {
  encrypt = λ key nonce plain aad. ok (length aad ∷ (aad ++ plain));
  decrypt = λ key nonce c aad. decrypt c aad;
  dumps = dumps;
  dumps_compact = dumps;
  loads = loads;
  b64decode = λ s. some (codes s);
}

bytes_eq_refl : (xs : Bytes) → bytes_eq xs xs ≡ true
bytes_eq_refl [] = refl
bytes_eq_refl (x ∷ xs) = ground (arith, bytes_eq_refl xs)

pub codec-IsAead : IsAead codec
codec-IsAead = record {
  decrypt-encrypt = λ key nonce plain aad k n. (
    length aad ∷ (aad ++ plain),
    refl,
    rw (take-append aad plain, drop-append aad plain, bytes_eq_refl aad) refl,
  );
  authentic = λ key nonce plain aad other_aad c made differ.
      ("tag", refused plain aad other_aad c made differ);
}
  where
    refused :
        (plain aad other c : Bytes)
        → Path (Result Bytes) (ok (length aad ∷ (aad ++ plain))) (ok c)
        → (aad ≡ other → ⊥)
        → decrypt c other ≡ fail invalid_tag "tag"
    refused plain aad other c made differ =
        let e : c ≡ length aad ∷ (aad ++ plain) = cc made in
        rw e (
          rw (take-append aad plain) (elim (Bool-cases (bytes_eq aad other)) [
            | inl same ↦ absurd (differ (bytes_eq→eq aad other same))
            | inr unequal ↦ rw unequal refl
          ]))

abbrev pub nonce : Bytes
nonce = 1 ∷ 2 ∷ 3 ∷ 4 ∷ 5 ∷ 6 ∷ 7 ∷ 8 ∷ 9 ∷ 10 ∷ 11 ∷ 12 ∷ []

abbrev pub host : Host
host = record {
  env = λ name. none;
  codec = codec;
  time = λ n. n + 100;
  urandom = λ n. nonce;
  parse_float = λ s. none;
}

abbrev pub key : Bytes
key = nonce ++ (nonce ++ take 8 nonce)

-- A bus that gives every request the same status code, and counts the requests.
abbrev pub bus : ℕ → Bus
bus code = record {
  State = ℕ;
  send = λ r n. (some (record { status_code = code; json = none }), suc n);
}

abbrev pub hive : HiveClient
hive = record {
  base = "http://hive";
  urn = "urn:agent:system:home:r";
  runtime = "system";
  kind = "system";
  host = "home";
  capabilities = nil;
  provider = "unknown";
  model = "unknown";
  agent_token = null;
}

-- A store with the given objects, and a process that works on it.
abbrev pub world : {X : Type 0} → List (String × Bytes × ℕ) → X → World memory X
world objs x = record {
  bucket = record { objs = objs; seq = length objs };
  cursors = [];
  readings = 0;
  rest = x;
}

abbrev pub bridge : (code : ℕ) → Bridge (bus code)
bridge code = record { hive = hive; bus = 0 }
