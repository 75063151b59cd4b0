-- ===== src/Client.antt =====
-- node_relay/relay_client.py: `RelayClient`, the job queue over an object store.
pub mod Keys
pub mod Sweep
pub mod Rotation
pub mod Fairness
pub mod Claim
pub mod Lease
pub mod Objects
pub mod Purge
pub mod Frame
use worker_hive_relay.Prelude.{
  ℕ, suc, ◌+◌, String, ◌<>◌, ◌≡◌, Bool, true, false, not, ◌&&◌, Option, none, some, List, [], ◌∷◌,
  ◌++◌, Bytes, length, ltb, leb, ◌==◌, ◌=ₛ◌, if◌then◌else◌, starts_with, str_lt, ends_with, len,
  cut,
}
use worker_hive_relay.Env.{Env}
use worker_hive_relay.Exec.{
  Error, Result, ok, err, fail, Exec, pure, lift, raise, gets, attempt, ◌>>=◌, ◌>>◌, invalid_tag,
  crypto_error, not_found, value_error, type_error, attribute_error, key_error, hive_claim_error,
  hive_registration_error, mnemos_search_error, transient_landing, permanent_landing, runtime_error,
  system_exit, other,
}
use worker_hive_relay.Value.{
  Value, null, bool, num, str, arr, obj, Fields, empty, field, get, get_or, get_null, equals_str,
}
use worker_hive_relay.Crypto.{Codec}
use worker_hive_relay.Backend.{Backend}

-- The process around the code: its environment, the library codecs, the readings of the clock
-- and of the random source in the order in which they are taken, and `float` on a text
-- (`none` is its ValueError). Times are whole units of one scale.
pub record Host : Type 0 where
  pub env : Env
  pub codec : Codec
  pub time : ℕ → ℕ
  pub urandom : ℕ → Bytes
  pub parse_float : String → Option ℕ

-- The bucket, the client's `_scan_cursors`, how many readings were taken, and what else the
-- process works on.
pub record World (B : Backend) (X : Type 0) : Type 0 where
  pub bucket : B.State
  pub cursors : List (String × String)
  pub readings : ℕ
  pub rest : X

abbrev pub cursor_of : String → List (String × String) → Option String
cursor_of p [] = none
cursor_of p ((q, c) ∷ more) = if q =ₛ p then some c else cursor_of p more

abbrev pub default_lease_seconds : ℕ
default_lease_seconds = 7200

abbrev pub suffix : String
suffix = ".json.enc"

abbrev pub pending_prefix : String
pending_prefix = "pending/"

abbrev pub terminal_prefix : String
terminal_prefix = "terminal/"

-- The kinds of object that a job has, and their names in the bucket.
pub data Slot : Type 0 where
  pending claimant claimed terminal active : Slot

unfoldable pub key_of : Slot → String → String
key_of pending uuid = "pending/" <> (uuid <> suffix)
key_of claimant uuid = "claimant/" <> (uuid <> suffix)
key_of claimed uuid = "claimed/" <> uuid
key_of terminal uuid = "terminal/" <> (uuid <> suffix)
key_of active uuid = "status/active/" <> (uuid <> suffix)

unfoldable pub status_key : String → String
status_key name = "status/" <> (name <> suffix)

-- `float(v)`.
unfoldable pub to_float : Host → Value → Result ℕ
to_float host (num n) = ok n
to_float host (bool true) = ok 1
to_float host (bool false) = ok 0
to_float host (str s) = elim (host.parse_float s) [
  | none ↦ fail value_error "could not convert string to float"
  | some n ↦ ok n
]
to_float host null = fail type_error "float() argument must be a string or a real number"
to_float host (arr _) = fail type_error "float() argument must be a string or a real number"
to_float host (obj _) = fail type_error "float() argument must be a string or a real number"

-- The dictionary behind a parsed document; `.get` of anything else is an AttributeError.
unfoldable pub as_dict : Value → Result Fields
as_dict (obj d) = ok d
as_dict null = fail attribute_error "'NoneType' object has no attribute 'get'"
as_dict (bool _) = fail attribute_error "'bool' object has no attribute 'get'"
as_dict (num _) = fail attribute_error "'float' object has no attribute 'get'"
as_dict (str _) = fail attribute_error "'str' object has no attribute 'get'"
as_dict (arr _) = fail attribute_error "'list' object has no attribute 'get'"

-- `except (ValueError, TypeError)` with a default; any other exception passes.
abbrev pub on_bad_value {ℓ} : {A : Type ℓ} → A → Result A → Result A
on_bad_value d (ok a) = ok a
on_bad_value d (err e) = elim e.kind [ value_error ↦ ok d | type_error ↦ ok d | _ ↦ err e ]

-- The lease marker that `claim` and `renew_claim` write.
unfoldable pub marker : Host → String → ℕ → Bytes
marker host owner now =
    host.codec.dumps (field "owner" (str owner) (field "claimed_at" (num now) empty))

abbrev parsed_float : Host → Result Fields → Result ℕ
parsed_float host (ok d) = to_float host (get_or "claimed_at" (num 0) d)
parsed_float host (err e) = err e

abbrev parsed_marker : Option Value → Result Fields
parsed_marker none = fail value_error "malformed JSON"
parsed_marker (some v) = as_dict v

-- `float(json.loads(raw).get("claimed_at", 0))`.
unfoldable pub claimed_at : Host → Bytes → Result ℕ
unfolding to_float as_dict
claimed_at host raw = parsed_float host (parsed_marker (host.codec.loads raw))

-- `json.loads(raw)`, then `.get("owner") == owner`; `none` is the ValueError that is caught.
abbrev owner_matches : Result Fields → String → Result Bool
owner_matches (ok d) owner = ok (equals_str (get_null "owner" d) owner)
owner_matches (err e) owner = err e

pub is_owner : Host → Bytes → String → Result Bool
unfolding as_dict
is_owner host raw owner =
    on_bad_value false (owner_matches (parsed_marker (host.codec.loads raw)) owner)

-- The marker's time and owner, or `none` where the code returns False.
held_since : Host → Bytes → String → Result (Option (ℕ × Bool))
held_since host raw owner = on_bad_value none (elim (claimed_at host raw) [
  | err e ↦ err e
  | ok t ↦ elim (is_owner host raw owner) [ err e ↦ err e | ok mine ↦ ok (some (t, mine)) ]
])

module _ (host : Host) {B : Backend} {X : Type 0} where
  -- `time.time()`.
  abbrev pub read_clock : Exec (World B X) ℕ
  read_clock w = (ok (host.time w.readings), record w { readings = suc w.readings })

  -- `time.time() if now is None else now`.
  abbrev pub now_or_clock : Option ℕ → Exec (World B X) ℕ
  now_or_clock none = read_clock
  now_or_clock (some n) = pure n

module _ {B : Backend} {X : Type 0} where
  -- A request to the store.
  abbrev pub request {ℓ} : {A : Type ℓ} → Exec B.State A → Exec (World B X) A
  request m w = ((m w.bucket).0, record w { bucket = (m w.bucket).1 })

  -- A step on the rest of what the process works on.
  abbrev pub at_rest {ℓ} : {A : Type ℓ} → Exec X A → Exec (World B X) A
  at_rest m w = ((m w.rest).0, record w { rest = (m w.rest).1 })

  unfoldable pub put_pending : String → Bytes → Exec (World B X) (Unit {0})
  put_pending uuid sealed = request (B.put (key_of pending uuid) sealed)

  unfoldable pub put_claimant : String → Bytes → Exec (World B X) (Unit {0})
  put_claimant uuid sealed = request (B.put (key_of claimant uuid) sealed)

  unfoldable pub get_pending : String → Exec (World B X) Bytes
  get_pending uuid = request (B.read (key_of pending uuid))

  unfoldable pub get_claimant : String → Exec (World B X) Bytes
  get_claimant uuid = request (B.read (key_of claimant uuid))

  pub put_terminal : String → Bytes → Exec (World B X) Bool
  put_terminal uuid sealed = request (B.create_only (key_of terminal uuid) sealed)

  unfoldable pub get_terminal : String → Exec (World B X) Bytes
  get_terminal uuid = request (B.read (key_of terminal uuid))

  unfoldable pub put_status : String → Bytes → Exec (World B X) (Unit {0})
  put_status name sealed = request (B.put (status_key name) sealed)

  unfoldable pub get_status : String → Exec (World B X) (Option Bytes)
  get_status name = request (B.read_opt (status_key name))

  pub put_active : String → Bytes → Exec (World B X) (Unit {0})
  put_active uuid sealed = request (B.put (key_of active uuid) sealed)

  pub get_active : String → Exec (World B X) (Option Bytes)
  get_active uuid = request (B.read_opt (key_of active uuid))

  unfoldable pub purge : String → Exec (World B X) (Unit {0})
  purge uuid = do
    request (B.delete (key_of pending uuid))
    request (B.delete (key_of claimant uuid))
    request (B.delete (key_of claimed uuid))
    request (B.delete (key_of terminal uuid))
    request (B.delete (key_of active uuid))

module _ (host : Host) {B : Backend} {X : Type 0} where
  -- The end of `claim`: what stands in the way is read, and taken over once its lease is over.
  pub take_over : String → Bytes → ℕ → ℕ → Option (Bytes × B.Version) → Exec (World B X) Bool
  take_over uuid body now lease none = pure false
  take_over uuid body now lease (some (raw, version)) = do
    since ← lift (on_bad_value 0 (claimed_at host raw))
    if ltb now (since + lease)
        then pure false
        else request (B.cas_write (key_of claimed uuid) body version)

  -- `claim(uuid, owner, lease_seconds, now)`.
  pub claim : String → String → (lease : ℕ) → (now : Option ℕ) → Exec (World B X) Bool
  unfolding take_over
  claim uuid owner lease now = do
    t ← now_or_clock host now
    created ← request (B.create_only (key_of claimed uuid) (marker host owner t))
    if created then pure true else do
      existing ← request (B.read_with_version (key_of claimed uuid))
      take_over uuid (marker host owner t) t lease existing

  renew_existing : String → String → ℕ → Option (Bytes × B.Version) → Exec (World B X) Bool
  renew_existing uuid owner now none = pure false
  renew_existing uuid owner now (some (raw, version)) = do
    mine ← lift (is_owner host raw owner)
    if mine
        then request (B.cas_write (key_of claimed uuid) (marker host owner now) version)
        else pure false

  -- `renew_claim(uuid, owner, now)`.
  pub renew_claim : String → String → (now : Option ℕ) → Exec (World B X) Bool
  unfolding renew_existing
  renew_claim uuid owner now = do
    t ← now_or_clock host now
    existing ← request (B.read_with_version (key_of claimed uuid))
    renew_existing uuid owner t existing

  live_at : Option (ℕ × Bool) → ℕ → Option ℕ → Exec (World B X) Bool
  live_at none lease now = pure false
  live_at (some (since, mine)) lease now = do
    t ← now_or_clock host now
    pure (mine && ltb t (since + lease))

  owned_existing : String → ℕ → Option ℕ → Option (Bytes × B.Version) → Exec (World B X) Bool
  unfolding held_since live_at
  owned_existing owner lease now none = pure false
  owned_existing owner lease now (some (raw, _)) = do
    held ← lift (held_since host raw owner)
    live_at held lease now

  -- `owns_claim(uuid, owner, lease_seconds, now)`.
  pub owns_claim : String → String → (lease : ℕ) → (now : Option ℕ) → Exec (World B X) Bool
  unfolding owned_existing
  owns_claim uuid owner lease now = do
    existing ← request (B.read_with_version (key_of claimed uuid))
    owned_existing owner lease now existing
