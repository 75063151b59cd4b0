-- ===== src/Enqueuer.antt =====
-- node_relay/enqueuer.py: the renewal of the bus claims of remote jobs, and the GPU snapshot.
pub mod Renewal
pub mod Payload
pub mod Bounds
pub mod Feed
pub mod Ends
pub mod Terminates
pub mod Handover
use worker_hive_relay.Prelude.{
  ℕ, suc, ◌+◌, String, ◌<>◌, Bool, true, false, not, Option, none, some, List, [], ◌∷◌, Bytes, leb,
  ◌=ₛ◌, if◌then◌else◌,
}
use worker_hive_relay.Env.{Env, env_of}
use worker_hive_relay.Exec.{
  Error, Result, ok, err, fail, Exec, pure, lift, raise, attempt, ◌>>=◌, ◌>>◌, invalid_tag,
  crypto_error, not_found, value_error, type_error, attribute_error, key_error, hive_claim_error,
  hive_registration_error, mnemos_search_error, transient_landing, permanent_landing, runtime_error,
  system_exit, other,
}
use worker_hive_relay.Value.{
  Value, null, bool, num, str, arr, obj, nil, Fields, empty, field, get, get_or, get_null,
  equals_str,
}
use worker_hive_relay.Crypto.{aad_for, open_blob}
use worker_hive_relay.Backend.{Backend}
use worker_hive_relay.Client.{
  Host, World, at_rest, read_clock, as_dict, to_float, get_active, get_status,
}
use worker_hive_relay.Client.Sweep.{Turn, go, for_pending}
use worker_hive_relay.Hive.{Bus, Bridge, is_token, heartbeat, patch_status}

-- NODE_HOST
abbrev pub node_host : Env → Option String
node_host env = env_of env ("NODE_RELAY_HOST" ∷ "SPARK_GPU_HOST" ∷ []) none

-- `_require_host()`
abbrev pub require_host : Env → Result String
require_host env = elim (node_host env) [
  | none ↦ fail system_exit "set $NODE_RELAY_HOST to the remote node's host id"
  | some h ↦ ok h
]

-- The checks of an activity marker, in their order; `none` is a marker that is skipped.
pub record Activity : Type 0 where
  pub updated_at : ℕ
  pub claimant : String
  pub claimant_token : Value

-- `activity[k]`
abbrev pub item : String → Fields → Result Value
item k d = elim (get k d) [ none ↦ fail key_error k | some v ↦ ok v ]

abbrev pub checked_token : ℕ → String → Value → Result Activity
checked_token updated claimant token =
    if is_token token
    then ok (record { updated_at = updated; claimant = claimant; claimant_token = token })
    else fail value_error "activity has an invalid claimant_token"

abbrev pub checked_claimant : Fields → ℕ → Result Value → Result Activity
checked_claimant d updated (err e) = err e
checked_claimant d updated (ok (str c)) =
    if c =ₛ ""
    then fail value_error "activity has no claimant_urn"
    else checked_token updated c (get_null "claimant_token" d)
checked_claimant d updated (ok null) = fail value_error "activity has no claimant_urn"
checked_claimant d updated (ok (bool _)) = fail value_error "activity has no claimant_urn"
checked_claimant d updated (ok (num _)) = fail value_error "activity has no claimant_urn"
checked_claimant d updated (ok (arr _)) = fail value_error "activity has no claimant_urn"
checked_claimant d updated (ok (obj _)) = fail value_error "activity has no claimant_urn"

abbrev pub checked_time : Fields → Result ℕ → Result Activity
checked_time d (err e) = err e
checked_time d (ok updated) = checked_claimant d updated (item "claimant_urn" d)

abbrev pub float_item : Host → Result Value → Result ℕ
float_item host (err e) = err e
float_item host (ok v) = to_float host v

abbrev pub checked_job : Host → String → Result Fields → Result Activity
checked_job host job_id (err e) = err e
checked_job host job_id (ok d) =
    if not (equals_str (get_null "job_id" d) job_id)
    then fail value_error "activity job_id does not match object name"
    else checked_time d (float_item host (item "updated_at" d))

abbrev pub opened_dict : Result Value → Result Fields
opened_dict (err e) = err e
opened_dict (ok v) = as_dict v

-- `except (RelayCryptoError, KeyError, TypeError, ValueError)`; any other exception passes.
abbrev pub skip_invalid : {A : Type 0} → Result A → Result (Option A)
skip_invalid (ok a) = ok (some a)
skip_invalid (err e) = elim e.kind [
  | crypto_error ↦ ok none
  | key_error ↦ ok none
  | type_error ↦ ok none
  | value_error ↦ ok none
  | _ ↦ err e
]

module _ (host : Host) (key : Bytes) where
  -- The `try` of the loop's body.
  pub read_activity : String → Bytes → Result (Option Activity)
  read_activity job_id raw = skip_invalid (
      checked_job host job_id (
        opened_dict (open_blob host.codec raw key (some (aad_for "status" ("active/" <> job_id))))))

module _ {N : Bus} where
  -- The two calls to the bus for a job that is active.
  pub renew_on_bus : String → ℕ → Activity → Exec (Bridge N) (Turn ℕ)
  renew_on_bus job_id renewed a = do
    heartbeat "online" empty (str a.claimant) a.claimant_token true
    patched ←
        patch_status job_id "running"
          (some (field "note" (str "active on node-relay worker") empty)) (str a.claimant)
          a.claimant_token
    if patched
        then pure (go (suc renewed))
        else raise hive_claim_error ("failed to renew active Hive job " <> job_id)

  -- `now - updated_at >= HIVE_LEASE_SECONDS` skips the job.
  pub renew_if_live : (lease now : ℕ) → String → ℕ → Option Activity → Exec (Bridge N) (Turn ℕ)
  unfolding renew_on_bus
  renew_if_live lease now job_id renewed none = pure (go renewed)
  renew_if_live lease now job_id renewed (some a) =
      if leb (a.updated_at + lease) now then pure (go renewed) else renew_on_bus job_id renewed a

module _ (host : Host) (key : Bytes) {B : Backend} {N : Bus} where
  pub renew_marked :
      (lease now : ℕ) → String → ℕ → Option Bytes → Exec (World B (Bridge N)) (Turn ℕ)
  renew_marked lease now job_id renewed none = pure (go renewed)
  renew_marked lease now job_id renewed (some raw) = do
    a ← lift (read_activity host key job_id raw)
    at_rest (renew_if_live lease now job_id renewed a)

  -- The body of the loop.
  pub renew_step : (lease now : ℕ) → String → ℕ → Exec (World B (Bridge N)) (Turn ℕ)
  renew_step lease now job_id renewed = do
    raw ← get_active job_id
    renew_marked lease now job_id renewed raw

  -- `renew_active_jobs(hive, relay, key)`, with HIVE_LEASE_SECONDS and MAX_ACTIVE_SCAN_PER_SWEEP.
  unfoldable pub renew_active_jobs : (lease max_scan : ℕ) → Exec (World B (Bridge N)) ℕ
  renew_active_jobs lease max_scan = do
    now ← read_clock host
    for_pending max_scan (renew_step lease now) 0

-- `except Exception`: an empty snapshot.
abbrev pub or_empty : Result Value → Value
or_empty (ok v) = v
or_empty (err _) = obj empty

module _ (host : Host) (key : Bytes) {B : Backend} {X : Type 0} where
  opened_status : String → Option Bytes → Exec (World B X) Value
  opened_status name none = pure (obj empty)
  opened_status name (some []) = pure (obj empty)
  opened_status name (some (x ∷ raw)) =
      lift (open_blob host.codec (x ∷ raw) key (some (aad_for "status" name)))

  snapshot : Result String → Exec (World B X) Value
  unfolding opened_status
  snapshot (err e) = lift (err e)
  snapshot (ok h) = do
    r ← attempt (do raw ← get_status (h <> "-gpu"); opened_status (h <> "-gpu") raw)
    pure (or_empty r)

  -- `read_gpu(relay, key)`: only a missing host id raises.
  unfoldable pub read_gpu : Exec (World B X) Value
  unfolding snapshot
  read_gpu = snapshot (require_host host.env)

  -- `gpu_metadata(relay, key)`
  unfoldable pub gpu_metadata : Exec (World B X) Fields
  gpu_metadata = do
    v ← read_gpu
    snap ← lift (as_dict v)
    pure (
        field "specs" (obj (field "gpus" (get_or "specs_gpus" (arr nil) snap) empty)) (
          field "load" (obj (field "gpus_runtime" (get_or "gpus_runtime" (arr nil) snap) empty))
            empty))
