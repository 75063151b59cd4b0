-- ===== src/Reconciler.antt =====
-- node_relay/reconciler.py: terminal objects to the bus, and the purge behind them.
pub mod Shrink
pub mod Evidence
pub mod Settled
pub mod Untouched
pub mod Landing
use worker_hive_relay.Prelude.{
  ℕ, suc, ◌+◌, String, ◌<>◌, ◌≡◌, Bool, true, false, not, ◌&&◌, ◌||◌, Option, none, some, List, [],
  ◌∷◌, Bytes, length, leb, ◌==◌, ◌=ₛ◌, if◌then◌else◌, clip,
}
use worker_hive_relay.Exec.{
  Error, Result, ok, err, fail, Exec, pure, lift, raise, gets, attempt, ◌>>=◌, ◌>>◌, invalid_tag,
  crypto_error, not_found, value_error, type_error, attribute_error, key_error, hive_claim_error,
  hive_registration_error, mnemos_search_error, transient_landing, permanent_landing, runtime_error,
  system_exit, other,
}
use worker_hive_relay.Value.{
  Value, null, bool, num, str, arr, obj, Items, nil, cons, Fields, empty, field, get, put, remove,
  has, get_or, get_null, update, truthy, equals_str,
}
use worker_hive_relay.Crypto.{Codec, aad_for, open_blob}
use worker_hive_relay.Backend.{Backend}
use worker_hive_relay.Client.{Host, World, at_rest, as_dict, get_terminal, purge}
use worker_hive_relay.Client.Sweep.{Turn, go, for_terminal}
use worker_hive_relay.Hive.{Bus, Bridge, accepted, patch_status, patch_status_code}

-- MAX_RESULT_BYTES
abbrev pub max_result_bytes : ℕ
max_result_bytes = 262144

-- The patch lander, as the reconciler uses it: `land`, and `save_orphan_patch` (a path or None).
pub record Lander : Type 0 where
  pub land : Fields → String → Result Fields
  pub save_orphan_patch : Fields → String → Option String

-- The fields that the cap drops, in the order in which they go.
abbrev pub dropped_fields : List String
dropped_fields = "patch" ∷ "suggestion" ∷ "metrics" ∷ "files_changed" ∷ []

-- The routing and review metadata that a result keeps in any case.
abbrev pub kept_fields : List String
kept_fields =
    "needs_review" ∷ "commit_sha" ∷ "node_commit_sha" ∷ "commits" ∷ "branch" ∷ "landed_branch"
    ∷ "landed_repo" ∷ "landed_sha" ∷ "landing" ∷ "landing_error" ∷ "patch_saved" ∷ []

-- `{k: result.get(k) for k in names if k in result}`
pub restrict : List String → Fields → Fields
restrict [] result = empty
restrict (k ∷ ks) result =
    let rest = restrict ks result in elim (get k result) [ none ↦ rest | some v ↦ field k v rest ]

abbrev pub drop_field : String → Fields → Fields
drop_field name result =
    if has name result
    then remove name (put (name <> "_dropped") (str "payload_too_large") result)
    else result

module _ (codec : Codec) where
  -- `_json_size_bytes(value)`
  abbrev pub json_size_bytes : Fields → ℕ
  json_size_bytes value = length (codec.dumps_compact value)

  abbrev pub fits : Fields → Bool
  fits result = leb (json_size_bytes result) max_result_bytes

  -- The loop of `_shrink_result`; it stops at the first result that fits.
  unfoldable pub drop_fields : List String → Fields → Fields
  drop_fields [] result = result
  drop_fields (name ∷ names) result =
      let rest = drop_fields names (drop_field name result) in if fits result then result else rest

  abbrev pub last_resort : Fields → Fields
  last_resort result =
      if not (fits result)
      then put "error" (str "payload_too_large") (restrict kept_fields result)
      else result

  -- `_shrink_result(result)`
  unfoldable pub shrink_result : Fields → Fields
  unfolding drop_fields
  shrink_result result = last_resort (drop_fields dropped_fields result)

  -- The result of a failed job.
  unfoldable pub failed_result : Fields → Fields
  failed_result payload =
      let result = field "error" (get_or "error" (str "node failure") payload) empty in
      if fits result then result else field "error" (str "payload_too_large") empty

-- The payload without its routing fields, under the review flag.
unfoldable pub reviewed_result : Bool → Fields → Fields
reviewed_result review payload =
    put "needs_review" (bool (review || truthy (get_null "needs_review" payload)))
      (remove "_claimant_token" (remove "claimant_urn" payload))

-- What `result` becomes once the patch landed; `landed["landed_sha"]` may be a KeyError.
abbrev pub landed_result : Fields → Fields → Fields → Result (Option Fields)
landed_result payload result landed = elim (get "landed_sha" landed) [
  | none ↦ fail key_error "landed_sha"
  | some sha ↦ ok (
      some (
        put "commits" (arr (cons sha nil)) (
          put "commit_sha" sha
            (put "node_commit_sha" (get_null "commit_sha" payload) (update result landed)))))
]

abbrev pub orphaned_result : Codec → Option String → Fields → Option Fields
orphaned_result codec (some path) result =
    if path =ₛ ""
    then (if fits codec result then some result else none)
    else some (put "patch_saved" (str path) result)
orphaned_result codec none result = if fits codec result then some result else none

module _ (codec : Codec) (lander : Lander) where
  -- The `except` clauses around `lander.land`; `none` is the early `return False`.
  abbrev pub on_landing : Fields → String → Fields → Result Fields → Result (Option Fields)
  on_landing payload uuid result (ok landed) = landed_result payload result landed
  on_landing payload uuid result (err e) = elim e.kind [
    | transient_landing ↦ ok none
    | permanent_landing ↦ ok (
        orphaned_result codec (lander.save_orphan_patch payload uuid)
          (put "landing_error" (str (clip e.message 500)) (put "landing" (str "failed") result)))
    | _ ↦ err e
  ]

  -- The landing of a patch that needs a review.
  unfoldable pub land_patch : Fields → String → Fields → Result (Option Fields)
  land_patch payload uuid result =
      if truthy (get_null "needs_review" result) && truthy (get_null "patch" payload)
      then on_landing payload uuid result (lander.land payload uuid)
      else ok (some result)

-- TERMINAL_STATUSES; a list or a dictionary is not hashable.
abbrev pub known_status : Value → Result Bool
known_status (str s) = ok (s =ₛ "done" || s =ₛ "failed" || s =ₛ "needs-review")
known_status (arr _) = fail type_error "unhashable type: 'list'"
known_status (obj _) = fail type_error "unhashable type: 'dict'"
known_status null = ok false
known_status (bool _) = ok false
known_status (num _) = ok false

module _ {N : Bus} where
  -- The answer to the first PATCH of a review, and what follows from it.
  pub after_review_code :
      String → Fields → (claimant token : Value) → Option ℕ → Exec (Bridge N) Bool
  after_review_code uuid result claimant token none = pure false
  after_review_code uuid result claimant token (some code) =
      if accepted (some code)
      then pure true
      else if code == 400 || code == 422
      then patch_status uuid "done" (some result) claimant token
      else pure false

  unfoldable pub report_result : String → Fields → (claimant token : Value) → Exec (Bridge N) Bool
  unfolding after_review_code
  report_result uuid result claimant token =
      if truthy (get_null "needs_review" result)
      then (do
        code ← patch_status_code uuid "needs-review" (some result) claimant token
        after_review_code uuid result claimant token code)
      else patch_status uuid "done" (some result) claimant token

  unfoldable pub report_shrunk :
      Codec → String → (claimant token : Value) → Option Fields → Exec (Bridge N) Bool
  unfolding report_result
  report_shrunk codec uuid claimant token none = pure false
  report_shrunk codec uuid claimant token (some result) =
      report_result uuid (shrink_result codec result) claimant token

  -- What `_reconcile_one` does with a payload of a known status, up to `if not ok`.
  unfoldable pub report : Codec → Lander → String → Fields → Exec (Bridge N) Bool
  unfolding report_shrunk
  report codec lander uuid payload =
      let status = get_null "status" payload in
      let claimant = get_null "claimant_urn" payload in
      let token = get_null "_claimant_token" payload in
      if equals_str status "failed"
      then patch_status uuid "failed" (some (failed_result codec payload)) claimant token
      else do
        r ← lift (
            land_patch codec lander payload uuid
              (reviewed_result (equals_str status "needs-review") payload))
        report_shrunk codec uuid claimant token r

-- `count += 1` for a job that was reconciled; an exception is logged.
abbrev pub counted : ℕ → Result Bool → ℕ
counted n (ok true) = suc n
counted n (ok false) = n
counted n (err _) = n

module _ (host : Host) (key : Bytes) (lander : Lander) {B : Backend} {N : Bus} where
  abbrev pub conclude : String → Bool → Exec (World B (Bridge N)) Bool
  conclude uuid false = pure false
  conclude uuid true = do purge uuid; pure true

  abbrev pub report_known : String → Fields → Bool → Exec (World B (Bridge N)) Bool
  report_known uuid payload false = pure false
  report_known uuid payload true = do
    reported ← at_rest (report host.codec lander uuid payload)
    conclude uuid reported

  -- `_reconcile_one(hive, relay, key, uuid, lander)`
  unfoldable pub reconcile_one : String → Exec (World B (Bridge N)) Bool
  reconcile_one uuid = do
    raw ← get_terminal uuid
    opened ← lift (open_blob host.codec raw key (some (aad_for "terminal" uuid)))
    payload ← lift (as_dict opened)
    known ← lift (known_status (get_null "status" payload))
    report_known uuid payload known

  abbrev pub reconcile_step : String → ℕ → Exec (World B (Bridge N)) (Turn ℕ)
  reconcile_step uuid n = do r ← attempt (reconcile_one uuid); pure (go (counted n r))

  -- `run_once(hive, relay, key, lander)`, under MAX_SCAN_PER_SWEEP.
  unfoldable pub run_once : (max_scan : ℕ) → Exec (World B (Bridge N)) ℕ
  unfolding reconcile_one
  run_once max_scan = for_terminal max_scan reconcile_step 0
