-- ===== src/Enqueuer/Feed.antt =====
-- node_relay/enqueuer.py: `run_once`, from the bus into the bucket.
use worker_hive_relay.Prelude.{
  ℕ, zero, suc, String, ◌<>◌, Bool, true, false, not, ◌||◌, Option, none, some, List, [], ◌∷◌,
  Bytes, ◌=ₛ◌, if◌then◌else◌,
}
use worker_hive_relay.Exec.{
  Result, ok, err, Exec, pure, lift, fail, type_error, gets, attempt, ◌>>=◌, ◌>>◌,
}
use worker_hive_relay.Value.{null, str, Fields, empty, field, put, truthy}
use worker_hive_relay.Crypto.{aad_for}
use worker_hive_relay.Backend.{Backend}
use worker_hive_relay.Client.{Host, World, at_rest, put_claimant, put_pending}
use worker_hive_relay.Poller.{seal_now}
use worker_hive_relay.Hive.{Bus, Bridge, HiveClient, claim_next, patch_status}
use worker_hive_relay.Repos.{should_offload}
use worker_hive_relay.Enqueuer.Payload.{Setup, build_payload, job_id_of, is_hashable}

-- The claimant's envelope.
abbrev pub route_of : HiveClient → Fields
route_of hive =
    let route = field "claimant_urn" (str hive.urn) empty in
    if truthy hive.agent_token then put "claimant_token" hive.agent_token route else route

-- The payload with the claimant in it, which the node echoes.
abbrev pub with_claimant : HiveClient → Fields → Fields
with_claimant hive payload =
    let named = put "claimant_urn" (str hive.urn) payload in
    if truthy hive.agent_token then put "_claimant_token" hive.agent_token named else named

unfoldable pub contains_id : String → List String → Bool
contains_id id [] = false
contains_id id (x ∷ xs) = (id =ₛ x) || contains_id id xs

abbrev pub released_note : Fields
released_note =
    field "note" (str "released by node-relay enqueuer: not node-offloadable (no repo mapping)")
      empty

-- What one round of the loop leaves: the loop ends with a count, or goes on with a count and the
-- ids that were released.
pub data Round : Type 0 where
  ends : ℕ → Round
  goes_on : ℕ → List String → Round

-- The text of `job["id"]`, as the URLs have it; a sweep tells the ids that it released apart by it.
abbrev pub id_text : Setup → Fields → Result String
id_text setup job = elim (job_id_of setup job) [
  | err e ↦ err e
  | ok (str s) ↦ ok s
  | ok v ↦ ok (setup.py.show v)
]

-- An id that a set can hold.
abbrev pub hashable_id : Setup → Fields → Bool
hashable_id setup job = elim (job_id_of setup job) [ err e ↦ false | ok v ↦ is_hashable v ]

module _ (host : Host) (key : Bytes) (setup : Setup) {B : Backend} {N : Bus} where
  -- Both objects of a job, sealed, and the two calls that put them.
  unfoldable pub put_objects : (job_id : String) → Fields → Exec (World B (Bridge N)) (Unit {0})
  unfolding put_claimant put_pending
  put_objects job_id payload = do
    hive ← gets (λ (w : World B (Bridge N)). w.rest.hive)
    claimant ← seal_now host key (route_of hive) (aad_for "claimant" job_id)
    sealed ← seal_now host key (with_claimant hive payload) (aad_for "pending" job_id)
    put_claimant job_id claimant
    put_pending job_id sealed

  -- The `try` of `run_once`.
  unfoldable pub offload : (job_id : String) → Fields → Exec (World B (Bridge N)) Bool
  unfolding put_objects build_payload
  offload job_id job = do
    payload ← at_rest (build_payload setup job)
    put_objects job_id payload
    at_rest (
        patch_status job_id "running"
          (some (field "note" (str "offloaded to node-relay bucket") empty)) null null)

  -- `except Exception`: the failure is reported, and the loop goes on.
  abbrev pub after_offload :
      (job_id : String) (count : ℕ) (released : List String)
      → Result Bool
      → Exec (World B (Bridge N)) Round
  after_offload job_id count released (ok _) = pure (goes_on (suc count) released)
  after_offload job_id count released (err e) = do
    at_rest (
        patch_status job_id "failed" (some (field "error" (str ("enqueue: " <> e.message)) empty))
          null null)
    pure (goes_on count released)

  unfoldable pub offload_job :
      (job_id : String)
      → Fields
      → (count : ℕ) (released : List String) → Exec (World B (Bridge N)) Round
  unfolding offload
  offload_job job_id job count released = do
    outcome ← attempt (offload job_id job)
    after_offload job_id count released outcome

  -- A job that is not for the node goes back to the queue; the second time the sweep ends. An id
  -- that is a list or a dictionary is no element of a set, which shows behind the request.
  unfoldable pub release_job :
      (job_id : String) (hashable : Bool) (count : ℕ) (released : List String)
      → Exec (World B (Bridge N)) Round
  unfolding contains_id
  release_job job_id hashable count released = do
    at_rest (patch_status job_id "queued" (some released_note) null null)
    lift (
        if not hashable
        then fail type_error "unhashable type"
        else ok
            (if contains_id job_id released then ends count else goes_on count (job_id ∷ released)))

  abbrev pub sorted_job :
      (job_id : String)
      → Fields
      → (count : ℕ) (released : List String) → (offloadable : Bool)
      → Exec (World B (Bridge N)) Round
  sorted_job job_id job count released true = offload_job job_id job count released
  sorted_job job_id job count released false =
      release_job job_id (hashable_id setup job) count released

  abbrev pub on_claim :
      (count : ℕ) (released : List String) → Option Fields → Exec (World B (Bridge N)) Round
  on_claim count released none = pure (ends count)
  on_claim count released (some job) = do
    job_id ← lift (id_text setup job)
    offloadable ← lift (should_offload setup.py setup.env job)
    sorted_job job_id job count released offloadable

  -- One round of `while True`.
  unfoldable pub feed_round : (count : ℕ) (released : List String) → Exec (World B (Bridge N)) Round
  unfolding offload_job release_job claim_next should_offload
  feed_round count released = do claimed ← at_rest claim_next; on_claim count released claimed

  -- `run_once(hive, relay, key)`, with fuel for the rounds; none where the fuel runs out.
  unfoldable pub feed :
      (fuel : ℕ) (count : ℕ) (released : List String) → Exec (World B (Bridge N)) (Option ℕ)
  unfolding feed_round
  feed zero count released = pure none
  feed (suc fuel) count released = do
    round ← feed_round count released
    elim round [ ends n ↦ pure (some n) | goes_on n ids ↦ feed fuel n ids ]
