-- ===== src/Enqueuer/Terminates.antt =====
-- Every round of the enqueuer's sweep comes closer to its end.
use worker_hive_relay.Prelude.{
  not, ◌<>◌, ℕ, zero, suc, ◌+◌, ◌≤◌, ◌<◌, String, ◌≡◌, ◌≢◌, refl, Bool, true, false, Option, none,
  some, List, ◌∷◌, Bytes, arith, ◌=ₛ◌, if◌then◌else◌,
}
use worker_hive_relay.Exec.{
  fail, type_error, Result, ok, err, Exec, pure, lift, gets, continue, ◌>>=◌,
}
use worker_hive_relay.Exec.Relates.{IsPreorder, Relates, Relates-bind}
use worker_hive_relay.Value.{null, str, Fields, empty, field}
use worker_hive_relay.Crypto.{aad_for}
use worker_hive_relay.Backend.{Backend}
use worker_hive_relay.Client.{Host, World, at_rest, put_claimant, put_pending}
use worker_hive_relay.Poller.{seal_now}
use worker_hive_relay.Hive.{Bus, Bridge, claim_next, patch_status}
use worker_hive_relay.Repos.{should_offload}
use worker_hive_relay.Enqueuer.Payload.{Setup, build_payload}
use worker_hive_relay.Enqueuer.Ends.{
  Drains, unreleased, unreleased-lt, build_payload-Shorter, patch_status-left,
}
use worker_hive_relay.Enqueuer.Feed.{
  released_note, contains_id, Round, ends, goes_on, put_objects, route_of, with_claimant, offload,
  after_offload, offload_job, release_job, id_text, hashable_id, on_claim, sorted_job, feed_round,
  feed,
}

module _ (setup : Setup) (B : Backend) {N : Bus} (D : Drains N setup) where
  abbrev W : Type 0
  W = World B (Bridge N)

  -- How many jobs wait.
  abbrev pub left_in : W → ℕ
  left_in w = D.left w.rest.bus

  abbrev Smaller : W → W → Type 0
  Smaller x y = left_in y ≤ left_in x

  smaller : IsPreorder Smaller
  smaller = record { refl_at = λ x. omega arith; trans_at = λ x y z h k. omega arith }

  bind :
      {A C : Type 0} (m : Exec W A) (f : A → Exec W C)
      → Relates Smaller m
      → ((a : A) → Relates Smaller (f a))
      → Relates Smaller (m >>= f)
  bind m f = Relates-bind smaller m f

  seal_now-Smaller :
      (host : Host) (key : Bytes) (payload : Fields) (aad : Bytes)
      → Relates Smaller (seal_now host key payload aad)
  unfolding seal_now
  seal_now-Smaller host key payload aad = record { at = λ w. smaller.refl_at w }

  put_claimant-Smaller : (id : String) (sealed : Bytes) → Relates Smaller (put_claimant id sealed)
  unfolding put_claimant
  put_claimant-Smaller id sealed = record { at = λ w. smaller.refl_at w }

  put_pending-Smaller : (id : String) (sealed : Bytes) → Relates Smaller (put_pending id sealed)
  unfolding put_pending
  put_pending-Smaller id sealed = record { at = λ w. smaller.refl_at w }

  put_objects-Smaller :
      (host : Host) (key : Bytes) (job_id : String) (payload : Fields)
      → Relates Smaller (put_objects host key setup job_id payload)
  unfolding put_objects
  put_objects-Smaller host key job_id payload =
      bind (gets (λ (w : W). w.rest.hive)) _ (record { at = λ w. smaller.refl_at w })
        (λ hive.
          bind _ _ (seal_now-Smaller host key (route_of hive) (aad_for "claimant" job_id))
            (λ claimant.
              bind _ _
                (seal_now-Smaller host key (with_claimant hive payload) (aad_for "pending" job_id))
                (λ sealed.
                  bind _ _ (put_claimant-Smaller job_id claimant)
                    (λ _. put_pending-Smaller job_id sealed))))

  patch-Smaller :
      (job_id status : String) (result : Option Fields)
      → (status =ₛ "queued") ≡ false
      → Relates Smaller (at_rest (patch_status job_id status result null null))
  patch-Smaller job_id status result h = record {
    at = λ w. patched w (patch_status-left setup D job_id status result w.rest);
  }
    where
      patched :
          (w : W)
          → D.left (patch_status job_id status result null null w.rest).1.bus
            ≤ left_in w + (if status =ₛ "queued" then 1 else 0)
          → D.left (patch_status job_id status result null null w.rest).1.bus ≤ left_in w
      patched w k = ground arith

  offload-Smaller :
      (host : Host) (key : Bytes) (job_id : String) (job : Fields)
      → Relates Smaller (offload host key setup job_id job)
  unfolding offload
  offload-Smaller host key job_id job =
      bind (at_rest (build_payload setup job)) _
        (record { at = λ w. (build_payload-Shorter setup D job).at w.rest })
        (λ payload.
          bind _ _ (put_objects-Smaller host key job_id payload)
            (λ _. patch-Smaller job_id "running" _ refl))

  -- A round that goes on is under the bound: fewer jobs wait, or fewer ids are unreleased.
  abbrev pub Under : (bound : ℕ) → Exec W Round → W → Type 0
  Under bound m w =
      (count : ℕ) (released : List String)
      → (m w).0 ≡ ok (goes_on count released)
      → left_in (m w).1 + unreleased released D.ids < bound

  same_released :
      (m n : ℕ) (r q : List String)
      → Path (Result Round) (ok (goes_on m r)) (ok (goes_on n q))
      → r ≡ q
  same_released m n r q e = let same : Path Round (goes_on m r) (goes_on n q) = cc e in cc same

  offload_job-Under :
      (host : Host) (key : Bytes) (job_id : String) (job : Fields) (n bound : ℕ)
      (released : List String) (w : W)
      → left_in w + unreleased released D.ids < bound
      → Under bound (offload_job host key setup job_id job n released) w
  unfolding offload_job patch_status
  offload_job-Under host key job_id job n bound released w small =
      go (offload host key setup job_id job w).0 (offload host key setup job_id job w).1
        ((offload-Smaller host key job_id job).at w)
    where
      go :
          (r : Result Bool) (v : W)
          → left_in v ≤ left_in w
          → Under bound (after_offload host key setup job_id n released r) v
      go (ok b) v fewer count q e = rw (← same_released (suc n) count released q e) (omega arith)
      go (err x) v fewer count q e =
          let fails =
            (patch-Smaller job_id "failed"
                (some (field "error" (str ("enqueue: " <> x.message)) empty)) refl).at
              v in
          rw (← same_released n count released q e) (omega (arith, fails))

  release_job-Under :
      (host : Host) (key : Bytes) (job_id : String) (hashable : Bool) (n bound : ℕ)
      (released : List String) (w : W)
      → contains_id job_id D.ids ≡ true
      → left_in w + 1 + unreleased released D.ids ≤ bound
      → Under bound (release_job host key setup job_id hashable n released) w
  unfolding release_job patch_status
  release_job-Under host key job_id hashable n bound released w known small count q e =
      go hashable (contains_id job_id released) refl
        (patch_status-left setup D job_id "queued" (some released_note) w.rest) e
    where
      go :
          (h b : Bool)
          → contains_id job_id released ≡ b
          → D.left (patch_status job_id "queued" (some released_note) null null w.rest).1.bus
            ≤ left_in w + 1
          → (if not h
              then fail type_error "unhashable type"
              else ok (if b then ends n else goes_on n (job_id ∷ released)))
            ≡ ok (goes_on count q)
          → D.left (patch_status job_id "queued" (some released_note) null null w.rest).1.bus
              + unreleased q D.ids
            < bound
      go false b same fewer h = absurd (cc h)
      go true true same fewer h = absurd (cc h)
      go true false same fewer h =
          rw (← same_released n count (job_id ∷ released) q h)
            (omega (arith, unreleased-lt job_id released D.ids known same))

  module _ (host : Host) (key : Bytes) where
    sorted_job-Under :
        (job_id : String) (job : Fields) (n bound : ℕ) (released : List String) (b : Bool) (w : W)
        → contains_id job_id D.ids ≡ true
        → left_in w + 1 + unreleased released D.ids ≤ bound
        → Under bound (sorted_job host key setup job_id job n released b) w
    sorted_job-Under job_id job n bound released true w known small =
        offload_job-Under host key job_id job n bound released w (omega arith)
    sorted_job-Under job_id job n bound released false w known small =
        release_job-Under host key job_id (hashable_id setup job) n bound released w known small

    on_claim-Under :
        (n : ℕ) (released : List String) (before : Bridge N) (claimed : Option Fields) (w : W)
        → claim_next before ≡ (ok claimed, w.rest)
        → Under
            (D.left before.bus + unreleased released D.ids)
            (on_claim host key setup n released claimed)
            w
    on_claim-Under n released before none w made count q e = absurd (cc e)
    on_claim-Under n released before (some job) w made count q e =
        go (id_text setup job) (should_offload setup.py setup.env job) refl count q e
      where
        go :
            (i : Result String) (b : Result Bool)
            → id_text setup job ≡ i
            → Under
                (D.left before.bus + unreleased released D.ids)
                (do
                  job_id ← lift i
                  offloadable ← lift b
                  sorted_job host key setup job_id job n released offloadable)
                w
        go (err e) b same count q h = absurd (cc h)
        go (ok id) (err e) same count q h = absurd (cc h)
        go (ok id) (ok b) same count q h =
            sorted_job-Under id job n (D.left before.bus + unreleased released D.ids) released b w
              (D.known before w.rest job id made same)
              (omega (arith, D.claims before w.rest job made)) count q h

    -- A round comes closer to the end.
    feed_round-Under :
        (n : ℕ) (released : List String) (w : W)
        → Under (left_in w + unreleased released D.ids) (feed_round host key setup n released) w
    unfolding feed_round
    feed_round-Under n released w = go (claim_next w.rest).0 (claim_next w.rest).1 refl
      where
        go :
            (r : Result (Option Fields)) (after : Bridge N)
            → claim_next w.rest ≡ (r, after)
            → Under
                (left_in w + unreleased released D.ids)
                (λ v. continue r v (on_claim host key setup n released))
                (record w { rest = after })
        go (err e) after same count q h = absurd (cc h)
        go (ok claimed) after same count q h =
            on_claim-Under n released w.rest claimed (record w { rest = after }) same count q h

    -- The sweep of the enqueuer ends: where the bus has a finite queue that grows by releases only
    -- and gives out ids of a finite list, the loop of `run_once` does not run out of fuel once
    -- the fuel is more than the jobs that wait and the ids of the list that the sweep did not
    -- release, together; it returns a count or raises.
    pub feed_terminates :
        (fuel n : ℕ) (released : List String) (w : World B (Bridge N))
        → left_in w + unreleased released D.ids < fuel
        → (feed host key setup fuel n released w).0 ≢ ok none
    unfolding feed
    feed_terminates zero n released w enough e = absurd (omega arith)
    feed_terminates (suc fuel) n released w enough e =
        go (feed_round host key setup n released w).0 (feed_round host key setup n released w).1
          (feed_round-Under n released w) (λ m q v k. feed_terminates fuel m q v k) e
      where
        go :
            (r : Result Round) (v : W)
            → ((m : ℕ) (q : List String)
                → r ≡ ok (goes_on m q)
                → left_in v + unreleased q D.ids < left_in w + unreleased released D.ids)
            → ((m : ℕ) (q : List String) (u : W)
                → left_in u + unreleased q D.ids < fuel
                → (feed host key setup fuel m q u).0 ≢ ok none)
            → (continue r v (λ round. elim round [
              | ends m ↦ pure (some m)
              | goes_on m q ↦ feed host key setup fuel m q
            ])).0
              ≢ ok none
        go (err x) v fewer onwards h = absurd (cc h)
        go (ok (ends m)) v fewer onwards h = absurd (cc h)
        go (ok (goes_on m q)) v fewer onwards h = onwards m q v (omega (arith, fewer m q refl)) h
