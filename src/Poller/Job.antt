-- ===== src/Poller/Job.antt =====
-- One job, from the executor's call to the terminal object.
use worker_hive_relay.Prelude.{
  ℕ, zero, suc, String, ◌≡◌, refl, sym, ap, ◌∙◌, subst, true, false, none, some, Bytes, length,
}
use worker_hive_relay.Exec.{Result, ok, err, attempt, lift, ◌>>=◌}
use worker_hive_relay.Value.{Value, Fields, obj, str, set_default}
use worker_hive_relay.Crypto.{aad_for, open_blob}
use worker_hive_relay.Crypto.Framing.{IsAead}
use worker_hive_relay.Backend.{Backend, IsLawful}
use worker_hive_relay.Client.{Host, World, claimed, terminal, marker}
use worker_hive_relay.Client.Objects.{object, body, object-body}
use worker_hive_relay.Client.Claim.{ReadsMarker}
use worker_hive_relay.Poller.{
  Lease, Executor, failed, renew, run_beats, record_failure, write_terminal, execute_job, echo,
}
use worker_hive_relay.Poller.Terminal.{renew_owned, write_terminal_opens}

-- The payload that records what came of the executor, completed by the claimant and the token.
abbrev pub outcome : Result Fields → Fields
outcome (ok result) = set_default "status" (str "done") result
outcome (err e) = failed e.message

abbrev pub recorded : Result Fields → (claimant token : Value) → Fields
recorded r claimant token = echo "_claimant_token" token (echo "claimant_urn" claimant (outcome r))

module _ (host : Host) (key : Bytes) {B : Backend} (L : IsLawful B) (l : Lease)
    (reads : (t : ℕ) → ReadsMarker host l.owner t) (live : l.lost ≡ false) where
  -- The world of a worker that holds the claim of its lease.
  abbrev Holds : World B Lease → Type 0
  Holds w =
      (w.rest ≡ l)
      × (ta : ℕ) × (v : B.Version) × (object L w claimed l.uuid ≡ some (marker host l.owner ta, v))

  renew-Holds :
      (w : World B Lease)
      → Holds w
      → let r = renew host key w in
        (r.0 ≡ ok true)
        × Holds r.1
        × ((u : String) → object L r.1 terminal u ≡ object L w terminal u)
  renew-Holds w (e, ta, v, h) =
      let r = renew host key w in
      let (won, rest, still, mine) =
        renew_owned host key L ta w v
          (λ t. subst (λ x. ReadsMarker host x.owner t) (sym e) (reads t))
          (ap (λ x. x.lost) e ∙ live)
          (subst (λ x. object L w claimed x.uuid ≡ some (marker host x.owner ta, v)) (sym e) h) in
      let now = host.time w.readings in
      let at = subst (λ x. body L r.1 claimed x.uuid ≡ some (marker host x.owner now)) e mine in
      let (v1, stands) = object-body L r.1 claimed l.uuid (marker host l.owner now) at in
      (won, (rest ∙ e, now, v1, stands), still)

  beats_hold :
      (n : ℕ) (w : World B Lease)
      → Holds w
      → let r = run_beats host key n w in
        (r.0 ≡ ok tt) × Holds r.1 × ((u : String) → object L r.1 terminal u ≡ object L w terminal u)
  unfolding run_beats
  beats_hold zero w h = (refl, h, λ u. refl)
  beats_hold (suc n) w h =
      let w1 = (renew host key w).1 in
      let (won, h1, still) = renew-Holds w h in
      let (done, h2, after) = beats_hold n w1 h1 in rw won (done, h2, λ u. after u ∙ still u)

  -- The write of a worker that holds its claim, for its lease.
  holder_writes :
      (law : IsAead host.codec) (payload : Fields) (claimant token : Value) (w : World B Lease)
      → Holds w
      → object L w terminal l.uuid ≡ none
      → length key ≡ 32
      → ((n : ℕ) → length (host.urandom n) ≡ 12)
      → let sent = echo "_claimant_token" token (echo "claimant_urn" claimant payload) in
        host.codec.loads (host.codec.dumps_compact sent) ≡ some (obj sent)
        → let r = write_terminal host key l.uuid payload claimant token w in
          (r.0 ≡ ok true)
          × ((blob : Bytes) × ((body L r.1 terminal l.uuid ≡ some blob)
                × (open_blob host.codec blob key (some (aad_for "terminal" l.uuid))
                    ≡ ok (obj sent))))
  holder_writes law payload claimant token w (e, ta, v, h) free k n j =
      let sent = echo "_claimant_token" token (echo "claimant_urn" claimant payload) in
      subst
        (λ x.
          ((write_terminal host key x.uuid payload claimant token w).0 ≡ ok true)
          × ((blob : Bytes) × ((body L (write_terminal host key x.uuid payload claimant token w).1
                    terminal x.uuid
                  ≡ some blob)
                × (open_blob host.codec blob key (some (aad_for "terminal" x.uuid))
                    ≡ ok (obj sent)))))
        e
        (write_terminal_opens host key L law ta payload claimant token w v
          (λ t. subst (λ x. ReadsMarker host x.owner t) (sym e) (reads t))
          (ap (λ x. x.lost) e ∙ live)
          (subst (λ x. object L w claimed x.uuid ≡ some (marker host x.owner ta, v)) (sym e) h)
          (subst (λ x. object L w terminal x.uuid ≡ none) (sym e) free) k n j)

  -- A job that its worker runs under a live claim ends in a terminal object, whether the executor
  -- returns or raises: the job counts, and its terminal object opens to the executor's result with
  -- a status, or to the failure, completed by the claimant and the token. The worker's lease is
  -- live and its markers read back, the marker names it, the job has no terminal object yet, the
  -- AEAD is lawful, the key and every nonce have their lengths, and the JSON codec reads the
  -- payload back.
  pub execute_job_opens :
      (law : IsAead host.codec) (ex : Executor) (job : Fields) (claimant token : Value)
      (w : World B Lease) (ta : ℕ) (v : B.Version)
      → w.rest ≡ l
      → object L w claimed l.uuid ≡ some (marker host l.owner ta, v)
      → object L w terminal l.uuid ≡ none
      → length key ≡ 32
      → ((n : ℕ) → length (host.urandom n) ≡ 12)
      → host.codec.loads (host.codec.dumps_compact (recorded (ex.execute job) claimant token))
        ≡ some (obj (recorded (ex.execute job) claimant token))
      → let r = execute_job host key ex l.uuid job claimant token w in
        (r.0 ≡ ok 1)
        × ((blob : Bytes) × ((body L r.1 terminal l.uuid ≡ some blob)
              × (open_blob host.codec blob key (some (aad_for "terminal" l.uuid))
                  ≡ ok (obj (recorded (ex.execute job) claimant token)))))
  unfolding execute_job
  execute_job_opens law ex job claimant token w ta v e h free k n j =
      let w1 = (run_beats host key (ex.beats job) w).1 in
      let (done, h1, still) = beats_hold (ex.beats job) w (e, ta, v, h) in
      rw done (ends (ex.execute job) w1 h1 (still l.uuid ∙ free) j)
    where
      ends :
          (r : Result Fields) (w1 : World B Lease)
          → Holds w1
          → object L w1 terminal l.uuid ≡ none
          → host.codec.loads (host.codec.dumps_compact (recorded r claimant token))
            ≡ some (obj (recorded r claimant token))
          → let t =
              (attempt (
                    lift r >>= λ result.
                    write_terminal host key l.uuid
                      (set_default "status" (str "done") result)
                      claimant
                      token)
                  >>= record_failure host key l.uuid claimant token)
                w1 in
            (t.0 ≡ ok 1)
            × ((blob : Bytes) × ((body L t.1 terminal l.uuid ≡ some blob)
                  × (open_blob host.codec blob key (some (aad_for "terminal" l.uuid))
                      ≡ ok (obj (recorded r claimant token)))))
      ends (ok result) w1 h1 free1 j1 =
          let (wrote, there) =
            holder_writes law (set_default "status" (str "done") result) claimant token w1 h1 free1
              k n j1 in
          rw wrote (refl, there)
      ends (err x) w1 h1 free1 j1 =
          let (wrote, there) =
            holder_writes law (failed x.message) claimant token w1 h1 free1 k n j1 in
          rw wrote (refl, there)
