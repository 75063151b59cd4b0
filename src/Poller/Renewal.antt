-- ===== src/Poller/Renewal.antt =====
-- The terminal write behind `_ClaimLease.renew`: a worker that lost its claim writes nothing.
use worker_hive_relay.Prelude.{ℕ, String, ◌≡◌, ◌≢◌, refl, true, false, some, Bytes}
use worker_hive_relay.Exec.{ok}
use worker_hive_relay.Value.{Value, Fields}
use worker_hive_relay.Backend.{Backend, IsLawful}
use worker_hive_relay.Client.{Host, World, claimed, marker}
use worker_hive_relay.Client.Objects.{object}
use worker_hive_relay.Client.Claim.{ReadsMarker}
use worker_hive_relay.Client.Lease.{renew_claim_refused}
use worker_hive_relay.Poller.{Lease, renew_live, renew, write_terminal}

module _ (host : Host) (key : Bytes) {B : Backend} (L : IsLawful B) where
  renew_refused :
      (b : String) (tb : ℕ) (w : World B Lease) (v : B.Version)
      → ReadsMarker host b tb
      → w.rest.owner ≢ b
      → w.rest.lost ≡ false
      → object L w claimed w.rest.uuid ≡ some (marker host b tb, v)
      → let r = renew host key w in
        (r.0 ≡ ok false) × (r.1.bucket ≡ w.bucket) × (r.1.rest.lost ≡ true)
  unfolding renew renew_live
  renew_refused b tb w v reads differ live h =
      let (refused, same, _) =
        renew_claim_refused host L w.rest.uuid w.rest.owner b tb w v reads differ h in
      simp (live, refused, same) (refl, refl, refl)

  -- A worker whose claim was taken over writes no terminal object: if the marker names another
  -- worker, the write answers False, the bucket is as it was and the lease counts as lost.
  pub write_terminal_refused :
      (u b : String) (tb : ℕ) (payload : Fields) (claimant token : Value) (w : World B Lease)
      (v : B.Version)
      → ReadsMarker host b tb
      → w.rest.owner ≢ b
      → w.rest.lost ≡ false
      → object L w claimed w.rest.uuid ≡ some (marker host b tb, v)
      → let r = write_terminal host key u payload claimant token w in
        (r.0 ≡ ok false) × (r.1.bucket ≡ w.bucket) × (r.1.rest.lost ≡ true)
  unfolding write_terminal
  write_terminal_refused u b tb payload claimant token w v reads differ live h =
      let (refused, same, lost) = renew_refused b tb w v reads differ live h in
      rw refused (refl, same, lost)
