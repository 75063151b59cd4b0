-- ===== src/Poller/Terminal.antt =====
-- The terminal write of a worker that holds its claim.
use worker_hive_relay.Prelude.{
  ℕ, suc, String, ◌<>◌, ◌≡◌, refl, sym, ap, subst, ◌∙◌, true, false, Option, none, some, Bytes,
  length,
}
use worker_hive_relay.Exec.{Result, ok, err, continue}
use worker_hive_relay.Value.{Value, Fields, obj}
use worker_hive_relay.Crypto.{aad_for, seal, open_blob}
use worker_hive_relay.Crypto.Framing.{IsAead, open_blob-seal}
use worker_hive_relay.Backend.{Backend, IsLawful}
use worker_hive_relay.Client.{
  Host, World, claimed, active, terminal, marker, renew_claim, put_active,
}
use worker_hive_relay.Client.Objects.{
  object, body, body_of, put_active_keeps, put_active_writes, put_terminal_writes,
}
use worker_hive_relay.Client.Claim.{ReadsMarker}
use worker_hive_relay.Client.Lease.{renew_claim_own}
use worker_hive_relay.Poller.{
  Lease, activity, seal_now, publish_claimed, publish_activity, try_publish_activity, renew_live,
  renew, write_terminal, echo,
}

module _ (host : Host) (key : Bytes) {B : Backend} (L : IsLawful B) where
  -- A publication leaves the claim and the terminal objects alone, and the lease.
  published :
      (l : Lease) (c : Option String) (w : World B Lease)
      → let t = (publish_claimed host key l c w).1 in
        (t.rest ≡ w.rest)
        × ((u : String) → object L t terminal u ≡ object L w terminal u)
        × ((u : String) → object L t claimed u ≡ object L w claimed u)
  unfolding publish_claimed seal_now
  published l none w = (refl, λ u. refl, λ u. refl)
  published l (some c) w = sealed (
      seal host.codec host.env (host.urandom (suc w.readings)) (activity l (host.time w.readings))
        key (some (aad_for "status" ("active/" <> l.uuid))) none)
    where
      sealed :
          (r : Result Bytes)
          → ((continue r (record w { readings = suc (suc w.readings) }) (put_active l.uuid)).1.rest
              ≡ w.rest)
            × ((u : String)
                → object L
                    (continue r
                      (record w { readings = suc (suc w.readings) })
                      (put_active l.uuid)).1
                    terminal
                    u
                  ≡ object L w terminal u)
            × ((u : String)
                → object L
                    (continue r
                      (record w { readings = suc (suc w.readings) })
                      (put_active l.uuid)).1
                    claimed
                    u
                  ≡ object L w claimed u)
      sealed (err e) = (refl, λ u. refl, λ u. refl)
      sealed (ok b) = put_active_keeps L l.uuid b (record w { readings = suc (suc w.readings) })

  publish_claimed_writes :
      (l : Lease) (c : String) (blob : Bytes) (w : World B Lease)
      → seal host.codec host.env
          (host.urandom (suc w.readings))
          (activity l (host.time w.readings))
          key
          (some (aad_for "status" ("active/" <> l.uuid)))
          none
        ≡ ok blob
      → let r = publish_claimed host key l (some c) w in
        (r.0 ≡ ok tt) × (body L r.1 active l.uuid ≡ some blob)
  unfolding publish_claimed seal_now
  publish_claimed_writes l c blob w sealed =
      rw sealed (put_active_writes L l.uuid blob (record w { readings = suc (suc w.readings) }))

  -- What `_publish_activity` writes for a lease with a claimant, where the payload is sealed.
  pub publish_activity_writes :
      (w : World B Lease) (c : String) (blob : Bytes)
      → w.rest.claimant ≡ some c
      → seal host.codec host.env
          (host.urandom (suc w.readings))
          (activity w.rest (host.time w.readings))
          key
          (some (aad_for "status" ("active/" <> w.rest.uuid)))
          none
        ≡ ok blob
      → let r = publish_activity host key w in
        (r.0 ≡ ok tt) × (body L r.1 active w.rest.uuid ≡ some blob)
  unfolding publish_activity
  publish_activity_writes w c blob named sealed =
      subst
        (λ x.
          let r = publish_claimed host key w.rest x w in
          (r.0 ≡ ok tt) × (body L r.1 active w.rest.uuid ≡ some blob))
        (sym named) (publish_claimed_writes w.rest c blob w sealed)

  pub renew_owned :
      (ta : ℕ) (w : World B Lease) (v : B.Version)
      → ((t : ℕ) → ReadsMarker host w.rest.owner t)
      → w.rest.lost ≡ false
      → object L w claimed w.rest.uuid ≡ some (marker host w.rest.owner ta, v)
      → let r = renew host key w in
        (r.0 ≡ ok true)
        × (r.1.rest ≡ w.rest)
        × ((u : String) → object L r.1 terminal u ≡ object L w terminal u)
        × (body L r.1 claimed w.rest.uuid ≡ some (marker host w.rest.owner (host.time w.readings)))
  unfolding renew renew_live try_publish_activity
  renew_owned ta w v reads live h =
      let (won, same, mine, still) =
        renew_claim_own host L w.rest.uuid w.rest.owner ta w v reads h in
      let w1 = (renew_claim host w.rest.uuid w.rest.owner none w).1 in
      let (rest, ends, claims) = published w1.rest w1.rest.claimant w1 in
      simp (live, won)
        (refl, rest ∙ same, λ u. ends u ∙ still u, ap body_of (claims w.rest.uuid) ∙ mine)

  -- A worker that holds its claim and whose job has no terminal object yet writes it: the write
  -- answers True, and the terminal object opens to the payload, completed by the claimant and the
  -- token. The marker's texts are read back, the AEAD is lawful, the key and every nonce have
  -- their lengths, and the JSON codec reads the payload back.
  pub write_terminal_opens :
      (law : IsAead host.codec) (ta : ℕ) (payload : Fields) (claimant token : Value)
      (w : World B Lease) (v : B.Version)
      → ((t : ℕ) → ReadsMarker host w.rest.owner t)
      → w.rest.lost ≡ false
      → object L w claimed w.rest.uuid ≡ some (marker host w.rest.owner ta, v)
      → object L w terminal w.rest.uuid ≡ none
      → length key ≡ 32
      → ((n : ℕ) → length (host.urandom n) ≡ 12)
      → let sent = echo "_claimant_token" token (echo "claimant_urn" claimant payload) in
        host.codec.loads (host.codec.dumps_compact sent) ≡ some (obj sent)
        → let u = w.rest.uuid in
          let r = write_terminal host key u payload claimant token w in
          (r.0 ≡ ok true)
          × ((blob : Bytes) × ((body L r.1 terminal u ≡ some blob)
                × (open_blob host.codec blob key (some (aad_for "terminal" u)) ≡ ok (obj sent))))
  unfolding write_terminal seal_now
  write_terminal_opens law ta payload claimant token w v reads live h free k n j =
      let sent = echo "_claimant_token" token (echo "claimant_urn" claimant payload) in
      let u = w.rest.uuid in
      let w1 = (renew host key w).1 in
      let (won, _, still, _) = renew_owned ta w v reads live h in
      let (blob, made, opens) =
        open_blob-seal host.codec law host.env (host.urandom w1.readings) sent key
          (some (aad_for "terminal" u)) none k (n w1.readings) j in
      let (wrote, now) =
        put_terminal_writes L u blob (record w1 { readings = suc w1.readings }) (still u ∙ free) in
      rw (won, made) (wrote, (blob, (now, opens)))
