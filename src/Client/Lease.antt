-- ===== src/Client/Lease.antt =====
-- Leases over time and between workers: `claim`, `renew_claim` and `owns_claim` in sequence.
use text.Mathlib.TextEquality.{eq_iff}
use text.Mathlib.TextPositions.{eq_refl}
use worker_hive_relay.Prelude.{
  ℕ, ◌+◌, ◌≤◌, ◌<◌, String, ◌≡◌, ◌≢◌, refl, sym, =ₛ-false, true, false, none, some, arith, Bytes,
}
use worker_hive_relay.Exec.{ok}
use worker_hive_relay.Backend.{Backend, IsLawful}
use worker_hive_relay.Client.{
  Host, World, claimed, terminal, key_of, marker, claimed_at, take_over, claim, renew_claim,
  owns_claim,
}
use worker_hive_relay.Client.Objects.{object, body, body_of, object-body}
use worker_hive_relay.Client.Keys.{key_of-eq}
use worker_hive_relay.Client.Claim.{
  ReadsMarker, claimed_at-marker, is_owner-marker, claim_fresh, claim_standing,
}

module _ (host : Host) {B : Backend} (L : IsLawful B) where
  -- The compare-and-swap of a renewal by the worker whom the marker names, at the store.
  own_cas :
      (u a : String) (ta t : ℕ) (v : B.Version) (s : B.State)
      → L.view s (key_of claimed u) ≡ some (marker host a ta, v)
      → let r = B.cas_write (key_of claimed u) (marker host a t) v s in
        (r.0 ≡ ok true)
        × (body_of (L.view r.1 (key_of claimed u)) ≡ some (marker host a t))
        × ((x : String) → L.view r.1 (key_of terminal x) ≡ L.view s (key_of terminal x))
  own_cas u a ta t v s h =
      let k = key_of claimed u in
      (
        ground (arith, L.answer-cas_write k (marker host a t) v s, L.same_refl v),
        ground (arith, L.view-cas_write k (marker host a t) v s k, L.same_refl v, eq_iff k k),
        λ x. rw (L.view-cas_write, key_of-eq),
      )

module _ (host : Host) {B : Backend} {X : Type 0} (L : IsLawful B) where
  -- Exactly one of two workers gets a fresh job: the first claim wins, a claim of another worker
  -- before the lease is over loses, and the marker is still the first worker's.
  pub claim_exclusive :
      (u a b : String) (lease ta tb : ℕ) (w : World B X)
      → object L w claimed u ≡ none
      → ReadsMarker host a ta
      → tb < ta + lease
      → let w1 = (claim host u a lease (some ta) w).1 in
        ((claim host u a lease (some ta) w).0 ≡ ok true)
        × ((claim host u b lease (some tb) w1).0 ≡ ok false)
        × (body L (claim host u b lease (some tb) w1).1 claimed u ≡ some (marker host a ta))
  claim_exclusive u a b lease ta tb w h reads live =
      let (won, mine) = claim_fresh host L u a lease ta w h in
      let w1 = (claim host u a lease (some ta) w).1 in
      let (v, now_a) = object-body L w1 claimed u (marker host a ta) mine in
      let (lost, _, same) = claim_standing host L u b lease tb w1 (marker host a ta) v now_a in
      let at = claimed_at-marker host a ta reads in
      let refused : (claim host u b lease (some tb) w1).0 ≡ ok false = ground (arith, lost, at) in
      (won, refused, ground (arith, same, refused))

  -- Renewal and ownership fail for a worker whom the marker does not name.
  lost_to_other :
      (u a b : String) (lease tb t : ℕ) (w : World B X) (v : B.Version)
      → object L w claimed u ≡ some (marker host b tb, v)
      → ReadsMarker host b tb
      → a ≢ b
      → ((renew_claim host u a (some t) w).0 ≡ ok false)
        × ((owns_claim host u a lease (some t) w).0 ≡ ok false)
        × (object L (renew_claim host u a (some t) w).1 claimed u ≡ some (marker host b tb, v))
  unfolding renew_claim owns_claim
  lost_to_other u a b lease tb t w v h reads differ = ground (
    arith,
    L.answer-read_with_version (key_of claimed u) w.bucket,
    is_owner-marker host b a tb reads,
    claimed_at-marker host b tb reads,
    eq_iff b a,
  )

  -- An expired lease changes hands: the claim of the second worker wins, and from then on the
  -- first one can neither renew its claim nor pass for its owner.
  pub claim_expired :
      (u a b : String) (lease ta tb t : ℕ) (w : World B X) (v : B.Version)
      → object L w claimed u ≡ some (marker host a ta, v)
      → ReadsMarker host a ta
      → ReadsMarker host b tb
      → a ≢ b
      → ta + lease ≤ tb
      → let w1 = (claim host u b lease (some tb) w).1 in
        ((claim host u b lease (some tb) w).0 ≡ ok true)
        × ((renew_claim host u a (some t) w1).0 ≡ ok false)
        × ((owns_claim host u a lease (some t) w1).0 ≡ ok false)
        × (body L (renew_claim host u a (some t) w1).1 claimed u ≡ some (marker host b tb))
  claim_expired u a b lease ta tb t w v h ra rb differ over =
      let w1 = (claim host u b lease (some tb) w).1 in
      let (won, mine, _) = claim_standing host L u b lease tb w (marker host a ta) v h in
      let taken : (claim host u b lease (some tb) w).0 ≡ ok true =
        ground (arith, won, claimed_at-marker host a ta ra) in
      let (v1, now_b) = object-body L w1 claimed u (marker host b tb) (mine taken) in
      let lost = lost_to_other u a b lease tb t w1 v1 now_b rb differ in
      (taken, lost.0, lost.1, ground (arith, lost.2))

  renew_own :
      (u a : String) (ta t : ℕ) (w : World B X) (v : B.Version)
      → object L w claimed u ≡ some (marker host a ta, v)
      → ReadsMarker host a ta
      → ((renew_claim host u a (some t) w).0 ≡ ok true)
        × (body L (renew_claim host u a (some t) w).1 claimed u ≡ some (marker host a t))
  unfolding renew_claim
  renew_own u a ta t w v h reads =
      let k = key_of claimed u in
      ground (
        arith,
        L.answer-read_with_version k w.bucket,
        is_owner-marker host a a ta reads,
        L.answer-cas_write k (marker host a t) v w.bucket,
        L.view-cas_write k (marker host a t) v w.bucket k,
        L.same_refl v,
        eq_iff a a,
        eq_iff k k,
      )

  -- A renewal moves the lease: after its owner's renewal at `t` the marker is a new one of the
  -- same owner, and a claim of another worker before `t` plus the lease loses.
  pub renew_claim_extends :
      (u a b : String) (lease ta t tb : ℕ) (w : World B X) (v : B.Version)
      → object L w claimed u ≡ some (marker host a ta, v)
      → ReadsMarker host a ta
      → ReadsMarker host a t
      → tb < t + lease
      → let w1 = (renew_claim host u a (some t) w).1 in
        ((renew_claim host u a (some t) w).0 ≡ ok true)
        × (body L w1 claimed u ≡ some (marker host a t))
        × ((claim host u b lease (some tb) w1).0 ≡ ok false)
  renew_claim_extends u a b lease ta t tb w v h ra rt live =
      let k = key_of claimed u in
      let w1 = (renew_claim host u a (some t) w).1 in
      let renewed = renew_own u a ta t w v h ra in
      let (v1, mine) = object-body L w1 claimed u (marker host a t) renewed.1 in
      let (lost, _, _) = claim_standing host L u b lease tb w1 (marker host a t) v1 mine in
      (renewed.0, renewed.1, ground (arith, lost, claimed_at-marker host a t rt))

  -- Two workers that both read the same expired marker cannot both take it over: whichever
  -- compare-and-swap comes first wins, the other one loses, and the marker is the winner's. The
  -- hypothesis on `stamp` says that the store gives the first write another version.
  pub take_over_race :
      (u a b : String) (lease ta tb since : ℕ) (w : World B X) (raw : Bytes) (v : B.Version)
      → object L w claimed u ≡ some (raw, v)
      → claimed_at host raw ≡ ok since
      → L.same (L.stamp w.bucket (key_of claimed u) (marker host a ta)) v ≡ false
      → since + lease ≤ ta
      → since + lease ≤ tb
      → let w1 = (take_over host u (marker host a ta) ta lease (some (raw, v)) w).1 in
        let second = take_over host u (marker host b tb) tb lease (some (raw, v)) w1 in
        ((take_over host u (marker host a ta) ta lease (some (raw, v)) w).0 ≡ ok true)
        × (second.0 ≡ ok false)
        × (body L second.1 claimed u ≡ some (marker host a ta))
  unfolding take_over
  take_over_race u a b lease ta tb since w raw v h at fresh over_a over_b =
      let k = key_of claimed u in
      let m = marker host a ta in
      let s = w.bucket in
      let s1 = (B.cas_write k m v s).1 in
      let n = marker host b tb in
      ground (
        arith,
        at,
        L.answer-cas_write k m v s,
        L.view-cas_write k m v s k,
        L.answer-cas_write k n v s1,
        L.view-cas_write k n v s1 k,
        L.same_refl v,
        fresh,
        eq_iff k k,
      )

  -- A renewal by the worker whom the marker names, at the clock's time: it wins, moves the marker
  -- to that time, and leaves the terminal objects alone.
  pub renew_claim_own :
      (u a : String) (ta : ℕ) (w : World B X) (v : B.Version)
      → ((t : ℕ) → ReadsMarker host a t)
      → object L w claimed u ≡ some (marker host a ta, v)
      → let r = renew_claim host u a none w in
        (r.0 ≡ ok true)
        × (r.1.rest ≡ w.rest)
        × (body L r.1 claimed u ≡ some (marker host a (host.time w.readings)))
        × ((x : String) → object L r.1 terminal x ≡ object L w terminal x)
  unfolding renew_claim
  renew_claim_own u a ta w v reads h =
      let (won, mine, still) = own_cas host L u a ta (host.time w.readings) v w.bucket h in
      rw (L.answer-read_with_version, h, is_owner-marker host a a ta (reads ta), eq_refl a)
        (won, refl, mine, still)

  -- A renewal by a worker whom the marker does not name fails and leaves the store as it is.
  pub renew_claim_refused :
      (u a b : String) (tb : ℕ) (w : World B X) (v : B.Version)
      → ReadsMarker host b tb
      → a ≢ b
      → object L w claimed u ≡ some (marker host b tb, v)
      → let r = renew_claim host u a none w in
        (r.0 ≡ ok false) × (r.1.bucket ≡ w.bucket) × (r.1.rest ≡ w.rest)
  unfolding renew_claim
  renew_claim_refused u a b tb w v reads differ h =
      rw
        (
          L.answer-read_with_version,
          h,
          is_owner-marker host b a tb reads,
          =ₛ-false b a (λ e. differ (sym e)),
        )
        (refl, refl, refl)
