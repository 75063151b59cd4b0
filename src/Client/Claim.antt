-- ===== src/Client/Claim.antt =====
-- The lease protocol: `claim`, `renew_claim` and `owns_claim` over any lawful store.
use text.Mathlib.TextEquality.{eq_iff}
use worker_hive_relay.Prelude.{
  ℕ, ◌+◌, String, ◌≡◌, ◌≢◌, refl, sym, ap, ◌∙◌, inl, inr, Option-cases, Bool, true, false, Option,
  none, some, arith, Bytes, ltb, ◌=ₛ◌, if◌then◌else◌,
}
use worker_hive_relay.Exec.{Result, ok, err}
use worker_hive_relay.Value.{num, str, obj, empty, field, get}
use worker_hive_relay.Backend.{Backend, IsLawful}
use worker_hive_relay.Client.{
  Host, World, claimed, key_of, marker, claimed_at, is_owner, on_bad_value, claim,
}
use worker_hive_relay.Client.Objects.{object, body, body_of}

-- The JSON codec reads back the marker of this owner and time.
abbrev pub ReadsMarker : Host → String → ℕ → Type 0
ReadsMarker host owner t =
    host.codec.loads (marker host owner t)
    ≡ some (obj (field "owner" (str owner) (field "claimed_at" (num t) empty)))

module _ (host : Host) where
  pub claimed_at-marker :
      (owner : String) (t : ℕ)
      → ReadsMarker host owner t
      → claimed_at host (marker host owner t) ≡ ok t
  unfolding claimed_at get
  claimed_at-marker owner t h = rw h

  pub is_owner-marker :
      (owner o : String) (t : ℕ)
      → ReadsMarker host owner t
      → is_owner host (marker host owner t) o ≡ ok (owner =ₛ o)
  unfolding is_owner get
  is_owner-marker owner o t h = rw h

-- What a claim at `now` does to the marker that it finds: `none` leaves it, `some` writes its own.
-- `since` is the time that the marker states, zero where it cannot be read.
abbrev pub takes : Option (Result ℕ) → (lease now : ℕ) → Result Bool
takes none lease now = ok true
takes (some (err e)) lease now = err e
takes (some (ok since)) lease now = ok (if ltb now (since + lease) then false else true)

abbrev pub since_of : Host → {V : Type 0} → Option (Bytes × V) → Option (Result ℕ)
since_of host none = none
since_of host (some (raw, _)) = some (on_bad_value 0 (claimed_at host raw))

abbrev pub wins : Result Bool → Bool
wins (ok b) = b
wins (err _) = false

marker_after :
    (new old : Option Bytes) (now_is : Option Bytes) (r : Result Bool)
    → (r ≡ ok true → now_is ≡ new)
    → (r ≢ ok true → now_is ≡ old)
    → now_is ≡ (if wins r then new else old)
marker_after new old now_is (ok true) won lost = won refl
marker_after new old now_is (ok false) won lost = lost (λ e. absurd (cc e))
marker_after new old now_is (err e) won lost = lost (λ h. absurd (cc h))

module _ (host : Host) {B : Backend} {X : Type 0} (L : IsLawful B) where
  pub claim_fresh :
      (u owner : String) (lease now : ℕ) (w : World B X)
      → object L w claimed u ≡ none
      → let r = claim host u owner lease (some now) w in
        (r.0 ≡ ok true) × (body L r.1 claimed u ≡ some (marker host owner now))
  unfolding claim
  claim_fresh u owner lease now w h =
      let k = key_of claimed u in
      let m = marker host owner now in
      ground
        (arith, L.answer-create_only k m w.bucket, L.view-create_only k m w.bucket k, eq_iff k k)

  -- A marker stands: the three outcomes.
  pub claim_standing :
      (u owner : String) (lease now : ℕ) (w : World B X) (raw : Bytes) (v : B.Version)
      → object L w claimed u ≡ some (raw, v)
      → let r = claim host u owner lease (some now) w in
        (r.0 ≡ takes (some (on_bad_value 0 (claimed_at host raw))) lease now)
        × (r.0 ≡ ok true → body L r.1 claimed u ≡ some (marker host owner now))
        × (r.0 ≢ ok true → object L r.1 claimed u ≡ some (raw, v))
  unfolding claim
  claim_standing u owner lease now w raw v h =
      let k = key_of claimed u in
      let m = marker host owner now in
      let s = w.bucket in
      let s1 = (B.create_only k m s).1 in
      ground (
        arith,
        L.answer-create_only k m s,
        L.view-create_only k m s k,
        L.answer-read_with_version k s1,
        L.answer-cas_write k m v s1,
        L.view-cas_write k m v s1 k,
        L.same_refl v,
        eq_iff k k,
      )

  -- `claim` decides by the marker that stands: it wins where there is none or where the lease of
  -- the marker is over, it loses under a live lease, and a marker that is JSON but no object
  -- raises. After a win the marker is the caller's; in the other cases its text is what it was.
  pub claim_decides :
      (u owner : String) (lease now : ℕ) (w : World B X)
      → let r = claim host u owner lease (some now) w in
        (r.0 ≡ takes (since_of host (object L w claimed u)) lease now)
        × (body L r.1 claimed u
            ≡ (if wins r.0 then some (marker host owner now) else body L w claimed u))
  claim_decides u owner lease now w = elim (Option-cases (object L w claimed u)) [
    | inl absent ↦
        let f = claim_fresh u owner lease now w absent in
        (f.0 ∙ ap (λ o. takes (since_of host o) lease now) (sym absent), rw f.0 f.1)
    | inr ((raw, v), stands) ↦
        let f = claim_standing u owner lease now w raw v stands in
        (
          f.0 ∙ ap (λ o. takes (since_of host o) lease now) (sym stands),
          marker_after _ _ _ (claim host u owner lease (some now) w).0 f.1
              (λ n. ap body_of (f.2 n ∙ sym stands)),
        )
  ]
