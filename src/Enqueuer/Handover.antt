-- ===== src/Enqueuer/Handover.antt =====
-- What the enqueuer puts into the bucket, the poller reads.
use text.Mathlib.TextPositions.{eq_refl}
use worker_hive_relay.Prelude.{
  suc, String, ◌≡◌, refl, ap, ◌∙◌, Bool, true, false, not, none, some, Bytes, length, ◌=ₛ◌,
  if◌then◌else◌,
}
use worker_hive_relay.Exec.{ok}
use worker_hive_relay.Value.{
  Value, null, bool, num, str, arr, obj, Fields, empty, field, get, put, truthy,
}
use worker_hive_relay.Crypto.{aad_for, seal, open_blob}
use worker_hive_relay.Crypto.Framing.{IsAead, open_blob-seal}
use worker_hive_relay.Backend.{Backend, IsLawful}
use worker_hive_relay.Client.{
  Host, World, pending, claimant, key_of, as_dict, get_pending, get_claimant, put_claimant,
  put_pending,
}
use worker_hive_relay.Client.Keys.{key_of-eq}
use worker_hive_relay.Poller.{Lease, claimant_route, read_claimant, read_envelope, seal_now}
use worker_hive_relay.Hive.{Bus, Bridge, HiveClient, is_token}
use worker_hive_relay.Enqueuer.Payload.{Setup}
use worker_hive_relay.Enqueuer.Feed.{route_of, with_claimant, put_objects}

route_null :
    (urn : String)
    → (urn =ₛ "") ≡ false
    → claimant_route (field "claimant_urn" (str urn) empty) ≡ some (urn, null)
unfolding claimant_route get
route_null urn named = rw (named, claimant_route) refl

route_token :
    (urn t : String)
    → (urn =ₛ "") ≡ false
    → (t =ₛ "") ≡ false
    → claimant_route (put "claimant_token" (str t) (field "claimant_urn" (str urn) empty))
      ≡ some (urn, str t)
unfolding claimant_route get put
route_token urn t named full = rw (named, claimant_route) (rw full refl)

claimant_route-route_of :
    (hive : HiveClient)
    → (hive.urn =ₛ "") ≡ false
    → is_token hive.agent_token ≡ true
    → claimant_route (route_of hive) ≡ some (hive.urn, hive.agent_token)
claimant_route-route_of hive named h = go hive.agent_token h
  where
    routed : Value → Fields
    routed token =
        if truthy token
        then put "claimant_token" token (field "claimant_urn" (str hive.urn) empty)
        else field "claimant_urn" (str hive.urn) empty

    go :
        (token : Value)
        → is_token token ≡ true
        → claimant_route (routed token) ≡ some (hive.urn, token)
    go null k = route_null hive.urn named
    go (str t) k = full (t =ₛ "") refl k
      where
        full :
            (b : Bool)
            → (t =ₛ "") ≡ b
            → not b ≡ true
            → claimant_route (routed (str t)) ≡ some (hive.urn, str t)
        full true e n = absurd (cc n)
        full false e n = rw e (route_token hive.urn t named e)
    go (bool _) k = absurd (cc k)
    go (num _) k = absurd (cc k)
    go (arr _) k = absurd (cc k)
    go (obj _) k = absurd (cc k)

module _ (host : Host) (key : Bytes) {B : Backend} (L : IsLawful B) where
  reads_claimant :
      (id : String) (u : World B Lease) (c : Bytes) (v : B.Version) (route : Fields)
      → L.view u.bucket (key_of claimant id) ≡ some (c, v)
      → open_blob host.codec c key (some (aad_for "claimant" id)) ≡ ok (obj route)
      → (read_claimant host key id u).0 ≡ ok (claimant_route route)
  unfolding read_claimant read_envelope get_claimant as_dict
  reads_claimant id u c v route stands opens = rw (L.answer-read, stands, opens) refl

  reads_pending :
      (id : String) (u : World B Lease) (p : Bytes) (v : B.Version)
      → L.view u.bucket (key_of pending id) ≡ some (p, v)
      → (get_pending id u).0 ≡ ok p
  unfolding get_pending
  reads_pending id u p v stands = rw (L.answer-read, stands) refl

module _ (host : Host) (law : IsAead host.codec) (key : Bytes) (setup : Setup) {B : Backend}
    {N : Bus} (L : IsLawful B) where
  puts :
      (id : String) (payload : Fields) (w : World B (Bridge N)) (c p : Bytes)
      → seal host.codec host.env
          (host.urandom w.readings)
          (route_of w.rest.hive)
          key
          (some (aad_for "claimant" id))
          none
        ≡ ok c
      → seal host.codec host.env
          (host.urandom (suc w.readings))
          (with_claimant w.rest.hive payload)
          key
          (some (aad_for "pending" id))
          none
        ≡ ok p
      → put_objects host key setup id payload w ≡ (
        ok tt,
        record w {
          bucket = (B.put (key_of pending id) p (B.put (key_of claimant id) c w.bucket).1).1;
          readings = suc (suc w.readings);
        },
      )
  unfolding put_objects seal_now put_claimant put_pending
  puts id payload w c p ec ep = rw (ec, ep, L.answer-put, L.answer-put) refl

  -- From the enqueuer to the poller: over a lawful store and a lawful AEAD, with a key and fresh
  -- nonces of the right lengths, a JSON codec that reads both documents back, a URN that is not
  -- empty and a token that is null or not an empty text, `put_objects` succeeds, and a poller on
  -- the same bucket reads the enqueuer's URN and token as the claimant, and a pending object that
  -- opens to the payload with that claimant in it.
  pub put_objects_reach_poller :
      (id : String) (payload : Fields) (w : World B (Bridge N)) (u : World B Lease)
      → u.bucket ≡ (put_objects host key setup id payload w).1.bucket
      → length key ≡ 32
      → length (host.urandom w.readings) ≡ 12
      → length (host.urandom (suc w.readings)) ≡ 12
      → host.codec.loads (host.codec.dumps_compact (route_of w.rest.hive))
        ≡ some (obj (route_of w.rest.hive))
      → host.codec.loads (host.codec.dumps_compact (with_claimant w.rest.hive payload))
        ≡ some (obj (with_claimant w.rest.hive payload))
      → (w.rest.hive.urn =ₛ "") ≡ false
      → is_token w.rest.hive.agent_token ≡ true
      → ((put_objects host key setup id payload w).0 ≡ ok tt)
        × ((read_claimant host key id u).0 ≡ ok (some (w.rest.hive.urn, w.rest.hive.agent_token)))
        × ((raw : Bytes) × ((get_pending id u).0 ≡ ok raw)
            × (open_blob host.codec raw key (some (aad_for "pending" id))
                ≡ ok (obj (with_claimant w.rest.hive payload))))
  put_objects_reach_poller id payload w u shared k n1 n2 j1 j2 named token =
      let hive = w.rest.hive in
      let (c, ec, oc) =
        open_blob-seal host.codec law host.env (host.urandom w.readings) (route_of hive) key
          (some (aad_for "claimant" id)) none k n1 j1 in
      let (p, ep, op) =
        open_blob-seal host.codec law host.env (host.urandom (suc w.readings))
          (with_claimant hive payload) key (some (aad_for "pending" id)) none k n2 j2 in
      let put_both = puts id payload w c p ec ep in
      let s1 = (B.put (key_of claimant id) c w.bucket).1 in
      let holds : u.bucket ≡ (B.put (key_of pending id) p s1).1 =
        shared ∙ ap (λ t. t.1.bucket) put_both in
      (
        ap (λ t. t.0) put_both,
        reads_claimant host key L id u c (L.stamp w.bucket (key_of claimant id) c) (route_of hive)
              (rw (holds, L.view-put, key_of-eq) (rw (L.view-put, eq_refl) refl)) oc
            ∙ ap ok (claimant_route-route_of hive named token),
        (
          p,
          reads_pending host key L id u p (L.stamp s1 (key_of pending id) p)
              (rw (holds, L.view-put, eq_refl) refl),
          op,
        ),
      )
