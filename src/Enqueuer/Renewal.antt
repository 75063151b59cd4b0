-- ===== src/Enqueuer/Renewal.antt =====
-- The activity markers between the poller, which seals them, and the enqueuer, which acts on them.
use text.Mathlib.TextPositions.{eq_refl}
use text.Mathlib.TextLemmas
use worker_hive_relay.Prelude.{
  ℕ, suc, String, ◌<>◌, ◌≡◌, ◌≢◌, refl, sym, ap, ◌∙◌, false, Option, none, some, Bytes, length,
  =ₛ-false,
}
use worker_hive_relay.Exec.{ok}
use worker_hive_relay.Value.{obj, Fields, get, put, str_or_null}
use worker_hive_relay.Crypto.{aad_for, seal}
use worker_hive_relay.Crypto.Framing.{IsAead, open_blob-seal}
use worker_hive_relay.Crypto.Binding.{open_blob-seal_moved}
use worker_hive_relay.Backend.{Backend, IsLawful}
use worker_hive_relay.Client.{Host, World, active, as_dict, to_float}
use worker_hive_relay.Client.Objects.{object, body, get_active_reads}
use worker_hive_relay.Client.Sweep.{go}
use worker_hive_relay.Hive.{Bus, Bridge}
use worker_hive_relay.Poller.{Lease, activity, publish_activity}
use worker_hive_relay.Poller.Terminal.{publish_activity_writes}
use worker_hive_relay.Enqueuer.{
  checked_job, opened_dict, skip_invalid, read_activity, renew_step, renew_marked, renew_if_live,
}

-- The lease of a job whose claimant is known.
abbrev pub claimed_lease : (uuid owner claimant : String) → Option String → Lease
claimed_lease u o c t = record {
  uuid = u;
  owner = o;
  claimant = some c;
  claimant_token = t;
  lost = false;
}

checked_activity :
    (host : Host) (u o c : String) (t : Option String) (now : ℕ)
    → c ≢ ""
    → t ≢ some ""
    → checked_job host u (ok (activity (claimed_lease u o c t) now))
      ≡ ok (record { updated_at = now; claimant = c; claimant_token = str_or_null t })
unfolding activity get put to_float
checked_activity host u o c none now named token = rw (eq_refl u, =ₛ-false c "" named) refl
checked_activity host u o c (some t) now named token =
    rw (eq_refl u, =ₛ-false c "" named, =ₛ-false t "" (λ e. token (ap some e))) refl

module _ (host : Host) (law : IsAead host.codec) (key : Bytes) where
  -- An activity marker, sealed for its job, is read back.
  read_activity-seal :
      (u o c : String) (t : Option String) (now : ℕ) (random : Bytes)
      → length key ≡ 32
      → length random ≡ 12
      → host.codec.loads (host.codec.dumps_compact (activity (claimed_lease u o c t) now))
        ≡ some (obj (activity (claimed_lease u o c t) now))
      → c ≢ ""
      → t ≢ some ""
      → (blob : Bytes) × (seal host.codec host.env random
            (activity (claimed_lease u o c t) now)
            key
            (some (aad_for "status" ("active/" <> u)))
            none
          ≡ ok blob)
        × (read_activity host key u blob
            ≡ ok (some (record { updated_at = now; claimant = c; claimant_token = str_or_null t })))
  unfolding read_activity as_dict
  read_activity-seal u o c t now random k n j named token =
      let p = activity (claimed_lease u o c t) now in
      let (blob, made, opens) =
        open_blob-seal host.codec law host.env random p key
          (some (aad_for "status" ("active/" <> u))) none k n j in
      (
        blob,
        made,
        ap skip_invalid (
            ap (λ r. checked_job host u (opened_dict r)) opens
            ∙ checked_activity host u o c t now named token),
      )

  read_activity-moved :
      (u v : String) (payload : Fields) (random blob : Bytes)
      → length key ≡ 32
      → length random ≡ 12
      → v ≢ u
      → seal host.codec host.env random payload key (some (aad_for "status" ("active/" <> v))) none
        ≡ ok blob
      → read_activity host key u blob ≡ ok none
  unfolding read_activity
  read_activity-moved u v payload random blob k n differ made =
      let (m, refused) =
        open_blob-seal_moved host.codec law host.env random payload key none "status" "status"
          ("active/" <> v) ("active/" <> u) blob k n refl refl
          (λ same. differ (TextLemmas.append_cancel_left "active/" v u same.1)) made in
      rw refused refl

module _ (host : Host) (law : IsAead host.codec) (key : Bytes) {B : Backend} (L : IsLawful B) where
  -- What the poller publishes is what the enqueuer reads: where `_publish_activity` runs under the
  -- lease of a job with a claimant, it returns, and the object that the bucket then holds for the
  -- active job is read by the enqueuer, under the job's id, as the time of the publication, the
  -- claimant and the token. The key and the nonce have their lengths, the JSON codec reads the
  -- payload back, and neither the claimant nor the token is an empty text.
  pub read_activity-publish_activity :
      (u o c : String) (t : Option String) (w : World B Lease)
      → w.rest ≡ claimed_lease u o c t
      → length key ≡ 32
      → length (host.urandom (suc w.readings)) ≡ 12
      → let p = activity (claimed_lease u o c t) (host.time w.readings) in
        host.codec.loads (host.codec.dumps_compact p) ≡ some (obj p)
        → c ≢ ""
        → t ≢ some ""
        → let r = publish_activity host key w in
          (r.0 ≡ ok tt)
          × ((blob : Bytes) × ((body L r.1 active u ≡ some blob)
                × (read_activity host key u blob
                    ≡ ok (
                        some (record {
                          updated_at = host.time w.readings;
                          claimant = c;
                          claimant_token = str_or_null t;
                        })))))
  read_activity-publish_activity u o c t w lease k n j named token =
      let (blob, made, reads) =
        read_activity-seal host law key u o c t (host.time w.readings)
          (host.urandom (suc w.readings)) k n j named token in
      let (done, stands) =
        publish_activity_writes host key L w c blob (ap (λ l. l.claimant) lease) (rw lease made) in
      (
        done,
        (
          blob,
          (
            ap (λ l. body L (publish_activity host key w).1 active l.uuid) (sym lease) ∙ stands,
            reads,
          ),
        ),
      )

module _ (host : Host) (law : IsAead host.codec) (key : Bytes) {B : Backend} {N : Bus}
    (L : IsLawful B) where
  -- A marker that was sealed for another job does not renew this one: the enqueuer skips it, and
  -- sends nothing to the bus.
  pub renew_step-moved :
      (u v : String) (payload : Fields) (random blob : Bytes) (version : B.Version)
      (lease now renewed : ℕ) (w : World B (Bridge N))
      → length key ≡ 32
      → length random ≡ 12
      → v ≢ u
      → seal host.codec host.env random payload key (some (aad_for "status" ("active/" <> v))) none
        ≡ ok blob
      → object L w active u ≡ some (blob, version)
      → renew_step host key lease now u renewed w ≡ (ok (go renewed), w)
  unfolding renew_step renew_marked renew_if_live
  renew_step-moved u v payload random blob version lease now renewed w k n differ made stands =
      rw
        (
          get_active_reads L u w,
          stands,
          read_activity-moved host law key u v payload random blob k n differ made,
        )
        refl
