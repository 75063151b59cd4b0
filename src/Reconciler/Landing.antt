-- ===== src/Reconciler/Landing.antt =====
-- Patches under the reconciler: a landing that is to be retried, and a patch that cannot land.
use worker_hive_relay.Prelude.{
  ◌≢◌, All, List, [], Option, String, ◌≡◌, refl, ap, true, false, none, some, Bytes, clip,
}
use worker_hive_relay.Exec.{ok, err, transient_landing}
use worker_hive_relay.Value.{
  Value, null, bool, str, obj, Fields, get, get_null, put, remove, truthy, get-put,
}
use worker_hive_relay.Crypto.{Codec, aad_for, open_blob}
use worker_hive_relay.Backend.{Backend, IsLawful}
use worker_hive_relay.Client.{Host, World, terminal, as_dict}
use worker_hive_relay.Client.Objects.{object, get_terminal_reads}
use worker_hive_relay.Hive.{Request, Bus, Bridge}
use worker_hive_relay.Reconciler.{
  Lander, reviewed_result, on_landing, land_patch, report, report_shrunk, reconcile_one,
}

needs_review-reviewed :
    (payload : Fields) → get_null "needs_review" (reviewed_result true payload) ≡ bool true
unfolding reviewed_result
needs_review-reviewed payload =
    ap (λ o. elim o [ none ↦ null | some v ↦ v ])
      (get-put "needs_review" "needs_review" _
        (remove "_claimant_token" (remove "claimant_urn" payload)))

module _ (codec : Codec) (lander : Lander) where
  pub lands_patch :
      (payload : Fields) (uuid : String)
      → truthy (get_null "patch" payload) ≡ true
      → land_patch codec lander payload uuid (reviewed_result true payload)
        ≡ on_landing codec lander payload uuid
            (reviewed_result true payload)
            (lander.land payload uuid)
  unfolding land_patch
  lands_patch payload uuid patch = rw (needs_review-reviewed payload, patch) refl

  -- The result of a permanent failure whose patch no disk took, and what is kept of it.
  abbrev unlanded : (payload : Fields) (message : String) → Fields
  unlanded payload message =
      put "landing_error" (str (clip message 500))
        (put "landing" (str "failed") (reviewed_result true payload))

  report_transient :
      {N : Bus} (payload : Fields) (uuid message : String) (x : Bridge N)
      → get_null "status" payload ≡ str "needs-review"
      → truthy (get_null "patch" payload) ≡ true
      → lander.land payload uuid ≡ err (record { kind = transient_landing; message = message })
      → report codec lander uuid payload x ≡ (ok false, x)
  unfolding report report_shrunk
  report_transient payload uuid message x status patch fails =
      rw status (rw (lands_patch payload uuid patch) (rw fails refl))

-- A request whose body holds a result with this patch.
pub record SendsPatch (patch : Option Value) (q : Request) : Type 0 where
  pub result : Fields
  pub in_body : get "result" q.json ≡ some (obj result)
  pub patch_field : get "patch" result ≡ patch

-- Something was sent, and all that was sent holds the patch.
abbrev pub AllSend : Option Value → List Request → Type 0
AllSend patch log = (log ≢ []) × All (SendsPatch patch) log

module _ (host : Host) (key : Bytes) (lander : Lander) {B : Backend} {N : Bus}
    (L : IsLawful B) where
  -- A landing that is to be retried changes nothing: for a review with a patch, a transient
  -- landing error sends nothing to the bus and leaves the bucket as it is.
  pub reconcile_one_transient :
      (uuid : String) (raw : Bytes) (v : B.Version) (payload : Fields) (message : String)
      (w : World B (Bridge N))
      → object L w terminal uuid ≡ some (raw, v)
      → open_blob host.codec raw key (some (aad_for "terminal" uuid)) ≡ ok (obj payload)
      → get_null "status" payload ≡ str "needs-review"
      → truthy (get_null "patch" payload) ≡ true
      → lander.land payload uuid ≡ err (record { kind = transient_landing; message = message })
      → reconcile_one host key lander uuid w ≡ (ok false, w)
  unfolding reconcile_one as_dict
  reconcile_one_transient uuid raw v payload message w stands opens status patch fails =
      rw (get_terminal_reads L uuid w, stands, opens, status)
        (rw (report_transient host.codec lander payload uuid message w.rest status patch fails)
          refl)
