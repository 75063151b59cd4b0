-- ===== src/Tests/Home.antt =====
-- The reconciler, the enqueuer and the bus client at concrete inputs.
use worker_hive_relay.Prelude.{
  ℕ, String, ◌≡◌, ◌≢◌, ◌⊎◌, refl, ap, true, false, Option, none, some, [], ◌∷◌, ◌++◌, Bytes, length,
  ◌=ₛ◌, if◌then◌else◌, utf8, utf8_char,
}
use worker_hive_relay.Exec.{ok, fail, other, transient_landing, permanent_landing}
use worker_hive_relay.Value.{str, obj, Fields, empty, field, get, put, remove, str_or_null}
use worker_hive_relay.Crypto.{version, magic_bytes, aad_for, aad_with_magic, open_blob}
use worker_hive_relay.Backend.{Backend, contains}
use worker_hive_relay.Backend.Memory.{memory, memory-IsLawful, lookup, erase, read, delete}
use worker_hive_relay.Client.{World, Slot, active, terminal, key_of, as_dict, get_terminal, purge}
use worker_hive_relay.Client.Objects.{object, body}
use worker_hive_relay.Hive.{Bridge, register, patch_status, patch_status_code}
use worker_hive_relay.Hive.Register.{Registered, register-Registered}
use worker_hive_relay.Poller.{Lease, activity, publish_activity}
use worker_hive_relay.Enqueuer.{read_activity}
use worker_hive_relay.Enqueuer.Renewal.{claimed_lease, read_activity-publish_activity}
use worker_hive_relay.Reconciler.{
  Lander, kept_fields, fits, reviewed_result, land_patch, shrink_result, reconcile_one, report,
  report_shrunk, report_result, drop_fields,
}
use worker_hive_relay.Reconciler.Evidence.{Acknowledged}
use worker_hive_relay.Reconciler.Settled.{reconcile_one-Acknowledged}
use worker_hive_relay.Reconciler.Untouched.{ReadsOnly, reconcile_one_untouched}
use worker_hive_relay.Reconciler.Shrink.{shrink_result_cases}
use worker_hive_relay.Reconciler.Landing.{reconcile_one_transient}
use worker_hive_relay.Tests.{
  host, codec, codec-IsAead, key, nonce, bus, hive, bridge, world, dumps, loads,
}
use worker_hive_relay.Tests.Crypto.{blob}

-- Landings fail for now, and no disk takes a patch.
abbrev busy_lander : Lander
busy_lander = record {
  land = λ payload uuid. fail transient_landing "clone busy";
  save_orphan_patch = λ payload uuid. none;
}

abbrev broken_lander : Lander
broken_lander = record {
  land = λ payload uuid. fail permanent_landing "patch does not apply";
  save_orphan_patch = λ payload uuid. none;
}

-- The finished job "j", on a bus that answers with `code`.
abbrev finished : (code : ℕ) → World memory (Bridge (bus code))
finished code = world ((key_of terminal "j", blob, 1) ∷ []) (bridge code)

accepted_by_bus : (reconcile_one host key busy_lander "j" (finished 200)).0 ≡ ok true
unfolding reconcile_one report report_shrunk report_result shrink_result drop_fields reviewed_result
    land_patch patch_status patch_status_code purge get_terminal open_blob as_dict aad_for
    aad_with_magic loads dumps get put remove memory-IsLawful read delete lookup erase key_of utf8
    utf8_char
accepted_by_bus = refl

reconcile_one-Acknowledged_example :
    let t = (reconcile_one host key busy_lander "j" (finished 200)).1 in
    Acknowledged (bus 200) "j" hive t.rest.bus
    × ((a : Slot) → object memory-IsLawful t a "j" ≡ none)
reconcile_one-Acknowledged_example =
    reconcile_one-Acknowledged host key busy_lander memory-IsLawful "j" (finished 200)
      accepted_by_bus

-- A store that answers every deletion with an error, behind it.
abbrev failing : Backend
failing = record {
  State = memory.State;
  Version = memory.Version;
  create_only = memory.create_only;
  cas_write = memory.cas_write;
  read = memory.read;
  read_opt = memory.read_opt;
  read_with_version = memory.read_with_version;
  put = memory.put;
  iter_keys = memory.iter_keys;
  delete = λ k s. (fail other "503", (memory.delete k s).1);
}

failing-ReadsOnly : ReadsOnly failing
failing-ReadsOnly = record {
  same_after_read = λ k s. ap (λ r. r.1) (memory-IsLawful.answer-read k s);
}

abbrev on_failing : World failing (Bridge (bus 200))
on_failing = record {
  bucket = (finished 200).bucket;
  cursors = [];
  readings = 0;
  rest = (finished 200).rest;
}

reconcile_one_untouched_example :
    let r = reconcile_one host key busy_lander "j" on_failing in
    (r.1.bucket ≡ on_failing.bucket)
    ⊎ ((r.0 ≢ ok false) × Acknowledged (bus 200) "j" hive r.1.rest.bus)
reconcile_one_untouched_example =
    reconcile_one_untouched host key busy_lander "j" failing-ReadsOnly on_failing

abbrev review : Fields
review = field "status" (str "needs-review") (field "patch" (str "diff") empty)

abbrev review_blob : Bytes
review_blob =
    let aad = aad_with_magic magic_bytes (some (aad_for "terminal" "j")) in
    magic_bytes ++ (version ∷ (nonce ++ (length aad ∷ (aad ++ dumps review))))

abbrev to_review : World memory (Bridge (bus 200))
to_review = world ((key_of terminal "j", review_blob, 1) ∷ []) (bridge 200)

review_stands : object memory-IsLawful to_review terminal "j" ≡ some (review_blob, 1)
unfolding memory-IsLawful lookup key_of
review_stands = refl

review_opens : open_blob codec review_blob key (some (aad_for "terminal" "j")) ≡ ok (obj review)
unfolding open_blob aad_for aad_with_magic dumps loads utf8 utf8_char
review_opens = refl

reconcile_one_transient_example :
    reconcile_one host key busy_lander "j" to_review ≡ (ok false, to_review)
unfolding get
reconcile_one_transient_example =
    reconcile_one_transient host key busy_lander memory-IsLawful "j" review_blob 1 review
      "clone busy" to_review review_stands review_opens refl refl refl

abbrev with_commit : Fields
with_commit = field "patch" (str "diff") (field "commit_sha" (str "abc") empty)

shrink_result_cases_example :
    (fits codec (shrink_result codec with_commit) ≡ true)
    ⊎ ((k : String)
        → get k (shrink_result codec with_commit) ≡ (
            if "error" =ₛ k
            then some (str "payload_too_large")
            else if contains k kept_fields
            then get k with_commit
            else none))
shrink_result_cases_example = shrink_result_cases codec with_commit

reads_activity :
    codec.loads (codec.dumps_compact (activity (claimed_lease "j" "a" "urn:x" none) (host.time 0)))
    ≡ some (obj (activity (claimed_lease "j" "a" "urn:x" none) (host.time 0)))
unfolding activity dumps loads put
reads_activity = refl

named : Path String "urn:x" "" → ⊥
named e = absurd (let clash : true ≡ false = ap (λ x. "urn:x" =ₛ x) e in cc clash)

no_token : Path (Option String) none (some "") → ⊥
no_token e = absurd (cc e)

-- A worker on an empty store that leased the job.
abbrev leased : World memory Lease
leased = world [] (claimed_lease "j" "a" "urn:x" none)

read_activity-publish_activity_example :
    let r = publish_activity host key leased in
    (r.0 ≡ ok tt)
    × ((sealed : Bytes) × ((body memory-IsLawful r.1 active "j" ≡ some sealed)
          × (read_activity host key "j" sealed
              ≡ ok (
                  some (record {
                    updated_at = host.time 0;
                    claimant = "urn:x";
                    claimant_token = str_or_null none;
                  })))))
read_activity-publish_activity_example =
    read_activity-publish_activity host codec-IsAead key memory-IsLawful "j" "a" "urn:x" none leased
      refl refl refl reads_activity named no_token

register-Registered_example : Registered (register empty (bridge 200))
register-Registered_example = register-Registered empty (bridge 200)
