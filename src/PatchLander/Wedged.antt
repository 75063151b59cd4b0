-- ===== src/PatchLander/Wedged.antt =====
-- What becomes of a payload whose URL cannot be parsed, under the reconciler.
use text.Mathlib.TextEquality.{eq_iff}
use worker_hive_relay.Prelude.{
  String, ◌≡◌, refl, sym, ap, ◌∙◌, Bool, true, false, not, Option, some, Bytes, ◌=ₛ◌, strip,
}
use worker_hive_relay.Exec.{ok, fail, value_error}
use worker_hive_relay.Value.{str, obj, Fields, get_null, truthy}
use worker_hive_relay.Crypto.{Codec, aad_for, open_blob}
use worker_hive_relay.Backend.{Backend, IsLawful}
use worker_hive_relay.Client.{Host, World, terminal, as_dict}
use worker_hive_relay.Client.Objects.{object, get_terminal_reads}
use worker_hive_relay.Hive.{Bus, Bridge}
use worker_hive_relay.Reconciler.{Lander, report, reconcile_one}
use worker_hive_relay.Reconciler.Landing.{lands_patch}
use worker_hive_relay.Git.{System, Libs}
use worker_hive_relay.PatchLander.{PatchLander, admit}
use worker_hive_relay.PatchLander.Land.{land}
use worker_hive_relay.PatchLander.Admission.{repo_of}

strip_nil : (strip "" =ₛ "") ≡ true
unfolding strip
strip_nil = refl

patch_truthy : (patch : String) → (strip patch =ₛ "") ≡ false → truthy (str patch) ≡ true
patch_truthy patch h = go (patch =ₛ "") refl
  where
    go : (b : Bool) → (patch =ₛ "") ≡ b → not (patch =ₛ "") ≡ true
    go false e = ap not e
    go true e =
        let empty : patch ≡ "" = (eq_iff patch "").0 e in
        absurd (cc (sym h ∙ ap (λ p. strip p =ₛ "") empty ∙ strip_nil))

report_raises :
    {N : Bus} (codec : Codec) (lander : Lander) (payload : Fields) (uuid message : String)
    (x : Bridge N)
    → get_null "status" payload ≡ str "needs-review"
    → truthy (get_null "patch" payload) ≡ true
    → lander.land payload uuid ≡ fail value_error message
    → report codec lander uuid payload x ≡ (fail value_error message, x)
unfolding report
report_raises codec lander payload uuid message x status patch fails =
    rw status (rw (lands_patch codec lander payload uuid patch) (rw fails refl))

module _ (libs : Libs) (sys : System) (self : PatchLander) where
  -- The lander, on the disk as it stands.
  abbrev pub lander_on : sys.State → (Fields → String → Option String) → Lander
  lander_on s save = record {
    land = λ payload uuid. (land libs sys self payload uuid s).0;
    save_orphan_patch = save;
  }

  wedged_land :
      (payload : Fields) (uuid patch message : String) (s : sys.State)
      → get_null "patch" payload ≡ str patch
      → (strip patch =ₛ "") ≡ false
      → (repo_of libs payload =ₛ "") ≡ false
      → libs.urlparse (repo_of libs payload) ≡ fail value_error message
      → land libs sys self payload uuid s ≡ (fail value_error message, s)
  unfolding land admit
  wedged_land payload uuid patch message s text full named fails =
      rw text (rw (full, named, fails) refl)

module _ (libs : Libs) (sys : System) (self : PatchLander) (host : Host) (key : Bytes) {B : Backend}
    {N : Bus} (L : IsLawful B) where
  -- A URL that cannot be parsed wedges its job: for a review whose patch is a text that is not
  -- blank and whose repository makes `urlparse` raise a ValueError, a reconciliation, on any disk
  -- and whatever `save_orphan_patch` would give, raises that error, sends nothing to the bus and
  -- leaves the bucket as it is, so that every later sweep meets the same object again.
  pub unparsed_url_wedges :
      (uuid : String) (raw : Bytes) (v : B.Version) (payload : Fields) (patch message : String)
      (s : sys.State) (save : Fields → String → Option String) (w : World B (Bridge N))
      → object L w terminal uuid ≡ some (raw, v)
      → open_blob host.codec raw key (some (aad_for "terminal" uuid)) ≡ ok (obj payload)
      → get_null "status" payload ≡ str "needs-review"
      → get_null "patch" payload ≡ str patch
      → (strip patch =ₛ "") ≡ false
      → (repo_of libs payload =ₛ "") ≡ false
      → libs.urlparse (repo_of libs payload) ≡ fail value_error message
      → reconcile_one host key (lander_on libs sys self s save) uuid w
        ≡ (fail value_error message, w)
  unfolding reconcile_one as_dict
  unparsed_url_wedges uuid raw v payload patch message s save w stands opens status text full named
        fails =
      rw (get_terminal_reads L uuid w, stands, opens, status)
        (rw
          (report_raises host.codec (lander_on libs sys self s save) payload uuid message w.rest
            status (ap truthy text ∙ patch_truthy patch full)
            (ap (λ x. x.0)
              (wedged_land libs sys self payload uuid patch message s text full named fails)))
          refl)
