-- ===== src/PatchLander/Refusals.antt =====
-- What `PatchLander.land` refuses.
use worker_hive_relay.Prelude.{
  String, ◌<>◌, ◌≡◌, ◌≢◌, refl, sym, ap, ◌∙◌, ◌⊎◌, inl, inr, Bool, true, false, not, ◌||◌, Option,
  none, some, ◌=ₛ◌, strip, if◌then◌else◌,
}
use worker_hive_relay.Exec.{Error, Result, ok, err, fail, continue, permanent_landing}
use worker_hive_relay.Value.{Value, null, bool, num, str, arr, obj, Fields, get_null}
use worker_hive_relay.Git.{
  redact_secrets, System, Parsed, Libs, is_set, credentials_of, credentials_on, credentials_for,
}
use worker_hive_relay.Branches.{sanitize, branch_for_job}
use worker_hive_relay.PatchLander.{
  PatchLander, Order, admit, checked_patch, order_for_patch, order_for_url, order_with,
  order_on_branch,
}
use worker_hive_relay.PatchLander.Land.{land, land_locked}
use worker_hive_relay.PatchLander.Admission.{Admitted, admit-Admitted, repo_of}

module _ (libs : Libs) (sys : System) (self : PatchLander) where
  -- Nothing is done for a payload that does not deserve it: if `land` changes anything, runs git
  -- or touches the disk, then the payload holds a patch that is not blank and a repository whose
  -- https URL carries no user and no password, the token belongs to the host of the URL, the
  -- owner that its path begins with is on the list, and the branch is that of the job.
  pub land-Admitted :
      (payload : Fields) (job_id : String) (s : sys.State)
      → (land libs sys self payload job_id s).1 ≢ s
      → (o : Order) × Admitted libs payload job_id o
  unfolding land
  land-Admitted payload job_id s changed = go (admit libs payload job_id) refl changed
    where
      go :
          (r : Result Order)
          → admit libs payload job_id ≡ r
          → (continue r s (land_locked libs sys self)).1 ≢ s
          → (o : Order) × Admitted libs payload job_id o
      go (err e) same moved = absurd (moved refl)
      go (ok o) same moved = (o, admit-Admitted libs job_id o payload same)

module _ (libs : Libs) (job_id : String) where
  -- A permanent landing error, or `urlparse`'s own.
  abbrev pub Refusal : (repo : String) → Error → Type 0
  Refusal repo e = (e.kind ≡ permanent_landing) ⊎ (libs.urlparse repo ≡ err e)

  permanent :
      {A : Type 0} (message : String) (e : Error)
      → Path (Result A) (fail permanent_landing message) (err e)
      → e.kind ≡ permanent_landing
  permanent message e h =
      let same : Path Error (record { kind = permanent_landing; message = message }) e = cc h in
      ap (λ (x : Error). x.kind) (sym same)

  branch_refusal :
      (repo patch u t : String) (e : Error)
      → order_on_branch libs patch repo u t (branch_for_job libs job_id) ≡ err e
      → e.kind ≡ permanent_landing
  unfolding branch_for_job
  branch_refusal repo patch u t e h = go (sanitize job_id =ₛ "") _ h
    where
      go :
          (b : Bool) (name : String)
          → order_on_branch libs patch repo u t
              (if b then fail permanent_landing "unusable job id" else ok name)
            ≡ err e
          → e.kind ≡ permanent_landing
      go true name h = permanent "unusable job id" e h
      go false name h = absurd (cc h)

  order_with-Refusal :
      (repo patch : String) (e : Error) (r : Result Parsed)
      → libs.urlparse repo ≡ r
      → order_with libs patch repo job_id (credentials_on libs.env r) ≡ err e
      → Refusal repo e
  order_with-Refusal repo patch e (err x) parses h =
      let same : x ≡ e = cc h in inr (parses ∙ ap err same)
  order_with-Refusal repo patch e (ok url) parses h = inl (go (credentials_of libs.env url) h)
    where
      go :
          (c : Option (String × String))
          → order_with libs patch repo job_id (ok c) ≡ err e
          → e.kind ≡ permanent_landing
      go none h = permanent _ e h
      go (some (u, t)) h = branch_refusal repo patch u t e h

  order_for_url-Refusal :
      (repo patch : String) (e : Error) (r : Result Parsed)
      → libs.urlparse repo ≡ r
      → order_for_url libs patch repo job_id r ≡ err e
      → Refusal repo e
  unfolding credentials_for
  order_for_url-Refusal repo patch e (err x) parses h =
      let same : x ≡ e = cc h in inr (parses ∙ ap err same)
  order_for_url-Refusal repo patch e (ok url) parses h =
      go (not (url.scheme =ₛ "https")) (is_set url.username || is_set url.password) h
    where
      go :
          (a b : Bool)
          → (if a
              then fail permanent_landing
                  ("non-https repo url: " <> libs.repr (redact_secrets repo))
              else if b
              then fail permanent_landing
                  ("repo url carries embedded credentials, refusing: " <> redact_secrets repo)
              else order_with libs patch repo job_id (credentials_for libs repo))
            ≡ err e
          → Refusal repo e
      go true b k = inl (permanent _ e k)
      go false true k = inl (permanent _ e k)
      go false false k =
          order_with-Refusal repo patch e (ok url) parses
            (ap (order_with libs patch repo job_id) (ap (credentials_on libs.env) (sym parses)) ∙ k)

  patch_refusal : (v : Value) (e : Error) → checked_patch v ≡ err e → e.kind ≡ permanent_landing
  patch_refusal (str s) e h = go (strip s =ₛ "") h
    where
      go :
          (b : Bool)
          → (if b then fail permanent_landing "payload has no usable patch text" else ok s) ≡ err e
          → e.kind ≡ permanent_landing
      go true k = permanent _ e k
      go false k = absurd (cc k)
  patch_refusal null e h = permanent _ e h
  patch_refusal (bool _) e h = permanent _ e h
  patch_refusal (num _) e h = permanent _ e h
  patch_refusal (arr _) e h = permanent _ e h
  patch_refusal (obj _) e h = permanent _ e h

  order_for_patch-Refusal :
      (repo : String) (e : Error) (r : Result String)
      → ((x : Error) → r ≡ err x → x.kind ≡ permanent_landing)
      → order_for_patch libs repo job_id r ≡ err e
      → Refusal repo e
  order_for_patch-Refusal repo e (err x) kinds h =
      let same : x ≡ e = cc h in inl (kinds e (ap err same))
  order_for_patch-Refusal repo e (ok patch) kinds h = go (repo =ₛ "") h
    where
      go :
          (b : Bool)
          → (if b
              then fail permanent_landing "payload has no repo url"
              else order_for_url libs patch repo job_id (libs.urlparse repo))
            ≡ err e
          → Refusal repo e
      go true k = inl (permanent _ e k)
      go false k = order_for_url-Refusal repo patch e (libs.urlparse repo) refl k

  -- No refusal is transient: an error of the checks that `land` makes before it works is a permanent
  -- landing error, or the very error that `urlparse` raises for the URL.
  pub admit_refusal :
      (payload : Fields) (e : Error)
      → admit libs payload job_id ≡ err e
      → (e.kind ≡ permanent_landing) ⊎ (libs.urlparse (repo_of libs payload) ≡ err e)
  unfolding admit
  admit_refusal payload e h =
      order_for_patch-Refusal (repo_of libs payload) e (checked_patch (get_null "patch" payload))
        (patch_refusal (get_null "patch" payload)) h
