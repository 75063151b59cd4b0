-- ===== src/PatchLander/Admission.antt =====
-- What a patch must have before `PatchLander.land` works on it.
use worker_hive_relay.Prelude.{
  String, ◌≡◌, refl, sym, ◌∙◌, ap, ap₂, Bool, true, false, not, ◌||◌, Option, none, some, List, [],
  ◌∷◌, ◌=ₛ◌, strip, if◌then◌else◌,
}
use text.Mathlib.TextEquality.{eq_iff}
use worker_hive_relay.Exec.{Error, Result, ok, err}
use worker_hive_relay.Value.{Value, null, bool, num, str, arr, obj, Fields, get_null}
use worker_hive_relay.Repos.{text_of}
use worker_hive_relay.Git.{
  Parsed, Libs, is_set, bare_host, segments, is_member, owner_allowed, host_credentials,
  credentials_of, credentials_on, on_host, credentials_for, for_owner,
}
use worker_hive_relay.Branches.{branch_for_job}
use worker_hive_relay.PatchLander.{
  Order, admit, checked_patch, order_for_patch, order_for_url, order_with, order_on_branch,
}

-- The repository of a payload.
abbrev pub repo_of : Libs → Fields → String
repo_of libs payload = strip (text_of libs.py (get_null "repo" payload))

-- A URL to which a token goes: https, no user and no password in it, one of three hosts, and a
-- path below an owner of the list, without "..".
pub record Trusted (libs : Libs) (url : Parsed) (username token : String) : Type 0 where
  pub https : url.scheme ≡ "https"
  pub anonymous : (is_set url.username ≡ false) × (is_set url.password ≡ false)
  pub known_host : host_credentials libs.env (bare_host url) ≡ (some username, some token)
  pub has_token : (token =ₛ "") ≡ false
  pub owner : String
  pub below : List String
  pub path_below : segments url.path ≡ owner ∷ below
  pub no_parent : is_member ".." (owner ∷ below) ≡ false
  pub owner_known : owner_allowed libs.env owner ≡ true

guarded :
    {A : Type 0} (a b c : Bool) (x : Option A) (y : A)
    → (if not a || b || c then none else x) ≡ some y
    → (a ≡ true) × (b ≡ false) × (c ≡ false) × (x ≡ some y)
guarded true false false x y h = (refl, refl, refl, h)
guarded true true c x y h = absurd (cc h)
guarded true false true x y h = absurd (cc h)
guarded false b c x y h = absurd (cc h)

chosen :
    {A : Type 0} (b : Bool) (x : Option A) (y : A)
    → (if b then none else x) ≡ some y
    → (b ≡ false) × (x ≡ some y)
chosen true x y h = absurd (cc h)
chosen false x y h = (refl, h)

kept :
    {A : Type 0} (b : Bool) (x y : A) → (if b then some x else none) ≡ some y → (b ≡ true) × (x ≡ y)
kept true x y h = (refl, cc h)
kept false x y h = absurd (cc h)

abbrev Owned : Libs → List String → Type 0
Owned libs parts =
    (owner : String) × (below : List String) × (parts ≡ owner ∷ below)
    × (is_member ".." (owner ∷ below) ≡ false)
    × (owner_allowed libs.env owner ≡ true)

owned :
    (libs : Libs) (parts : List String) (u t username token : String)
    → for_owner libs.env parts u t ≡ some (username, token)
    → Owned libs parts × (u ≡ username) × (t ≡ token)
owned libs [] u t username token h = absurd (cc h)
owned libs (owner ∷ below) u t username token h =
    let (plain, rest) =
      chosen (is_member ".." (owner ∷ below))
        (if owner_allowed libs.env owner then some (u, t) else none) (username, token) h in
    let (allowed, same) = kept (owner_allowed libs.env owner) (u, t) (username, token) rest in
    ((owner, below, refl, plain, allowed), ap (λ p. p.0) same, ap (λ p. p.1) same)

hosted :
    (libs : Libs) (path : String) (c : Option String × Option String) (username token : String)
    → on_host libs.env path c ≡ some (username, token)
    → (c ≡ (some username, some token)) × ((token =ₛ "") ≡ false) × Owned libs (segments path)
hosted libs path (some u, some t) username token h =
    let (full, rest) = chosen (t =ₛ "") _ (username, token) h in
    let (named, rest2) = chosen (u =ₛ "") _ (username, token) rest in
    let (o, same_user, same_token) = owned libs (segments path) u t username token rest2 in
    (ap₂ (λ x y. (some x, some y)) same_user same_token, rw (← same_token) full, o)
hosted libs path (some u, none) username token h = absurd (cc h)
hosted libs path (none, t) username token h = absurd (cc h)

credentials-Trusted :
    (libs : Libs) (url : Parsed) (username token : String)
    → credentials_of libs.env url ≡ some (username, token)
    → Trusted libs url username token
credentials-Trusted libs url username token h =
    let (https, no_user, no_password, rest) =
      guarded (url.scheme =ₛ "https") (is_set url.username) (is_set url.password) _
        (username, token) h in
    let (host, full, (owner, below, path, plain, allowed)) =
      hosted libs url.path (host_credentials libs.env (bare_host url)) username token rest in
    record {
      https = (eq_iff url.scheme "https").0 https;
      anonymous = (no_user, no_password);
      known_host = host;
      has_token = full;
      owner = owner;
      below = below;
      path_below = path;
      no_parent = plain;
      owner_known = allowed;
    }

-- An order that the checks of `land` make of a payload.
pub record Admitted (libs : Libs) (payload : Fields) (job_id : String) (o : Order) : Type 0 where
  pub patch_text : get_null "patch" payload ≡ str o.patch
  pub patch_not_blank : (strip o.patch =ₛ "") ≡ false
  pub repo_text : repo_of libs payload ≡ o.repo_url
  pub url : Parsed
  pub parsed : libs.urlparse o.repo_url ≡ ok url
  pub trusted : Trusted libs url o.username o.token
  pub named : branch_for_job libs job_id ≡ ok o.branch

passed :
    {A : Type 0} (b : Bool) (e : Error) (x : Result A) (y : A)
    → (if b then err e else x) ≡ ok y
    → (b ≡ false) × (x ≡ ok y)
passed true e x y h = absurd (cc h)
passed false e x y h = (refl, h)

patch_checked :
    (v : Value) (patch : String)
    → checked_patch v ≡ ok patch
    → (v ≡ str patch) × ((strip patch =ₛ "") ≡ false)
patch_checked (str s) patch h =
    let (full, same) = passed (strip s =ₛ "") _ (ok s) patch h in
    let same_text : s ≡ patch = cc same in (ap str same_text, rw (← same_text) full)
patch_checked null patch h = absurd (cc h)
patch_checked (bool _) patch h = absurd (cc h)
patch_checked (num _) patch h = absurd (cc h)
patch_checked (arr _) patch h = absurd (cc h)
patch_checked (obj _) patch h = absurd (cc h)

module _ (libs : Libs) (job_id : String) (o : Order) where
  branch_named :
      (patch repo u t : String) (b : Result String)
      → order_on_branch libs patch repo u t b ≡ ok o
      → (b ≡ ok o.branch)
        × (patch ≡ o.patch)
        × (repo ≡ o.repo_url)
        × (u ≡ o.username)
        × (t ≡ o.token)
  branch_named patch repo u t (err e) h = absurd (cc h)
  branch_named patch repo u t (ok b) h = (
    ap ok (ap (λ (r : Order). r.branch) same),
    ap (λ (r : Order). r.patch) same,
    ap (λ (r : Order). r.repo_url) same,
    ap (λ (r : Order). r.username) same,
    ap (λ (r : Order). r.token) same,
  )
    where
      same :
          Path Order
            (record { patch = patch; repo_url = repo; username = u; token = t; branch = b })
            o
      same = cc h

  credited :
      (patch repo : String) (c : Result (Option (String × String)))
      → order_with libs patch repo job_id c ≡ ok o
      → (u : String) × (t : String) × (c ≡ ok (some (u, t)))
        × (order_on_branch libs patch repo u t (branch_for_job libs job_id) ≡ ok o)
  credited patch repo (err e) h = absurd (cc h)
  credited patch repo (ok none) h = absurd (cc h)
  credited patch repo (ok (some (u, t))) h = (u, t, refl, h)

  parsed_url :
      (patch repo : String) (r : Result Parsed)
      → order_for_url libs patch repo job_id r ≡ ok o
      → (url : Parsed) × (r ≡ ok url)
        × (order_with libs patch repo job_id (credentials_for libs repo) ≡ ok o)
  parsed_url patch repo (err e) h = absurd (cc h)
  parsed_url patch repo (ok url) h =
      let (https, rest) = passed (not (url.scheme =ₛ "https")) _ _ o h in
      let (bare, rest2) = passed (is_set url.username || is_set url.password) _ _ o rest in
      (url, refl, rest2)

  credentials_parsed :
      (repo : String) (url : Parsed) (c : Option (String × String))
      → libs.urlparse repo ≡ ok url
      → credentials_for libs repo ≡ ok c
      → credentials_of libs.env url ≡ c
  unfolding credentials_for
  credentials_parsed repo url c parses h = cc (sym (ap (credentials_on libs.env) parses) ∙ h)

  patched :
      (repo : String) (r : Result String)
      → order_for_patch libs repo job_id r ≡ ok o
      → (patch : String) × (r ≡ ok patch)
        × (order_for_url libs patch repo job_id (libs.urlparse repo) ≡ ok o)
  patched repo (err e) h = absurd (cc h)
  patched repo (ok patch) h = let (full, rest) = passed (repo =ₛ "") _ _ o h in (patch, refl, rest)

  pub admit-Admitted :
      (payload : Fields) → admit libs payload job_id ≡ ok o → Admitted libs payload job_id o
  unfolding admit
  admit-Admitted payload h =
      let repo = repo_of libs payload in
      let (patch, checked, rest) = patched repo (checked_patch (get_null "patch" payload)) h in
      let (url, parses, rest2) = parsed_url patch repo (libs.urlparse repo) rest in
      let (u, t, credentials, rest3) = credited patch repo (credentials_for libs repo) rest2 in
      let (named, same_patch, same_repo, same_user, same_token) =
        branch_named patch repo u t (branch_for_job libs job_id) rest3 in
      let (text, blank) = patch_checked (get_null "patch" payload) patch checked in
      record {
        patch_text = text ∙ ap str same_patch;
        patch_not_blank = rw (← same_patch) blank;
        repo_text = same_repo;
        url = url;
        parsed = rw (← same_repo) parses;
        trusted = rw (← same_user) (
            rw (← same_token) (
              credentials-Trusted libs url u t
                (credentials_parsed repo url (some (u, t)) parses credentials)));
        named = named;
      }
