-- ===== src/Edits/Owners.antt =====
-- The node and the home host attach a token to the same repositories.
use worker_hive_relay.Prelude.{
  String, ◌≡◌, ◌↔◌, refl, Bool, true, false, not, ◌||◌, split_parts, lower, right_trim, Option,
  none, some, List, [], ◌∷◌, ◌=ₛ◌, if◌then◌else◌, strip, arith,
}
use worker_hive_relay.Env.{env_of}
use worker_hive_relay.Exec.{Error, Result, ok, err}
use worker_hive_relay.Git.{
  segments, default_owners, Libs, Parsed, is_set, is_member, bare_host, host_credentials,
  nonempty_parts, owner_listed, owner_allowed, for_owner, on_host, credentials_on, credentials_for,
}
use worker_hive_relay.Edits.Credentials.{
  or_blank, path_segments, clone_host, host_token, filled, stripped_names, fleet_owners,
  owned_credentials, path_credentials, clone_credentials, git_auth_for_url,
}

-- Two chains of guards around one answer.
same_guards :
    {A : Type 0} (https named secret : Bool) (e : Error) (x : Option A) (c : A)
    → ((if named || secret then err e else if not https then ok none else ok x) ≡ ok (some c))
      ↔ (ok (if not https || named || secret then none else x) ≡ ok (some c))
same_guards true false false e x c = (λ h. h, λ h. h)
same_guards true false true e x c = (λ h. absurd (cc h), λ h. absurd (cc h))
same_guards true true secret e x c = (λ h. absurd (cc h), λ h. absurd (cc h))
same_guards false false false e x c = (λ h. absurd (cc h), λ h. absurd (cc h))
same_guards false false true e x c = (λ h. absurd (cc h), λ h. absurd (cc h))
same_guards false true secret e x c = (λ h. absurd (cc h), λ h. absurd (cc h))

filled-nonempty_parts : (parts : List String) → filled parts ≡ nonempty_parts parts
unfolding filled nonempty_parts
filled-nonempty_parts [] = refl
filled-nonempty_parts (p ∷ ps) = ground (arith, filled-nonempty_parts ps)

is_member-stripped_names :
    (owner : String) (os : List String)
    → is_member owner (stripped_names os) ≡ owner_listed owner os
unfolding stripped_names owner_listed
is_member-stripped_names owner [] = refl
is_member-stripped_names owner (o ∷ os) = ground (arith, is_member-stripped_names owner os)

module _ (libs : Libs) where
  is_member-fleet_owners :
      (owner : String) → is_member owner (fleet_owners libs.env) ≡ owner_allowed libs.env owner
  unfolding fleet_owners owner_allowed split_parts stripped_names strip
  is_member-fleet_owners owner = go (
      env_of libs.env ("NODE_RELAY_TOKEN_OWNERS" ∷ "SPARK_TOKEN_OWNERS" ∷ []) (some default_owners))
    where
      go :
          (owners : Option String)
          → is_member owner (
              stripped_names
                ((split_parts b',' (or_blank owners)).0 ∷ (split_parts b',' (or_blank owners)).1))
            ≡ elim owners [
              | none ↦ false
              | some names ↦
                  owner_listed owner ((split_parts b',' names).0 ∷ (split_parts b',' names).1)
            ]
      go none = refl
      go (some names) =
          is_member-stripped_names owner ((split_parts b',' names).0 ∷ (split_parts b',' names).1)

  owned_credentials-for_owner :
      (segs : List String) (username token : String)
      → owned_credentials libs.env segs username token ≡ for_owner libs.env segs username token
  owned_credentials-for_owner [] username token = refl
  owned_credentials-for_owner (owner ∷ segs) username token =
      rw (is_member-fleet_owners owner)
        (negated (is_member ".." (owner ∷ segs)) (owner_allowed libs.env owner))
    where
      negated :
          (a b : Bool)
          → Path
              (Option (String × String))
              (if a then none else if not b then none else some (username, token))
              (if a then none else if b then some (username, token) else none)
      negated true b = refl
      negated false true = refl
      negated false false = refl

  path_credentials-on_host :
      (path : String) (username token : Option String)
      → path_credentials libs.env path (token, username) ≡ on_host libs.env path (username, token)
  unfolding filled nonempty_parts
  path_credentials-on_host path none none = refl
  path_credentials-on_host path none (some t) = without_name (t =ₛ "")
    where
      without_name :
          (b : Bool)
          → (if not (not b) || true
              then none
              else owned_credentials libs.env (path_segments path) "" t)
            ≡ none
      without_name true = refl
      without_name false = refl
  path_credentials-on_host path (some u) none = refl
  path_credentials-on_host path (some u) (some t) =
      rw (filled-nonempty_parts ((split_parts b'/' path).0 ∷ (split_parts b'/' path).1))
        (rw (owned_credentials-for_owner (segments path) u t) (both (t =ₛ "") (u =ₛ "")))
    where
      both :
          (a b : Bool)
          → (if not (not a) || not (not b) then none else for_owner libs.env (segments path) u t)
            ≡ (if a then none else if b then none else for_owner libs.env (segments path) u t)
      both true true = refl
      both true false = refl
      both false true = refl
      both false false = refl

  host_token-host_credentials :
      (path host : String)
      → path_credentials libs.env path (host_token libs.env host)
        ≡ on_host libs.env path (host_credentials libs.env host)
  host_token-host_credentials path host =
      go (host =ₛ "github.com") (host =ₛ "gitlab.com") (host =ₛ "codeberg.org")
        (libs.env "CODEBERG_USER")
    where
      go :
          (a b c : Bool) (user : Option String)
          → path_credentials libs.env path (
              if a
              then (libs.env "GITHUB_TOKEN", some "x-access-token")
              else if b
              then (libs.env "GITLAB_TOKEN", some "oauth2")
              else if c
              then (
                libs.env "CODEBERG_TOKEN",
                elim user [ some name ↦ some name | none ↦ some "jperlow" ],
              )
              else (none, none))
            ≡ on_host libs.env path (
                if a
                then (some "x-access-token", libs.env "GITHUB_TOKEN")
                else if b
                then (some "oauth2", libs.env "GITLAB_TOKEN")
                else if c
                then (
                  elim user [ none ↦ some "jperlow" | some name ↦ some name ],
                  libs.env "CODEBERG_TOKEN",
                )
                else (none, none))
      go true b c user =
          path_credentials-on_host path (some "x-access-token") (libs.env "GITHUB_TOKEN")
      go false true c user = path_credentials-on_host path (some "oauth2") (libs.env "GITLAB_TOKEN")
      go false false true none =
          path_credentials-on_host path (some "jperlow") (libs.env "CODEBERG_TOKEN")
      go false false true (some name) =
          path_credentials-on_host path (some name) (libs.env "CODEBERG_TOKEN")
      go false false false user = refl

  clone_host-bare_host : (url : Parsed) → clone_host url ≡ bare_host url
  unfolding lower right_trim
  clone_host-bare_host url = go url.hostname
    where
      go :
          (h : Option String)
          → lower (right_trim b'.' (elim h [ none ↦ "" | some x ↦ x ]))
            ≡ elim h [ none ↦ "" | some x ↦ lower (right_trim b'.' x) ]
      go none = refl
      go (some x) = refl

  clone_credentials-credentials_on :
      (repo_url : String) (r : Result Parsed) (c : String × String)
      → (clone_credentials libs repo_url r ≡ ok (some c))
        ↔ (credentials_on libs.env r ≡ ok (some c))
  clone_credentials-credentials_on repo_url (err e) c = (λ h. absurd (cc h), λ h. absurd (cc h))
  clone_credentials-credentials_on repo_url (ok url) c =
      rw (clone_host-bare_host url, host_token-host_credentials url.path (bare_host url))
        (same_guards (url.scheme =ₛ "https") (is_set url.username) (is_set url.password) _
          (on_host libs.env url.path (host_credentials libs.env (bare_host url))) c)

  -- Both halves of the bridge follow one policy, though each has its own copy of it: under the
  -- same environment, the executor on the node attaches a username and a token to a repository URL
  -- if and only if the lander at home attaches the same username and token to it.
  pub git_auth_for_url-credentials_for :
      (repo_url : String) (c : String × String)
      → (git_auth_for_url libs repo_url ≡ ok (some c))
        ↔ (credentials_for libs repo_url ≡ ok (some c))
  unfolding git_auth_for_url credentials_for
  git_auth_for_url-credentials_for repo_url c =
      clone_credentials-credentials_on repo_url (libs.urlparse repo_url) c
