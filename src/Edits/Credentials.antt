-- ===== src/Edits/Credentials.antt =====
-- node_relay/node_poller.py: `AgenticRepoExecutor._git_auth_for_url`, the credentials for the clone.
-- It is the node's own copy of the policy that node_relay/lander.py has in `_credentials_for`.
use worker_hive_relay.Prelude.{
  String, ◌<>◌, not, ◌||◌, Option, none, some, List, [], ◌∷◌, ◌=ₛ◌, if◌then◌else◌, strip, lower,
  split_parts, right_trim,
}
use worker_hive_relay.Env.{Env, env_of}
use worker_hive_relay.Exec.{Result, ok, err, fail, runtime_error}
use worker_hive_relay.Git.{Libs, Parsed, is_set, is_member, redact_secrets}

-- `(parsed.hostname or "").rstrip(".").lower()`
abbrev pub clone_host : Parsed → String
clone_host parsed = lower (right_trim b'.' (elim parsed.hostname [ none ↦ "" | some h ↦ h ]))

-- The (token, username) of a host.
abbrev pub host_token : Env → String → Option String × Option String
host_token env host =
    if host =ₛ "github.com"
    then (env "GITHUB_TOKEN", some "x-access-token")
    else if host =ₛ "gitlab.com"
    then (env "GITLAB_TOKEN", some "oauth2")
    else if host =ₛ "codeberg.org"
    then (
      env "CODEBERG_TOKEN",
      elim (env "CODEBERG_USER") [ some user ↦ some user | none ↦ some "jperlow" ],
    )
    else (none, none)

-- `[seg for seg in parsed.path.split("/") if seg]`
unfoldable pub filled : List String → List String
filled [] = []
filled (seg ∷ segs) = let rest = filled segs in if not (seg =ₛ "") then seg ∷ rest else rest

abbrev pub path_segments : String → List String
path_segments path = let (seg, segs) = split_parts b'/' path in filled (seg ∷ segs)

-- `{o.strip() for o in owners if o.strip()}`
unfoldable pub stripped_names : List String → List String
stripped_names [] = []
stripped_names (o ∷ os) =
    let rest = stripped_names os in if not (strip o =ₛ "") then strip o ∷ rest else rest

-- `(_env(...) or "").split(",")` for the owners.
abbrev pub or_blank : Option String → String
or_blank none = ""
or_blank (some s) = s

unfoldable pub fleet_owners : Env → List String
unfolding stripped_names split_parts env_of
fleet_owners env =
    let (owner, owners) = split_parts b',' (
      or_blank (
        env_of env ("NODE_RELAY_TOKEN_OWNERS" ∷ "SPARK_TOKEN_OWNERS" ∷ [])
          (some "perlowja,jperlow,nclawzero,ncz-os,mnemos-os,argonautsystems"))) in
    stripped_names (owner ∷ owners)

-- The tests on the path and its owner.
abbrev pub owned_credentials :
    Env → (segs : List String) → (username token : String) → Option (String × String)
owned_credentials env [] username token = none
owned_credentials env (owner ∷ segs) username token =
    if is_member ".." (owner ∷ segs)
    then none
    else if not (is_member owner (fleet_owners env))
    then none
    else some (username, token)

abbrev pub path_credentials :
    Env → (path : String) → Option String × Option String → Option (String × String)
path_credentials env path (token, username) =
    if not (is_set token) || not (is_set username)
    then none
    else owned_credentials env (path_segments path) (or_blank username) (or_blank token)

-- The credentials that the clone's environment gets, none for no environment.
abbrev pub clone_credentials : Libs → String → Result Parsed → Result (Option (String × String))
clone_credentials libs repo_url (err e) = err e
clone_credentials libs repo_url (ok parsed) =
    if is_set parsed.username || is_set parsed.password
    then fail runtime_error
        ("repo url carries embedded credentials, refusing: " <> redact_secrets repo_url)
    else if not (parsed.scheme =ₛ "https")
    then ok none
    else ok (path_credentials libs.env parsed.path (host_token libs.env (clone_host parsed)))

unfoldable pub git_auth_for_url : Libs → String → Result (Option (String × String))
unfolding redact_secrets filled fleet_owners
git_auth_for_url libs repo_url = clone_credentials libs repo_url (libs.urlparse repo_url)
