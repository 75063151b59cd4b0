-- ===== src/Git.antt =====
-- What node_relay/lander.py asks of git and of the disk; both are parameters.
-- The secrets that it attaches to git commands, and how it reads git's failures.
pub mod Recorded
use worker_hive_relay.Prelude.{
  ℕ, ◌+◌, ◌-◌, suc, zero, String, ◌<>◌, Bool, false, not, ◌&&◌, ◌||◌, Option, none, some, List, [],
  ◌∷◌, Bytes, ◌==◌, ◌=ₛ◌, if◌then◌else◌, starts_with, strip, lower, len, split_parts, contains_text,
  last_chars, join_words, right_trim,
}
use Prim.Native.Char.{Char, code}
use Prim.Native.String.{slice}
use worker_hive_relay.Env.{Env, env_of}
use worker_hive_relay.Exec.{
  Kind, Result, ok, err, Exec, pure, raise, ◌>>=◌, transient_landing, permanent_landing,
}
use worker_hive_relay.Repos.{Python}
use worker_hive_relay.Value.{ℤ}

-- One call of `subprocess.run`: `args` stands behind "git", and `env` is what is set over the
-- environment of the process.
pub record Command : Type 0 where
  pub cwd : Option String
  pub args : List String
  pub env : Option (List (String × String))
  pub timeout : ℕ

-- CompletedProcess; the code tells only 0 from the other return codes.
pub record Completed : Type 0 where
  pub returncode : ℕ
  pub stdout : String
  pub stderr : String

-- Git, and the file system of the home host. `run` gives `none` for a TimeoutExpired, and may
-- raise any other exception of `subprocess.run`, which is of the kind `other`; `rmtree`
-- ignores its errors; `iterdir` gives names; the size of a file is `none` where the file is gone;
-- `write_private` gives false for an OSError; `try_lock` gives false for a BlockingIOError.
pub record System : Type 1 where
  pub State : Type 0
  pub run : Command → Exec State (Option Completed)
  pub is_dir : String → State → Bool
  pub exists : String → State → Bool
  pub iterdir : String → Exec State (List String)
  pub walk : String → Exec State (List String)
  pub file_size : String → Exec State (Option ℕ)
  pub mtime : String → Exec State ℕ
  pub rmtree : String → Exec State (Unit {0})
  pub rename : String → String → Exec State (Unit {0})
  pub utime : String → Exec State (Unit {0})
  pub unlink_missing_ok : String → Exec State (Unit {0})
  pub unlink : String → Exec State (Unit {0})
  pub write_temp : String → Exec State String
  pub write_private : String → String → Exec State Bool
  pub lock : String → Exec State (Unit {0})
  pub try_lock : String → Exec State Bool
  pub unlock : String → Exec State (Unit {0})
  pub mkdir : String → Exec State (Unit {0})
  pub chmod : String → ℕ → Exec State (Unit {0})
  pub write_text : String → String → Exec State (Unit {0})

-- `urllib.parse.urlparse`.
pub record Parsed : Type 0 where
  pub scheme : String
  pub username : Option String
  pub password : Option String
  pub hostname : Option String
  pub path : String

-- What the module takes from the process and from the standard library: the environment, `str` on
-- values, `repr`, `urlparse`, `sha256(b).hexdigest()`, `Path.home()`, and `int` and `float` on texts
-- (a float in whole seconds).
pub record Libs : Type 0 where
  pub env : Env
  pub py : Python
  pub repr : String → String
  pub urlparse : String → Result Parsed
  pub sha256_hex : Bytes → String
  pub home : String
  pub parse_int : String → Result ℤ
  pub parse_float : String → Result ℕ

-- An optional text that is neither None nor empty.
abbrev pub is_set : Option String → Bool
is_set none = false
is_set (some s) = not (s =ₛ "")

-- The characters of `[^/@\s]+` before an "@", if the text goes on so; the character class `\s` is
-- that of `strip`.
abbrev is_blank : Char → Bool
is_blank c = strip (String.◌∷◌ c String.[]) =ₛ ""

unfoldable pub userinfo_len : String → Option ℕ
userinfo_len String.[] = none
userinfo_len (String.◌∷◌ c s) =
    let rest = userinfo_len s in
    if code c == b'@'
    then some 0
    else if code c == b'/' || is_blank c
    then none
    else elim rest [ none ↦ none | some n ↦ some (suc n) ]

-- The scheme at the beginning of a text, and the length of the user information behind it.
abbrev after_scheme : String → Option ℕ → Option (String × ℕ)
after_scheme scheme none = none
after_scheme scheme (some zero) = none
after_scheme scheme (some (suc n)) = some (scheme, suc n)

unfoldable pub credentials_at : String → Option (String × ℕ)
unfolding userinfo_len
credentials_at s =
    if starts_with s "https://"
    then after_scheme "https://" (userinfo_len (slice s 8 (len s)))
    else if starts_with s "http://"
    then after_scheme "http://" (userinfo_len (slice s 7 (len s)))
    else none

-- `re.sub(r"(https?://)[^/@\s]+@", r"\1***@", text)`, past the first `skip` characters.
unfoldable pub redact_from : (skip : ℕ) → String → String
unfolding credentials_at
redact_from skip String.[] = ""
redact_from (suc n) (String.◌∷◌ c s) = redact_from n s
redact_from zero (String.◌∷◌ c s) = elim (credentials_at (String.◌∷◌ c s)) [
  | none ↦ String.◌∷◌ c (redact_from 0 s)
  | some (scheme, n) ↦ scheme <> ("***@" <> redact_from (len scheme + n) s)
]

-- `_redact_secrets(text)`
unfoldable pub redact_secrets : String → String
unfolding redact_from
redact_secrets text = redact_from 0 text

-- `_credentials_for`: the (username, token) of a host.
abbrev pub host_credentials : Env → String → Option String × Option String
host_credentials env host =
    if host =ₛ "github.com"
    then (some "x-access-token", env "GITHUB_TOKEN")
    else if host =ₛ "gitlab.com"
    then (some "oauth2", env "GITLAB_TOKEN")
    else if host =ₛ "codeberg.org"
    then (
      elim (env "CODEBERG_USER") [ none ↦ some "jperlow" | some user ↦ some user ],
      env "CODEBERG_TOKEN",
    )
    else (none, none)

-- `[seg for seg in path.split("/") if seg]`
unfoldable pub nonempty_parts : List String → List String
nonempty_parts [] = []
nonempty_parts (p ∷ ps) = let rest = nonempty_parts ps in if p =ₛ "" then rest else p ∷ rest

abbrev pub segments : String → List String
segments path = let (part, parts) = split_parts b'/' path in nonempty_parts (part ∷ parts)

abbrev pub is_member : String → List String → Bool
is_member s [] = false
is_member s (t ∷ ts) = (s =ₛ t) || is_member s ts

-- `owner in {o.strip() for o in ... if o.strip()}`
unfoldable pub owner_listed : String → List String → Bool
owner_listed owner [] = false
owner_listed owner (o ∷ os) = (not (strip o =ₛ "") && (owner =ₛ strip o)) || owner_listed owner os

abbrev pub default_owners : String
default_owners = "perlowja,jperlow,nclawzero,ncz-os,mnemos-os,argonautsystems"

unfoldable pub owner_allowed : Env → String → Bool
unfolding split_parts owner_listed env_of
owner_allowed env owner =
    let names = "NODE_RELAY_TOKEN_OWNERS" ∷ "SPARK_TOKEN_OWNERS" ∷ [] in
    elim (env_of env names (some default_owners)) [
      | none ↦ false
      | some owners ↦
          let (part, parts) = split_parts b',' owners in owner_listed owner (part ∷ parts)
    ]

abbrev pub for_owner : Env → List String → (username token : String) → Option (String × String)
for_owner env [] username token = none
for_owner env (owner ∷ rest) username token =
    if is_member ".." (owner ∷ rest)
    then none
    else if owner_allowed env owner
    then some (username, token)
    else none

abbrev pub on_host : Env → String → Option String × Option String → Option (String × String)
on_host env path (some username, some token) =
    if token =ₛ ""
    then none
    else if username =ₛ ""
    then none
    else for_owner env (segments path) username token
on_host env path (some username, none) = none
on_host env path (none, token) = none

-- The host name without its case and its last dots.
abbrev pub bare_host : Parsed → String
bare_host parsed = elim parsed.hostname [ none ↦ "" | some h ↦ lower (right_trim b'.' h) ]

abbrev pub credentials_of : Env → Parsed → Option (String × String)
credentials_of env parsed =
    if not (parsed.scheme =ₛ "https") || is_set parsed.username || is_set parsed.password
    then none
    else on_host env parsed.path (host_credentials env (bare_host parsed))

abbrev pub credentials_on : Env → Result Parsed → Result (Option (String × String))
credentials_on env (err e) = err e
credentials_on env (ok parsed) = ok (credentials_of env parsed)

-- `_credentials_for(repo_url)`
unfoldable pub credentials_for : Libs → String → Result (Option (String × String))
unfolding nonempty_parts split_parts owner_allowed
credentials_for libs repo_url = credentials_on libs.env (libs.urlparse repo_url)

-- _PERMANENT_GIT_MARKERS
abbrev pub permanent_git_markers : List String
permanent_git_markers =
    "authentication failed" ∷ "permission denied" ∷ "permission to" ∷ "repository not found"
    ∷ "could not read username" ∷ "could not read password" ∷ "invalid credentials" ∷ "error: 401"
    ∷ "returned error: 401" ∷ "error: 403" ∷ "returned error: 403" ∷ "error: 404"
    ∷ "returned error: 404" ∷ []

-- _TRANSIENT_GIT_MARKERS
abbrev pub transient_git_markers : List String
transient_git_markers =
    "could not resolve host" ∷ "couldn't connect" ∷ "connection timed out" ∷ "connection refused"
    ∷ "connection reset" ∷ "operation timed out" ∷ "early eof" ∷ "rpc failed" ∷ "503" ∷ "502"
    ∷ "500" ∷ "the remote end hung up" ∷ "index.lock" ∷ []

-- `any(m in low for m in markers)`
unfoldable pub any_marker : List String → String → Bool
unfolding contains_text
any_marker [] low = false
any_marker (m ∷ ms) low = contains_text m low || any_marker ms low

-- `_classify_git_failure(stderr)`
unfoldable pub classify_git_failure : String → Kind
unfolding any_marker
classify_git_failure stderr =
    if any_marker permanent_git_markers (lower stderr)
    then permanent_landing
    else if any_marker transient_git_markers (lower stderr)
    then transient_landing
    else permanent_landing

-- `_redact_secrets((proc.stderr or proc.stdout).strip()[-400:])`
unfoldable pub failure_text : Completed → String
unfolding redact_secrets last_chars
failure_text proc =
    let text = strip (if proc.stderr =ₛ "" then proc.stdout else proc.stderr) in
    redact_secrets (last_chars 400 text)

-- `_git_env(username, token)`, without the environment of the process.
abbrev pub git_env : (askpass username token : String) → List (String × String)
git_env askpass username token =
    ("GIT_ASKPASS", askpass)
    ∷ ("GIT_TERMINAL_PROMPT", "0")
    ∷ ("LANDER_GIT_USERNAME", username)
    ∷ ("LANDER_GIT_PASSWORD", token)
    ∷ ("GIT_CONFIG_COUNT", "1")
    ∷ ("GIT_CONFIG_KEY_0", "credential.helper")
    ∷ ("GIT_CONFIG_VALUE_0", "")
    ∷ []

module _ (sys : System) where
  -- `subprocess.run(...)` under `except subprocess.TimeoutExpired: raise TransientLandingError`.
  abbrev pub completed : String → Result (Option Completed) → Result Completed
  completed message (err e) = err e
  completed message (ok none) = err (record { kind = transient_landing; message = message })
  completed message (ok (some proc)) = ok proc

  unfoldable pub run_git : Command → String → Exec sys.State Completed
  run_git c message s = let (r, t) = sys.run c s in (completed message r, t)

  -- `if proc.returncode != 0: raise _classify_git_failure(err)(...)`
  abbrev pub check_exit : String → Completed → Exec sys.State Completed
  check_exit what proc =
      if proc.returncode == 0
      then pure proc
      else raise (classify_git_failure (failure_text proc))
          (what <> (" failed: " <> failure_text proc))

  abbrev pub first_word : List String → String
  first_word [] = ""
  first_word (w ∷ ws) = w

  -- `_git(cwd, args, env=env, check=check)`; `seconds` is the timeout as the message shows it.
  unfoldable pub git :
      (timeout : ℕ) (seconds cwd : String)
      → List String
      → Option (List (String × String))
      → (check : Bool) → Exec sys.State Completed
  unfolding run_git classify_git_failure failure_text
  git timeout seconds cwd args env check = do
    proc ←
        run_git (record { cwd = some cwd; args = args; env = env; timeout = timeout })
          ("git " <> (first_word args <> (" timed out after " <> (seconds <> "s"))))
    if check then check_exit ("git " <> join_words args) proc else pure proc
