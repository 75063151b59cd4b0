-- ===== src/PatchLander.antt =====
-- node_relay/lander.py: `PatchLander`, which pushes the patch of a job as a review branch.
pub mod Cache
pub mod Land
pub mod Admission
pub mod Refusals
pub mod Wedged
pub mod Answers
pub mod Listing
pub mod Commands
pub mod CachePlan
pub mod LandPlan
pub mod Outcome
use worker_hive_relay.Prelude.{
  ℕ, ◌+◌, ◌-◌, ◌*◌, String, ◌<>◌, Bool, true, false, not, ◌&&◌, ◌||◌, Option, none, some, List, [],
  ◌∷◌, ltb, leb, ◌==◌, ◌=ₛ◌, str_lt, if◌then◌else◌, strip, ends_with, split_once,
}
use worker_hive_relay.Env.{Env, env_of}
use worker_hive_relay.Exec.{
  Result, ok, err, fail, Exec, pure, lift, raise, gets, attempt, ◌>>=◌, ◌>>◌, permanent_landing,
  value_error,
}
use worker_hive_relay.Value.{
  ℤ, pos, negsuc, Value, null, bool, num, str, arr, obj, Fields, empty, field, get_null, truthy,
}
use worker_hive_relay.Repos.{text_of}
use worker_hive_relay.Git.{
  Command, Completed, System, Parsed, Libs, is_set, redact_secrets, credentials_for,
  classify_git_failure, failure_text, git_env, run_git, check_exit, git,
}
use worker_hive_relay.Branches.{branch_for_job, sanitize, repo_cache_name, lock_name, tmp_name}

-- The attributes that `__init__` sets.
pub record PatchLander : Type 0 where
  pub cache_dir : String
  pub orphan_dir : String
  pub askpass : String
  pub git_timeout : ℕ
  pub cache_max_bytes : ℕ

-- What `land` works with after its checks.
pub record Order : Type 0 where
  pub patch : String
  pub repo_url : String
  pub username : String
  pub token : String
  pub branch : String

-- `dir / name`
abbrev pub child : String → String → String
child dir name = dir <> ("/" <> name)

-- `_ASKPASS_SCRIPT`, line by line.
abbrev pub askpass_script : String
askpass_script =
    "#!/bin/sh\n"
    <> ("# node_relay lander GIT_ASKPASS helper: answers git's username/password\n"
        <> ("# prompts from process-private env vars so tokens never appear in argv.\n"
            <> ("case \"$1\" in\n"
                <> ("  Username*) printf '%s' \"$LANDER_GIT_USERNAME\" ;;\n"
                    <> ("  Password*) printf '%s' \"$LANDER_GIT_PASSWORD\" ;;\n" <> "esac\n")))))

-- A clone that may be evicted.
pub record Candidate : Type 0 where
  pub mtime : ℕ
  pub size : ℕ
  pub name : String

-- The order of the tuples (mtime, size, path).
abbrev pub older : Candidate → Candidate → Bool
older a b =
    if a.mtime == b.mtime
    then (if a.size == b.size then str_lt a.name b.name else ltb a.size b.size)
    else ltb a.mtime b.mtime

unfoldable pub insert_candidate : Candidate → List Candidate → List Candidate
insert_candidate c [] = c ∷ []
insert_candidate c (d ∷ ds) =
    let rest = insert_candidate c ds in if older d c then d ∷ rest else c ∷ (d ∷ ds)

-- `sorted(candidates)`
unfoldable pub sort_candidates : List Candidate → List Candidate
unfolding insert_candidate
sort_candidates [] = []
sort_candidates (c ∷ cs) = insert_candidate c (sort_candidates cs)

unfoldable pub total_size : List Candidate → ℕ
total_size [] = 0
total_size (c ∷ cs) = c.size + total_size cs

abbrev pub with_newline : String → String
with_newline text = if ends_with text "\n" then text else text <> "\n"

-- `payload.get("patch")`, if it is a text that is not blank.
abbrev pub checked_patch : Value → Result String
checked_patch (str patch) =
    if strip patch =ₛ ""
    then fail permanent_landing "payload has no usable patch text"
    else ok patch
checked_patch null = fail permanent_landing "payload has no usable patch text"
checked_patch (bool _) = fail permanent_landing "payload has no usable patch text"
checked_patch (num _) = fail permanent_landing "payload has no usable patch text"
checked_patch (arr _) = fail permanent_landing "payload has no usable patch text"
checked_patch (obj _) = fail permanent_landing "payload has no usable patch text"

-- The checks of `land` before it takes the lock, in their order.
module _ (libs : Libs) where
  abbrev pub order_on_branch :
      (patch repo_url username token : String) → Result String → Result Order
  order_on_branch patch repo_url username token (err e) = err e
  order_on_branch patch repo_url username token (ok branch) = ok (record {
    patch = patch;
    repo_url = repo_url;
    username = username;
    token = token;
    branch = branch;
  })

  abbrev pub order_with :
      (patch repo_url job_id : String) → Result (Option (String × String)) → Result Order
  order_with patch repo_url job_id (err e) = err e
  order_with patch repo_url job_id (ok none) = fail permanent_landing (
      "no push credentials for "
      <> (redact_secrets repo_url <> " (owner not allowlisted or token unset)"))
  order_with patch repo_url job_id (ok (some (username, token))) =
      order_on_branch patch repo_url username token (branch_for_job libs job_id)

  abbrev pub order_for_url : (patch repo_url job_id : String) → Result Parsed → Result Order
  order_for_url patch repo_url job_id (err e) = err e
  order_for_url patch repo_url job_id (ok parsed) =
      if not (parsed.scheme =ₛ "https")
      then fail permanent_landing ("non-https repo url: " <> libs.repr (redact_secrets repo_url))
      else if is_set parsed.username || is_set parsed.password
      then fail permanent_landing
          ("repo url carries embedded credentials, refusing: " <> redact_secrets repo_url)
      else order_with patch repo_url job_id (credentials_for libs repo_url)

  abbrev pub order_for_patch : (repo_url job_id : String) → Result String → Result Order
  order_for_patch repo_url job_id (err e) = err e
  order_for_patch repo_url job_id (ok patch) =
      if repo_url =ₛ ""
      then fail permanent_landing "payload has no repo url"
      else order_for_url patch repo_url job_id (libs.urlparse repo_url)

  unfoldable pub admit : Fields → (job_id : String) → Result Order
  admit payload job_id =
      order_for_patch (strip (text_of libs.py (get_null "repo" payload))) job_id
        (checked_patch (get_null "patch" payload))

module _ (libs : Libs) (sys : System) where
  abbrev seconds : ℕ → String
  seconds n = libs.py.show (num n)

  -- `int(...)` on NODE_RELAY_LANDER_CACHE_MAX_BYTES, and the test behind it.
  abbrev pub positive_size : Result ℤ → Result ℕ
  positive_size (err e) = err e
  positive_size (ok (negsuc _)) =
      fail value_error "NODE_RELAY_LANDER_CACHE_MAX_BYTES must be positive"
  positive_size (ok (pos n)) =
      if n == 0 then fail value_error "NODE_RELAY_LANDER_CACHE_MAX_BYTES must be positive" else ok n

  abbrev pub or_text : Option String → String → String
  or_text none default = default
  or_text (some s) default = s

  -- `PatchLander(cache_dir)`; the default size is 50 * 1024**3.
  unfoldable pub new_lander : Option String → Exec sys.State PatchLander
  unfolding env_of
  new_lander cache_dir = do
    let given =
        if is_set cache_dir
        then cache_dir
        else env_of libs.env ("NODE_RELAY_LANDER_CACHE" ∷ "SPARK_LANDER_CACHE" ∷ []) none
    let dir = or_text given (child (child libs.home ".cache") "mnemos-node-relay-lander")
    sys.mkdir dir
    sys.chmod dir 0o700
    sys.mkdir (child dir "orphans")
    sys.chmod (child dir "orphans") 0o700
    timeout ← lift (
        libs.parse_float (
          or_text
            (env_of libs.env ("NODE_RELAY_LANDER_GIT_TIMEOUT" ∷ "SPARK_LANDER_GIT_TIMEOUT" ∷ [])
              none)
            "300"))
    cap ← lift (
        positive_size (
          libs.parse_int (
            or_text (env_of libs.env ("NODE_RELAY_LANDER_CACHE_MAX_BYTES" ∷ []) none)
              "53687091200")))
    sys.write_text (child dir "askpass.sh") askpass_script
    sys.chmod (child dir "askpass.sh") 0o700
    pure (record {
      cache_dir = dir;
      orphan_dir = child dir "orphans";
      askpass = child dir "askpass.sh";
      git_timeout = timeout;
      cache_max_bytes = cap;
    })
