-- ===== src/PatchLander/Land.antt =====
-- node_relay/lander.py: `PatchLander.land` and `PatchLander.save_orphan_patch`.
use worker_hive_relay.Prelude.{
  String, ◌<>◌, true, false, not, Option, none, some, List, [], ◌∷◌, ◌==◌, ◌=ₛ◌, if◌then◌else◌,
  strip, split_once,
}
use worker_hive_relay.Env.{env_of}
use worker_hive_relay.Exec.{Exec, pure, lift, raise, attempt, ◌>>=◌, ◌>>◌, permanent_landing}
use worker_hive_relay.Value.{str, Fields, empty, field, get_null, truthy}
use worker_hive_relay.Repos.{text_of}
use worker_hive_relay.Git.{
  Command, Completed, System, Libs, is_set, classify_git_failure, failure_text, git_env, run_git,
  check_exit, git,
}
use worker_hive_relay.Branches.{sanitize, repo_cache_name, lock_name}
use worker_hive_relay.PatchLander.{PatchLander, Order, child, with_newline, or_text, admit}
use worker_hive_relay.PatchLander.Cache.{seconds, git_in, ensure_clone, default_branch}

module _ (libs : Libs) (sys : System) (self : PatchLander) where
  -- `line.split("\t", 1)[0] if line else None`
  abbrev pub listed_sha : String → Option String
  listed_sha line = if line =ₛ "" then none else some (split_once b'\t' line).0

  abbrev pub order_env : Order → List (String × String)
  order_env o = git_env self.askpass o.username o.token

  abbrev pub ls_remote_command : Order → Command
  ls_remote_command o = record {
    cwd = none;
    args = "ls-remote" ∷ o.repo_url ∷ ("refs/heads/" <> o.branch) ∷ [];
    env = some (order_env o);
    timeout = self.git_timeout;
  }

  -- `_ls_remote_branch(repo_url, branch, env)`
  unfoldable pub ls_remote_branch : Order → Exec sys.State (Option String)
  unfolding run_git split_once classify_git_failure failure_text
  ls_remote_branch o = do
    proc ←
        run_git sys (ls_remote_command o)
          ("ls-remote timed out after " <> (seconds libs sys self self.git_timeout <> "s"))
    done ← check_exit sys "ls-remote" proc
    pure (listed_sha (strip done.stdout))

  abbrev pub landed : Order → (sha : String) → Fields
  landed o sha =
      field "landed_branch" (str o.branch)
        (field "landed_repo" (str o.repo_url) (field "landed_sha" (str sha) empty))

  -- A clone with the committer's name and a clean checkout of `origin/<default>`, whatever an
  -- earlier landing left in it; it gives the default branch.
  unfoldable pub pristine_clone : Order → (name : String) → Exec sys.State String
  unfolding ensure_clone default_branch git env_of
  pristine_clone o name = do
    let here = git_in libs sys self name
    let env = libs.env
    ensure_clone libs sys self o.repo_url name (order_env o)
    here
        ("config"
          ∷ "user.name"
          ∷ or_text libs sys
              (env_of env ("NODE_RELAY_GIT_USER_NAME" ∷ "SPARK_GIT_USER_NAME" ∷ []) none)
              "Node Relay Lander"
          ∷ [])
        none true
    here
        ("config"
          ∷ "user.email"
          ∷ or_text libs sys
              (env_of env ("NODE_RELAY_GIT_USER_EMAIL" ∷ "SPARK_GIT_USER_EMAIL" ∷ []) none)
              "node-relay@localhost"
          ∷ [])
        none true
    default ← default_branch libs sys self name
    sys.unlink_missing_ok (child (child self.cache_dir name) ".git/index.lock")
    here ("am" ∷ "--abort" ∷ []) none false
    here ("checkout" ∷ "-q" ∷ "--detach" ∷ ("origin/" <> default) ∷ []) none true
    here ("reset" ∷ "--hard" ∷ ("origin/" <> default) ∷ []) none false
    here ("clean" ∷ "-fdq" ∷ []) none false
    pure default

  abbrev pub after_am : (name default : String) → Completed → Exec sys.State (Unit {0})
  after_am name default proc = if proc.returncode == 0 then pure tt else do
    git_in libs sys self name ("am" ∷ "--abort" ∷ []) none false
    raise permanent_landing
        ("patch does not apply onto origin/" <> (default <> (": " <> failure_text proc)))

  -- `git am -3` on a temporary file, which is removed in any case.
  unfoldable pub apply_patch : Order → (name default : String) → Exec sys.State (Unit {0})
  unfolding git failure_text
  apply_patch o name default = do
    file ← sys.write_temp (with_newline o.patch)
    applied ← attempt (do
      proc ← git_in libs sys self name ("am" ∷ "-3" ∷ file ∷ []) none false
      after_am name default proc)
    sys.unlink file
    lift applied

  abbrev pub after_race : Order → Completed → Option String → Exec sys.State Fields
  after_race o push raced =
      if is_set raced
      then pure (landed o (or_text libs sys raced ""))
      else raise (classify_git_failure (failure_text push))
          ("push of " <> (o.branch <> (" failed: " <> failure_text push)))

  abbrev pub after_push : Order → (sha : String) → Completed → Exec sys.State Fields
  after_push o sha push =
      if push.returncode == 0
      then pure (landed o sha)
      else do raced ← ls_remote_branch o; after_race o push raced

  -- The push, and the look at the remote branch if it fails.
  unfoldable pub push_branch : Order → (name : String) → Exec sys.State Fields
  unfolding git classify_git_failure failure_text
  push_branch o name = do
    head ← git_in libs sys self name ("rev-parse" ∷ "HEAD" ∷ []) none true
    push ←
        git_in libs sys self name ("push" ∷ "origin" ∷ ("HEAD:refs/heads/" <> o.branch) ∷ [])
          (some (order_env o)) false
    after_push o (strip head.stdout) push

  unfoldable pub land_anew : Order → (name : String) → Exec sys.State Fields
  unfolding pristine_clone apply_patch push_branch
  land_anew o name = do
    default ← pristine_clone o name
    apply_patch o name default
    push_branch o name

  abbrev pub on_existing : Order → (name : String) → Option String → Exec sys.State Fields
  on_existing o name existing =
      if is_set existing then pure (landed o (or_text libs sys existing "")) else land_anew o name

  -- What `land` does under the lock.
  unfoldable pub land_order : Order → (name : String) → Exec sys.State Fields
  unfolding ls_remote_branch land_anew
  land_order o name = do existing ← ls_remote_branch o; on_existing o name existing

  -- `with self._repo_lock(repo_url):`
  unfoldable pub land_locked : Order → Exec sys.State Fields
  unfolding land_order repo_cache_name lock_name
  land_locked o = do
    name ← lift (repo_cache_name libs o.repo_url)
    sys.lock (child self.cache_dir (lock_name name))
    outcome ← attempt (land_order o name)
    sys.unlock (child self.cache_dir (lock_name name))
    lift outcome

  -- `land(payload, job_id)`
  unfoldable pub land : Fields → (job_id : String) → Exec sys.State Fields
  unfolding admit land_locked
  land payload job_id = do o ← lift (admit libs payload job_id); land_locked o

  abbrev pub orphan_name : (job_id : String) → String
  orphan_name job_id = (if sanitize job_id =ₛ "" then "unknown" else sanitize job_id) <> ".patch"

  -- `save_orphan_patch(payload, job_id)`: the path, or none.
  unfoldable pub save_orphan_patch : Fields → (job_id : String) → Exec sys.State (Option String)
  unfolding sanitize
  save_orphan_patch payload job_id =
      let patch = get_null "patch" payload in
      let path = child self.orphan_dir (orphan_name job_id) in
      if not (truthy patch) then pure none else do
        written ← sys.write_private path (with_newline (text_of libs.py patch))
        pure (if written then some path else none)
