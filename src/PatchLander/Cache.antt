-- ===== src/PatchLander/Cache.antt =====
-- node_relay/lander.py: the clones that `PatchLander` keeps, `_ensure_clone` and `_prune_cache`.
use worker_hive_relay.Prelude.{
  ℕ, ◌+◌, ◌-◌, ◌*◌, String, ◌<>◌, Bool, true, false, not, ◌&&◌, Option, none, some, List, [], ◌∷◌,
  leb, ◌==◌, ◌=ₛ◌, if◌then◌else◌, strip, split_once,
}
use worker_hive_relay.Exec.{
  Kind, Result, ok, err, Exec, pure, lift, raise, gets, attempt, ◌>>=◌, ◌>>◌, permanent_landing,
  transient_landing,
}
use worker_hive_relay.Value.{num}
use worker_hive_relay.Git.{
  Completed, System, Libs, classify_git_failure, failure_text, run_git, check_exit, git,
}
use worker_hive_relay.Branches.{lock_name, tmp_name}
use worker_hive_relay.PatchLander.{PatchLander, Candidate, child, sort_candidates, total_size}

module _ (libs : Libs) (sys : System) (self : PatchLander) where
  abbrev pub seconds : ℕ → String
  seconds n = libs.py.show (num n)

  -- `self._git(clone, args, ...)` in the clone of that name.
  abbrev pub git_in :
      String
      → List String
      → Option (List (String × String))
      → (check : Bool) → Exec sys.State Completed
  git_in name args env check =
      git sys self.git_timeout (seconds self.git_timeout) (child self.cache_dir name) args env check

  -- `_tree_size(path)`: the sum over the files that are still there.
  unfoldable pub sum_sizes : List String → ℕ → Exec sys.State ℕ
  sum_sizes [] total = pure total
  sum_sizes (f ∷ fs) total = do
    size ← sys.file_size f
    sum_sizes fs (elim size [ none ↦ total | some n ↦ total + n ])

  unfoldable pub tree_size : String → Exec sys.State ℕ
  unfolding sum_sizes
  tree_size path = do files ← sys.walk path; sum_sizes files 0

  -- The test of the first loop of `_prune_cache`.
  abbrev pub is_candidate : (exclude name : String) → sys.State → Bool
  is_candidate exclude name s =
      not (name =ₛ exclude)
      && sys.is_dir (child self.cache_dir name) s
      && sys.is_dir (child (child self.cache_dir name) ".git") s

  abbrev pub measured : String → Exec sys.State Candidate
  measured name = do
    size ← tree_size (child self.cache_dir name)
    mtime ← sys.mtime (child self.cache_dir name)
    pure (record { mtime = mtime; size = size; name = name })

  -- One round of that loop: the clone, if it is taken, in front of those behind it.
  abbrev pub with_candidate :
      Bool → String → Exec sys.State (List Candidate) → Exec sys.State (List Candidate)
  with_candidate false name more = more
  with_candidate true name more = do c ← measured name; rest ← more; pure (c ∷ rest)

  unfoldable pub candidates : (exclude : String) → List String → Exec sys.State (List Candidate)
  unfolding tree_size
  candidates exclude [] = pure []
  candidates exclude (name ∷ names) = do
    taken ← gets (is_candidate exclude name)
    with_candidate taken name (candidates exclude names)

  -- The size of `exclude`, if it is a directory.
  abbrev pub excluded_size : Bool → String → Exec sys.State ℕ
  excluded_size true exclude = tree_size (child self.cache_dir exclude)
  excluded_size false exclude = pure 0

  -- What is left of the total after `rmtree`, if the clone is gone.
  abbrev pub after_eviction : ℕ → Candidate → sys.State → ℕ
  after_eviction total c s =
      if sys.exists (child self.cache_dir c.name) s then total else total - c.size

  -- One eviction, under the lock if it is free, and the loop behind it.
  abbrev pub on_lock : Bool → Candidate → ℕ → (ℕ → Exec sys.State ℕ) → Exec sys.State ℕ
  on_lock false c total more = more total
  on_lock true c total more = do
    sys.rmtree (child self.cache_dir c.name)
    sys.unlock (child self.cache_dir (lock_name c.name))
    left ← gets (after_eviction total c)
    more left

  -- The second loop of `_prune_cache`; it gives the total that is left.
  unfoldable pub evict : List Candidate → ℕ → Exec sys.State ℕ
  evict [] total = pure total
  evict (c ∷ cs) total = if leb total self.cache_max_bytes then pure total else do
    locked ← sys.try_lock (child self.cache_dir (lock_name c.name))
    on_lock locked c total (evict cs)

  -- `_prune_cache(exclude=clone)`
  unfoldable pub prune_cache : String → Exec sys.State ℕ
  unfolding candidates tree_size evict sort_candidates total_size
  prune_cache exclude = do
    names ← sys.iterdir self.cache_dir
    found ← candidates exclude names
    stands ← gets (sys.is_dir (child self.cache_dir exclude))
    own ← excluded_size stands exclude
    evict (sort_candidates found) (total_size found + own)

  module _ (repo_url name : String) (env : List (String × String)) where
    -- `_ensure_clone` where the clone stands.
    unfoldable pub fetch_clone : Exec sys.State (Unit {0})
    unfolding git prune_cache
    fetch_clone = do
      proc ←
          git_in name ("fetch" ∷ "origin" ∷ "+refs/heads/*:refs/remotes/origin/*" ∷ "--prune" ∷ [])
            (some env) false
      check_exit sys "fetch" proc
      sys.utime (child self.cache_dir name)
      prune_cache name
      pure tt

    -- The clone into a temporary directory; a failure or a timeout clears it, and any other
    -- exception passes.
    abbrev pub tmp_dir : String
    tmp_dir = child self.cache_dir (tmp_name name)

    abbrev pub on_exception : Kind → Exec sys.State (Unit {0})
    on_exception transient_landing = sys.rmtree tmp_dir
    on_exception _ = pure tt

    abbrev pub after_clone : Result Completed → Exec sys.State (Unit {0})
    after_clone (err e) = do on_exception e.kind; lift (err e)
    after_clone (ok proc) =
        if proc.returncode == 0
        then (do sys.rename tmp_dir (child self.cache_dir name); prune_cache name; pure tt)
        else do
          sys.rmtree tmp_dir
          raise (classify_git_failure (failure_text proc)) ("clone failed: " <> failure_text proc)

    -- What a broken clone left behind is removed.
    abbrev pub cleared : Bool → Exec sys.State (Unit {0})
    cleared true = sys.rmtree (child self.cache_dir name)
    cleared false = pure tt

    -- `git clone`, which may time out.
    abbrev pub try_clone : Exec sys.State (Result Completed)
    try_clone = attempt (
        run_git sys
          (record {
            cwd = none;
            args = "clone" ∷ "--quiet" ∷ repo_url ∷ tmp_dir ∷ [];
            env = some env;
            timeout = self.git_timeout * 4;
          })
          ("clone timed out after " <> (seconds (self.git_timeout * 4) <> "s")))

    unfoldable pub fresh_clone : Exec sys.State (Unit {0})
    unfolding run_git classify_git_failure failure_text prune_cache
    fresh_clone = do
      stands ← gets (sys.exists (child self.cache_dir name))
      cleared stands
      sys.rmtree tmp_dir
      proc ← try_clone
      after_clone proc

    -- `_ensure_clone(repo_url, env)`
    unfoldable pub ensure_clone : Exec sys.State (Unit {0})
    unfolding fetch_clone fresh_clone
    ensure_clone = do
      stands ← gets (sys.is_dir (child (child self.cache_dir name) ".git"))
      if stands then fetch_clone else fresh_clone

  -- `_default_branch(clone)`
  unfoldable pub first_branch : (name : String) → List String → Exec sys.State String
  unfolding git
  first_branch name [] = raise permanent_landing "cannot determine default branch"
  first_branch name (branch ∷ branches) = do
    proc ← git_in name ("rev-parse" ∷ "--verify" ∷ ("origin/" <> branch) ∷ []) none false
    if proc.returncode == 0 then pure branch else first_branch name branches

  -- `text.split("/", 1)[-1]`
  abbrev pub after_slash : String → String
  after_slash text = elim (split_once b'/' text).1 [ none ↦ text | some rest ↦ rest ]

  abbrev pub named_branch : (name : String) → Completed → Exec sys.State String
  named_branch name proc =
      if proc.returncode == 0 && not (strip proc.stdout =ₛ "")
      then pure (after_slash (strip proc.stdout))
      else first_branch name ("main" ∷ "master" ∷ [])

  unfoldable pub default_branch : (name : String) → Exec sys.State String
  unfolding git first_branch split_once
  default_branch name = do
    proc ← git_in name ("symbolic-ref" ∷ "--short" ∷ "refs/remotes/origin/HEAD" ∷ []) none false
    named_branch name proc
