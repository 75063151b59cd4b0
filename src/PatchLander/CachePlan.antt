-- ===== src/PatchLander/CachePlan.antt =====
-- The git commands of `_ensure_clone`, `_prune_cache` and `_default_branch`.
use worker_hive_relay.Prelude.{
  All, ℕ, ◌+◌, not, ◌&&◌, strip, ◌=ₛ◌, ◌+◌, String, ◌<>◌, ◌≡◌, refl, Bool, true, false, List, [],
  ◌∷◌, leb, ◌=ₛ◌, ◌==◌,
}
use worker_hive_relay.Exec.{Kind, Result, ok, err, Exec, ◌>>=◌, transient_landing}
use worker_hive_relay.Git.{System, Libs, Completed, git_env}
use worker_hive_relay.PatchLander.Commands.{
  IsLocal, asks_head, verifies_main, verifies_master, Planned, clones, fetches, Keeps, still,
  then-Keeps, pure-Keeps, check_exit-Keeps, git_in-Keeps, local-Keeps, gets-Keeps, raise-Keeps,
  lift-Keeps, attempt-Keeps, if-Keeps,
}
use worker_hive_relay.Git.Recorded.{on_disk, recorded, Logs-run_git}
use worker_hive_relay.PatchLander.{
  PatchLander, Order, Candidate, child, total_size, sort_candidates, sort_candidates,
}
use worker_hive_relay.PatchLander.Cache.{
  sum_sizes, tree_size, measured, with_candidate, candidates, excluded_size, on_lock, evict,
  prune_cache, fetch_clone, cleared, try_clone, on_exception, after_clone, fresh_clone,
  ensure_clone, first_branch, named_branch, default_branch,
}
use worker_hive_relay.Branches.{repo_cache_name, tmp_name}

module _ (libs : Libs) (sys : System) (self : PatchLander) (o : Order) where
  abbrev logged : System
  logged = recorded sys

  abbrev K : {A : Type 0} → Exec logged.State A → Type 0
  K m = Keeps libs sys self o m

  abbrev bind :
      {A B : Type 0} (m : Exec logged.State A) (f : A → Exec logged.State B)
      → K m
      → ((a : A) → K (f a))
      → K (m >>= f)
  bind = then-Keeps libs sys self o

  abbrev disk : {A : Type 0} (m : Exec sys.State A) → K (on_disk m)
  disk = still libs sys self o

  sum_sizes-Keeps : (files : List String) (total : ℕ) → K (sum_sizes libs logged self files total)
  unfolding sum_sizes
  sum_sizes-Keeps [] total = pure-Keeps libs sys self o total
  sum_sizes-Keeps (f ∷ fs) total = bind _ _ (disk (sys.file_size f)) (λ size. sum_sizes-Keeps fs _)

  tree_size-Keeps : (path : String) → K (tree_size libs logged self path)
  unfolding tree_size
  tree_size-Keeps path = bind _ _ (disk (sys.walk path)) (λ files. sum_sizes-Keeps files 0)

  measured-Keeps : (name : String) → K (measured libs logged self name)
  measured-Keeps name =
      bind _ _ (tree_size-Keeps _)
        (λ size. bind _ _ (disk (sys.mtime _)) (λ mtime. pure-Keeps libs sys self o _))

  candidates-Keeps :
      (exclude : String) (names : List String) → K (candidates libs logged self exclude names)
  unfolding candidates
  candidates-Keeps exclude [] = pure-Keeps libs sys self o []
  candidates-Keeps exclude (name ∷ names) =
      bind _ _ (gets-Keeps libs sys self o _)
        (λ taken. taken_up taken (candidates-Keeps exclude names))
    where
      taken_up :
          (b : Bool)
          → K (candidates libs logged self exclude names)
          → K (with_candidate libs logged self b name (candidates libs logged self exclude names))
      taken_up false h = h
      taken_up true h =
          bind _ _ (measured-Keeps name) (λ c. bind _ _ h (λ rest. pure-Keeps libs sys self o _))

  on_lock-Keeps :
      (locked : Bool) (c : Candidate) (total : ℕ) (more : ℕ → Exec logged.State ℕ)
      → ((n : ℕ) → K (more n))
      → K (on_lock libs logged self locked c total more)
  on_lock-Keeps false c total more h = h total
  on_lock-Keeps true c total more h =
      bind _ _ (disk (sys.rmtree _))
        (λ _. bind _ _ (disk (sys.unlock _)) (λ _. bind _ _ (gets-Keeps libs sys self o _) h))

  evict-Keeps : (cs : List Candidate) (total : ℕ) → K (evict libs logged self cs total)
  unfolding evict
  evict-Keeps [] total = pure-Keeps libs sys self o total
  evict-Keeps (c ∷ cs) total =
      if-Keeps libs sys self o (leb total self.cache_max_bytes) _ _
        (pure-Keeps libs sys self o total)
        (bind _ _ (disk (sys.try_lock _))
          (λ locked. on_lock-Keeps locked c total _ (λ n. evict-Keeps cs n)))

  excluded_size-Keeps : (b : Bool) (name : String) → K (excluded_size libs logged self b name)
  excluded_size-Keeps true name = tree_size-Keeps _
  excluded_size-Keeps false name = pure-Keeps libs sys self o 0

  pub prune_cache-Keeps : (exclude : String) → K (prune_cache libs logged self exclude)
  unfolding prune_cache
  prune_cache-Keeps exclude = bind _ _ (disk (sys.iterdir self.cache_dir)) (λ names.
      bind _ _ (candidates-Keeps exclude names) (λ found.
        bind _ _ (gets-Keeps libs sys self o (logged.is_dir (child self.cache_dir exclude)))
          (λ stands.
            bind _ _ (excluded_size-Keeps stands exclude)
              (λ own. evict-Keeps (sort_candidates found) (total_size found + own)))))

  fetch_clone-Keeps :
      (name : String)
      → repo_cache_name libs o.repo_url ≡ ok name
      → K (fetch_clone libs logged self o.repo_url name (git_env self.askpass o.username o.token))
  unfolding fetch_clone
  fetch_clone-Keeps name cached =
      bind _ _
        (git_in-Keeps libs sys self o name cached _ _ false
          (λ timeout there. fetches _ there refl refl))
        (λ proc. bind _ _ (check_exit-Keeps libs sys self o "fetch" proc) (λ _.
          bind _ _ (disk (sys.utime _))
            (λ _. bind _ _ (prune_cache-Keeps name) (λ _. pure-Keeps libs sys self o tt))))

  on_exception-Keeps :
      (name : String) (k : Kind)
      → K (
          on_exception libs logged self o.repo_url name (git_env self.askpass o.username o.token) k)
  on_exception-Keeps name transient_landing = disk (sys.rmtree _)
  on_exception-Keeps name _ = pure-Keeps libs sys self o tt

  after_clone-Keeps :
      (name : String) (r : Result Completed)
      → K (after_clone libs logged self o.repo_url name (git_env self.askpass o.username o.token) r)
  after_clone-Keeps name (err e) =
      bind _ _ (on_exception-Keeps name e.kind) (λ _. lift-Keeps libs sys self o _)
  after_clone-Keeps name (ok proc) =
      if-Keeps libs sys self o (proc.returncode == 0) _ _
        (bind _ _ (disk (sys.rename _ _))
          (λ _. bind _ _ (prune_cache-Keeps name) (λ _. pure-Keeps libs sys self o tt)))
        (bind _ _ (disk (sys.rmtree _)) (λ _. raise-Keeps libs sys self o _ _))

  abbrev creds : List (String × String)
  creds = git_env self.askpass o.username o.token

  cleared-Keeps : (name : String) (b : Bool) → K (cleared libs logged self o.repo_url name creds b)
  cleared-Keeps name true = disk (sys.rmtree _)
  cleared-Keeps name false = pure-Keeps libs sys self o tt

  try_clone-Keeps :
      (name : String)
      → repo_cache_name libs o.repo_url ≡ ok name
      → K (try_clone libs logged self o.repo_url name creds)
  try_clone-Keeps name cached =
      attempt-Keeps libs sys self o _
        (Logs-run_git sys (Planned libs sys self o) _ _ (clones _ name cached refl refl))

  fresh_clone-Keeps :
      (name : String)
      → repo_cache_name libs o.repo_url ≡ ok name
      → K (fresh_clone libs logged self o.repo_url name creds)
  unfolding fresh_clone
  fresh_clone-Keeps name cached =
      bind _ _ (gets-Keeps libs sys self o (logged.exists (child self.cache_dir name))) (λ stands.
        bind _ _ (cleared-Keeps name stands) (λ _.
          bind _ _ (disk (sys.rmtree (child self.cache_dir (tmp_name name))))
            (λ _. bind _ _ (try_clone-Keeps name cached) (after_clone-Keeps name))))

  pub ensure_clone-Keeps :
      (name : String)
      → repo_cache_name libs o.repo_url ≡ ok name
      → K (ensure_clone libs logged self o.repo_url name (git_env self.askpass o.username o.token))
  unfolding ensure_clone
  ensure_clone-Keeps name cached = bind _ _ (gets-Keeps libs sys self o _) (λ stands.
      if-Keeps libs sys self o stands _ _ (fetch_clone-Keeps name cached)
        (fresh_clone-Keeps name cached))

  first_branch-Keeps :
      (name : String)
      → repo_cache_name libs o.repo_url ≡ ok name
      → (branches : List String)
      → All
          (λ b. IsLocal libs sys self o ("rev-parse" ∷ "--verify" ∷ ("origin/" <> b) ∷ []))
          branches
      → K (first_branch libs logged self name branches)
  unfolding first_branch
  first_branch-Keeps name cached [] h = raise-Keeps libs sys self o _ _
  first_branch-Keeps name cached (b ∷ bs) (h, hs) =
      bind _ _ (local-Keeps libs sys self o name cached _ false h) (λ proc.
        if-Keeps libs sys self o (proc.returncode == 0) _ _ (pure-Keeps libs sys self o b)
          (first_branch-Keeps name cached bs hs))

  named_branch-Keeps :
      (name : String)
      → repo_cache_name libs o.repo_url ≡ ok name
      → (proc : Completed) → K (named_branch libs logged self name proc)
  named_branch-Keeps name cached proc =
      if-Keeps libs sys self o (proc.returncode == 0 && not (strip proc.stdout =ₛ "")) _ _
        (pure-Keeps libs sys self o _)
        (first_branch-Keeps name cached ("main" ∷ "master" ∷ [])
          (verifies_main refl, (verifies_master refl, tt)))

  pub default_branch-Keeps :
      (name : String)
      → repo_cache_name libs o.repo_url ≡ ok name
      → K (default_branch libs logged self name)
  unfolding default_branch
  default_branch-Keeps name cached =
      bind _ _ (local-Keeps libs sys self o name cached _ false (asks_head refl))
        (named_branch-Keeps name cached)
