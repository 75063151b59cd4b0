-- ===== src/PatchLander/Commands.antt =====
-- The git commands that `PatchLander.land` runs.
use worker_hive_relay.Prelude.{
  ℕ, String, ◌<>◌, ◌≡◌, refl, Bool, Option, none, some, List, [], ◌∷◌, ◌==◌, if◌then◌else◌,
}
use worker_hive_relay.Exec.{Kind, Result, ok, Exec, pure, lift, raise, gets, attempt, ◌>>=◌}
use worker_hive_relay.Exec.Relates.{
  Relates, Relates-pure, Relates-bind, Relates-attempt, Relates-if, Relates-knowing,
}
use worker_hive_relay.Git.{System, Libs, Command, Completed, git_env, check_exit, git}
use worker_hive_relay.Env.{env_of}
use worker_hive_relay.Branches.{repo_cache_name, tmp_name}
use worker_hive_relay.Exec.Yields.{Yields}
use worker_hive_relay.PatchLander.Answers.{DefaultBranch, TempFile}
use worker_hive_relay.Git.Recorded.{
  on_disk, recorded, Logs, Logs-IsPreorder, Logs-on_disk, Logs-run_git,
}
use worker_hive_relay.PatchLander.{PatchLander, Order, child, or_text, with_newline}
use worker_hive_relay.PatchLander.Cache.{git_in}

module _ (libs : Libs) (sys : System) (self : PatchLander) (o : Order) where
  -- What git is asked to do in a clone without the network: each command of the landing, with its
  -- arguments. The branch is git's own answer or one of the usual two, the file one that the disk
  -- made for the patch.
  pub data IsLocal (args : List String) : Type 0 where
    sets_name :
        args
          ≡ "config"
            ∷ "user.name"
            ∷ or_text libs sys
                (env_of libs.env ("NODE_RELAY_GIT_USER_NAME" ∷ "SPARK_GIT_USER_NAME" ∷ []) none)
                "Node Relay Lander"
            ∷ []
        → IsLocal args
    sets_email :
        args
          ≡ "config"
            ∷ "user.email"
            ∷ or_text libs sys
                (env_of libs.env ("NODE_RELAY_GIT_USER_EMAIL" ∷ "SPARK_GIT_USER_EMAIL" ∷ []) none)
                "node-relay@localhost"
            ∷ []
        → IsLocal args
    asks_head : args ≡ "symbolic-ref" ∷ "--short" ∷ "refs/remotes/origin/HEAD" ∷ [] → IsLocal args
    verifies_main : args ≡ "rev-parse" ∷ "--verify" ∷ "origin/main" ∷ [] → IsLocal args
    verifies_master : args ≡ "rev-parse" ∷ "--verify" ∷ "origin/master" ∷ [] → IsLocal args
    aborts : args ≡ "am" ∷ "--abort" ∷ [] → IsLocal args
    checks_out :
        (b : String)
        → DefaultBranch libs sys self b
        → args ≡ "checkout" ∷ "-q" ∷ "--detach" ∷ ("origin/" <> b) ∷ []
        → IsLocal args
    resets :
        (b : String)
        → DefaultBranch libs sys self b
        → args ≡ "reset" ∷ "--hard" ∷ ("origin/" <> b) ∷ []
        → IsLocal args
    cleans : args ≡ "clean" ∷ "-fdq" ∷ [] → IsLocal args
    applies :
        (file : String)
        → TempFile sys (with_newline o.patch) file
        → args ≡ "am" ∷ "-3" ∷ file ∷ []
        → IsLocal args
    asks_commit : args ≡ "rev-parse" ∷ "HEAD" ∷ [] → IsLocal args

-- A command in the clone of the order's repository.
pub record InClone (libs : Libs) (self : PatchLander) (o : Order) (c : Command) : Type 0 where
  pub name : String
  pub of_repo : repo_cache_name libs o.repo_url ≡ ok name
  pub in_dir : c.cwd ≡ some (child self.cache_dir name)

-- The commands for an order: four go to the network, with the credentials in the environment, and
-- the one that writes there pushes HEAD to the review branch; the others are local, and have no
-- environment of their own. All but the question to the remote and the clone run in the clone of
-- the repository.
pub data Planned (libs : Libs) (sys : System) (self : PatchLander) (o : Order)
    : Command → Type 0 where
  asks :
      (c : Command)
      → c.args ≡ "ls-remote" ∷ o.repo_url ∷ ("refs/heads/" <> o.branch) ∷ []
      → c.env ≡ some (git_env self.askpass o.username o.token)
      → Planned libs sys self o c
  clones :
      (c : Command) (name : String)
      → repo_cache_name libs o.repo_url ≡ ok name
      → c.args ≡ "clone" ∷ "--quiet" ∷ o.repo_url ∷ child self.cache_dir (tmp_name name) ∷ []
      → c.env ≡ some (git_env self.askpass o.username o.token)
      → Planned libs sys self o c
  fetches :
      (c : Command)
      → InClone libs self o c
      → c.args ≡ "fetch" ∷ "origin" ∷ "+refs/heads/*:refs/remotes/origin/*" ∷ "--prune" ∷ []
      → c.env ≡ some (git_env self.askpass o.username o.token)
      → Planned libs sys self o c
  pushes :
      (c : Command)
      → InClone libs self o c
      → c.args ≡ "push" ∷ "origin" ∷ ("HEAD:refs/heads/" <> o.branch) ∷ []
      → c.env ≡ some (git_env self.askpass o.username o.token)
      → Planned libs sys self o c
  works :
      (c : Command)
      → InClone libs self o c
      → IsLocal libs sys self o c.args
      → c.env ≡ none
      → Planned libs sys self o c

module _ (libs : Libs) (sys : System) (self : PatchLander) (o : Order) where
  abbrev pub Keeps : {A : Type 0} → Exec (recorded sys).State A → Type 0
  Keeps m = Relates (Logs sys (Planned libs sys self o)) m

  pub still : {A : Type 0} (m : Exec sys.State A) → Keeps (on_disk m)
  still m = Logs-on_disk sys (Planned libs sys self o) m

  pub then-Keeps :
      {A B : Type 0} (m : Exec (recorded sys).State A) (f : A → Exec (recorded sys).State B)
      → Keeps m
      → ((a : A) → Keeps (f a))
      → Keeps (m >>= f)
  then-Keeps m f = Relates-bind (Logs-IsPreorder sys (Planned libs sys self o)) m f

  -- The same, where it is known what the first action returns.
  pub then_knowing :
      {A B : Type 0} (P : A → Type 0) (m : Exec (recorded sys).State A)
      (f : A → Exec (recorded sys).State B)
      → Keeps m
      → Yields P m
      → ((a : A) → P a → Keeps (f a))
      → Keeps (m >>= f)
  then_knowing P m f = Relates-knowing (Logs-IsPreorder sys (Planned libs sys self o)) P m f

  pub pure-Keeps : {A : Type 0} (a : A) → Keeps (pure a)
  pure-Keeps a = Relates-pure (Logs-IsPreorder sys (Planned libs sys self o)) a

  pub check_exit-Keeps :
      (what : String) (proc : Completed) → Keeps (check_exit (recorded sys) what proc)
  check_exit-Keeps what proc =
      Relates-if (Logs-IsPreorder sys (Planned libs sys self o)) (proc.returncode == 0) _ _
        (pure-Keeps proc) (record { at = λ s h. h })

  abbrev in_clone : String → List String → Option (List (String × String)) → (timeout : ℕ) → Command
  in_clone name args env timeout = record {
    cwd = some (child self.cache_dir name);
    args = args;
    env = env;
    timeout = timeout;
  }

  pub git_in-Keeps :
      (name : String)
      → repo_cache_name libs o.repo_url ≡ ok name
      → (args : List String) (env : Option (List (String × String))) (check : Bool)
      → ((timeout : ℕ)
          → InClone libs self o (in_clone name args env timeout)
          → Planned libs sys self o (in_clone name args env timeout))
      → Keeps (git_in libs (recorded sys) self name args env check)
  unfolding git
  git_in-Keeps name cached args env check plan =
      then-Keeps _ _
        (Logs-run_git sys (Planned libs sys self o) _ _
          (plan _ (record { name = name; of_repo = cached; in_dir = refl })))
        (λ proc.
          Relates-if (Logs-IsPreorder sys (Planned libs sys self o)) check _ _
            (check_exit-Keeps _ proc) (pure-Keeps proc))

  pub local-Keeps :
      (name : String)
      → repo_cache_name libs o.repo_url ≡ ok name
      → (args : List String) (check : Bool) → IsLocal libs sys self o args
      → Keeps (git_in libs (recorded sys) self name args none check)
  local-Keeps name cached args check here =
      git_in-Keeps name cached args none check (λ timeout there. works _ there here refl)

  pub gets-Keeps : {A : Type 0} (f : (recorded sys).State → A) → Keeps (gets f)
  gets-Keeps f = record { at = λ s h. h }

  pub raise-Keeps : {A : Type 0} (k : Kind) (m : String) → Keeps (raise {A = A} k m)
  raise-Keeps k m = record { at = λ s h. h }

  pub lift-Keeps : {A : Type 0} (r : Result A) → Keeps (lift r)
  lift-Keeps r = record { at = λ s h. h }

  pub attempt-Keeps : {A : Type 0} (m : Exec (recorded sys).State A) → Keeps m → Keeps (attempt m)
  attempt-Keeps m h = Relates-attempt (Logs-IsPreorder sys (Planned libs sys self o)) m h

  pub if-Keeps :
      {A : Type 0} (b : Bool) (m n : Exec (recorded sys).State A)
      → Keeps m
      → Keeps n
      → Keeps (if b then m else n)
  if-Keeps b m n = Relates-if (Logs-IsPreorder sys (Planned libs sys self o)) b m n
