-- ===== src/PatchLander/LandPlan.antt =====
-- The git commands of `PatchLander.land`.
use worker_hive_relay.Prelude.{All, String, ◌≡◌, refl, Bool, true, false, none, List, [], ◌==◌}
use worker_hive_relay.Exec.{ok, Exec, ◌>>=◌}
use worker_hive_relay.Value.{Fields}
use worker_hive_relay.Git.{System, Libs, Completed}
use worker_hive_relay.PatchLander.Answers.{
  Ran, DefaultBranch, usual, named, TempFile, default_branch-DefaultBranch, write_temp-TempFile,
}
use worker_hive_relay.PatchLander.Commands.{
  IsLocal, sets_name, sets_email, aborts, checks_out, resets, cleans, applies, asks_commit,
  then_knowing, Planned, asks, pushes, Keeps, still, then-Keeps, pure-Keeps, check_exit-Keeps,
  git_in-Keeps, local-Keeps, raise-Keeps, lift-Keeps, attempt-Keeps, if-Keeps,
}
use worker_hive_relay.PatchLander.Land.{
  ls_remote_branch, pristine_clone, apply_patch, push_branch, land_anew, land_order, land_locked,
  land,
}
use worker_hive_relay.Git.Recorded.{on_disk, recorded, Logs-run_git}
use worker_hive_relay.PatchLander.{PatchLander, Order}
use worker_hive_relay.PatchLander.Cache.{git_in}
use worker_hive_relay.PatchLander.CachePlan.{ensure_clone-Keeps, default_branch-Keeps}
use worker_hive_relay.PatchLander.{admit, child}
use worker_hive_relay.Branches.{repo_cache_name, lock_name}

module _ (libs : Libs) (sys : System) (self : PatchLander) (o : Order) where
  abbrev logged : System
  logged = recorded sys

  abbrev K : {A : Type 0} → Exec logged.State A → Type 0
  K m = Keeps libs sys self o m

  abbrev bind :
      {A B : Type 0} (m : Exec logged.State A) (f : A → Exec logged.State B)
      → K m
      → ((a : A) → K (f a))
      → K (m >>= f)
  bind = then-Keeps libs sys self o

  abbrev disk : {A : Type 0} (m : Exec sys.State A) → K (on_disk m)
  disk = still libs sys self o

  abbrev here :
      (name : String)
      → repo_cache_name libs o.repo_url ≡ ok name
      → (args : List String) (check : Bool) → IsLocal libs sys self o args
      → K (git_in libs logged self name args none check)
  here = local-Keeps libs sys self o

  -- What the recording system answers, the system answered.
  played_back : (args : List String) (proc : Completed) → Ran logged args proc → Ran sys args proc
  played_back args proc r = record {
    command = r.command;
    before = r.before.1;
    arguments = r.arguments;
    answered = r.answered;
  }

  real_branch : (b : String) → DefaultBranch libs logged self b → DefaultBranch libs sys self b
  real_branch b (usual m) = usual m
  real_branch b (named proc r e) =
      named proc (record { ran = played_back _ proc r.ran; zero_exit = r.zero_exit }) e

  real_file : (text file : String) → TempFile logged text file → TempFile sys text file
  real_file text file t = record { before = t.before.1; made = t.made }

  ls_remote_branch-Keeps : K (ls_remote_branch libs logged self o)
  unfolding ls_remote_branch
  ls_remote_branch-Keeps =
      bind _ _ (Logs-run_git sys (Planned libs sys self o) _ _ (asks _ refl refl)) (λ proc.
        bind _ _ (check_exit-Keeps libs sys self o _ proc) (λ done. pure-Keeps libs sys self o _))

  pristine_clone-Keeps :
      (name : String)
      → repo_cache_name libs o.repo_url ≡ ok name
      → K (pristine_clone libs logged self o name)
  unfolding pristine_clone
  pristine_clone-Keeps name cached = bind _ _ (ensure_clone-Keeps libs sys self o name cached) (λ _.
      bind _ _ (here name cached _ true (sets_name refl)) (λ _.
        bind _ _ (here name cached _ true (sets_email refl)) (λ _.
          then_knowing libs sys self o _ _ _ (default_branch-Keeps libs sys self o name cached)
            (default_branch-DefaultBranch logged libs self name)
            (λ b known. bind _ _ (disk (sys.unlink_missing_ok _)) (λ _.
              bind _ _ (here name cached _ false (aborts refl)) (λ _.
                bind _ _ (here name cached _ true (checks_out b (real_branch b known) refl)) (λ _.
                  bind _ _ (here name cached _ false (resets b (real_branch b known) refl)) (λ _.
                    bind _ _ (here name cached _ false (cleans refl))
                      (λ _. pure-Keeps libs sys self o b)))))))))

  apply_patch-Keeps :
      (name default : String)
      → repo_cache_name libs o.repo_url ≡ ok name
      → K (apply_patch libs logged self o name default)
  unfolding apply_patch
  apply_patch-Keeps name default cached =
      then_knowing libs sys self o _ _ _ (disk (sys.write_temp _)) (write_temp-TempFile logged _)
        (λ file made.
          bind _ _
            (attempt-Keeps libs sys self o _ (
              bind _ _ (here name cached _ false (applies file (real_file _ file made) refl))
                (λ proc.
                  if-Keeps libs sys self o (proc.returncode == 0) _ _
                    (pure-Keeps libs sys self o tt)
                    (bind _ _ (here name cached _ false (aborts refl))
                      (λ _. raise-Keeps libs sys self o _ _)))))
            (λ applied.
              bind _ _ (disk (sys.unlink file)) (λ _. lift-Keeps libs sys self o applied)))

  push_branch-Keeps :
      (name : String)
      → repo_cache_name libs o.repo_url ≡ ok name
      → K (push_branch libs logged self o name)
  unfolding push_branch
  push_branch-Keeps name cached = bind _ _ (here name cached _ true (asks_commit refl)) (λ head.
      bind _ _
        (git_in-Keeps libs sys self o name cached _ _ false
          (λ timeout there. pushes _ there refl refl))
        (λ push.
          if-Keeps libs sys self o (push.returncode == 0) _ _ (pure-Keeps libs sys self o _) (
            bind _ _ ls_remote_branch-Keeps (λ raced.
              if-Keeps libs sys self o _ _ _ (pure-Keeps libs sys self o _)
                (raise-Keeps libs sys self o _ _)))))

  land_anew-Keeps :
      (name : String)
      → repo_cache_name libs o.repo_url ≡ ok name
      → K (land_anew libs logged self o name)
  unfolding land_anew
  land_anew-Keeps name cached = bind _ _ (pristine_clone-Keeps name cached) (λ default.
      bind _ _ (apply_patch-Keeps name default cached) (λ _. push_branch-Keeps name cached))

  land_order-Keeps :
      (name : String)
      → repo_cache_name libs o.repo_url ≡ ok name
      → K (land_order libs logged self o name)
  unfolding land_order
  land_order-Keeps name cached = bind _ _ ls_remote_branch-Keeps (λ existing.
      if-Keeps libs sys self o _ _ _ (pure-Keeps libs sys self o _) (land_anew-Keeps name cached))

  land_locked-Keeps : K (land_locked libs logged self o)
  unfolding land_locked
  land_locked-Keeps =
      then_knowing libs sys self o (λ name. repo_cache_name libs o.repo_url ≡ ok name) _ _
        (lift-Keeps libs sys self o (repo_cache_name libs o.repo_url))
        (record { of = λ s name e. e })
        (λ name cached. bind _ _ (disk (sys.lock (child self.cache_dir (lock_name name)))) (λ _.
          bind _ _ (attempt-Keeps libs sys self o _ (land_order-Keeps name cached)) (λ outcome.
            bind _ _ (disk (sys.unlock (child self.cache_dir (lock_name name))))
              (λ _. lift-Keeps libs sys self o outcome))))

-- The commands of a landing: where the checks of `land` make an order of a payload, every git
-- command of the landing, on whatever system, is one of the order's plan, argument by argument, in
-- the clone of the order's repository but for ls-remote and clone.
-- Only ls-remote, clone, fetch and push get the credentials, in the environment and not among the
-- arguments; a push is that of HEAD to the review branch of the job. A local command sets the
-- committer from the environment, asks for or resets to the default branch that git names or main
-- or master, or applies the file that the disk made for the patch.
pub land-Planned :
    (libs : Libs) (sys : System) (self : PatchLander) (payload : Fields) (job_id : String)
    (o : Order) (s : sys.State)
    → admit libs payload job_id ≡ ok o
    → All (Planned libs sys self o) (land libs (recorded sys) self payload job_id ([], s)).1.0
unfolding land
land-Planned libs sys self payload job_id o s admitted =
    rw admitted ((land_locked-Keeps libs sys self o).at ([], s) tt)
