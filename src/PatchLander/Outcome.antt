-- ===== src/PatchLander/Outcome.antt =====
-- What `PatchLander.land` returns, and when it returns without doing the work again.
use worker_hive_relay.Prelude.{
  String, ◌<>◌, ◌≡◌, ◌≢◌, refl, true, Option, none, some, ◌∷◌, [], ◌==◌, strip, =ₛ-false,
}
use worker_hive_relay.Exec.{ok, Exec}
use worker_hive_relay.Exec.Yields.{Yields}
use worker_hive_relay.Value.{str, Fields, empty, field, get}
use worker_hive_relay.Git.{System, Libs, Completed, is_set, git_env, run_git}
use worker_hive_relay.PatchLander.Answers.{Succeeded}
use worker_hive_relay.PatchLander.Listing.{lacks, IsFirst, split_once-first, append-ne}
use worker_hive_relay.Branches.{branch_for_job, repo_cache_name, lock_name}
use worker_hive_relay.PatchLander.{PatchLander, Order, child, or_text, admit}
use worker_hive_relay.PatchLander.Land.{
  listed_sha, ls_remote_branch, landed, land_order, land_locked, land,
}
use worker_hive_relay.PatchLander.Admission.{repo_of}

-- A commit that git named: `ls-remote`, asked for the review branch, printed it in front of a tab
-- or of nothing, or it is what `rev-parse HEAD` printed before a push of HEAD that succeeded.
pub data Commit (sys : System) (repo_url branch sha : String) : Type 0 where
  listed :
      (proc : Completed)
      → Succeeded sys ("ls-remote" ∷ repo_url ∷ ("refs/heads/" <> branch) ∷ []) proc
      → IsFirst b'\t' sha (strip proc.stdout)
      → sha ≢ ""
      → Commit sys repo_url branch sha
  pushed :
      (head push : Completed)
      → Succeeded sys ("rev-parse" ∷ "HEAD" ∷ []) head
      → Succeeded sys ("push" ∷ "origin" ∷ ("HEAD:refs/heads/" <> branch) ∷ []) push
      → sha ≡ strip head.stdout
      → Commit sys repo_url branch sha

-- The fields of a landing: the job's branch, the payload's repository and a commit that git named
-- for this branch.
pub record Landed (libs : Libs) (sys : System) (payload : Fields) (job_id : String) (d : Fields)
    : Type 0 where
  pub branch : String
  pub of_job : branch_for_job libs job_id ≡ ok branch
  pub branch_field : get "landed_branch" d ≡ some (str branch)
  pub repo_field : get "landed_repo" d ≡ some (str (repo_of libs payload))
  pub sha : String
  pub sha_field : get "landed_sha" d ≡ some (str sha)
  pub commit : Commit sys (repo_of libs payload) branch sha

module _ (libs : Libs) (sys : System) (self : PatchLander) (o : Order) where
  abbrev Reported : Fields → Type 0
  Reported d =
      (sha : String) × (d ≡ landed libs sys self o sha) × Commit sys o.repo_url o.branch sha

  -- What the question to the remote gives, where it gives a commit.
  abbrev Listed : Option String → Type 0
  Listed found = is_set found ≡ true → Commit sys o.repo_url o.branch (or_text libs sys found "")

listed_sha-line :
    (libs : Libs) (sys : System) (self : PatchLander) (stdout sha rest : String)
    → strip stdout ≡ sha <> ("\t" <> rest)
    → sha ≢ ""
    → lacks b'\t' sha ≡ true
    → listed_sha libs sys self (strip stdout) ≡ some sha
listed_sha-line libs sys self stdout sha rest prints filled whole =
    let line = split_once-first b'\t' "\t" rest sha refl whole in
    rw (prints, =ₛ-false (sha <> ("\t" <> rest)) "" (append-ne sha ("\t" <> rest) filled), line)
      refl

-- A landing is not done twice: for an admitted payload whose lock is free, if git, asked for the
-- review branch of the job, prints a commit, a tab and whatever else, then the landing returns this
-- commit, and between taking the lock and giving it back the question to the remote is all that
-- happens. The commit is a text that is not empty and has no tab.
pub land_reuses :
    (libs : Libs) (sys : System) (self : PatchLander) (payload : Fields) (job_id : String)
    (o : Order) (name sha rest : String) (proc : Completed) (s locked asked unlocked : sys.State)
    → admit libs payload job_id ≡ ok o
    → repo_cache_name libs o.repo_url ≡ ok name
    → sys.lock (child self.cache_dir (lock_name name)) s ≡ (ok tt, locked)
    → sys.run
        (record {
          cwd = none;
          args = "ls-remote" ∷ o.repo_url ∷ ("refs/heads/" <> o.branch) ∷ [];
          env = some (git_env self.askpass o.username o.token);
          timeout = self.git_timeout;
        })
        locked
      ≡ (ok (some proc), asked)
    → (proc.returncode == 0) ≡ true
    → strip proc.stdout ≡ sha <> ("\t" <> rest)
    → sha ≢ ""
    → lacks b'\t' sha ≡ true
    → sys.unlock (child self.cache_dir (lock_name name)) asked ≡ (ok tt, unlocked)
    → land libs sys self payload job_id s ≡ (
      ok (
          field "landed_branch"
            (str o.branch)
            (field "landed_repo" (str o.repo_url) (field "landed_sha" (str sha) empty))),
      unlocked,
    )
unfolding land land_locked land_order ls_remote_branch run_git
land_reuses libs sys self payload job_id o name sha rest proc s locked asked unlocked admitted named
      takes finds exits prints filled whole gives =
    rw
      (
        admitted,
        named,
        takes,
        finds,
        exits,
        listed_sha-line libs sys self proc.stdout sha rest prints filled whole,
        =ₛ-false sha "" filled,
        gives,
      )
      refl
