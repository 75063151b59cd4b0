-- ===== src/PatchLander/Answers.antt =====
-- Where the values come from that the lander works with: git's answers and the disk's.
use text.Mathlib.TextPositions.{eq_refl}
use worker_hive_relay.Prelude.{
  ap, ◌∙◌, ◌||◌, String, ◌≡◌, refl, Bool, true, false, Option, none, some, List, [], ◌∷◌, ◌==◌,
  ◌=ₛ◌, strip, not, ◌&&◌,
}
use worker_hive_relay.Exec.{Result, ok, err}
use worker_hive_relay.Exec.Yields.{Yields, Yields-pure, Yields-bind, Yields-if}
use worker_hive_relay.Git.{
  System, Libs, Command, Completed, is_member, completed, run_git, check_exit, git,
}
use worker_hive_relay.PatchLander.{PatchLander}
use worker_hive_relay.PatchLander.Cache.{git_in, after_slash, first_branch, default_branch}

or_true : (b : Bool) → (b || true) ≡ true
or_true true = refl
or_true false = refl

and_left : (a b : Bool) → (a && b) ≡ true → a ≡ true
and_left true b h = refl
and_left false b h = h

module _ (sys : System) where
  -- Git, run with these arguments, gave this answer.
  pub record Ran (args : List String) (proc : Completed) : Type 0 where
    pub command : Command
    pub before : sys.State
    pub arguments : command.args ≡ args
    pub answered : (sys.run command before).0 ≡ ok (some proc)

  -- The same, and git returned 0.
  pub record Succeeded (args : List String) (proc : Completed) : Type 0 where
    pub ran : Ran args proc
    pub zero_exit : (proc.returncode == 0) ≡ true

  -- A temporary file that the disk made for a text.
  pub record TempFile (text file : String) : Type 0 where
    pub before : sys.State
    pub made : (sys.write_temp text before).0 ≡ ok file

module _ (libs : Libs) (sys : System) (self : PatchLander) where
  -- The name of the default branch: git named it, or it is one of the usual two.
  pub data DefaultBranch (b : String) : Type 0 where
    usual : is_member b ("main" ∷ "master" ∷ []) ≡ true → DefaultBranch b
    named :
        (proc : Completed)
        → Succeeded sys ("symbolic-ref" ∷ "--short" ∷ "refs/remotes/origin/HEAD" ∷ []) proc
        → b ≡ after_slash libs sys self (strip proc.stdout)
        → DefaultBranch b

module _ (sys : System) where
  pub run_git-Ran :
      (c : Command) (message : String) → Yields (Ran sys c.args) (run_git sys c message)
  unfolding run_git
  run_git-Ran c message = record { of = λ s proc e. go s proc (sys.run c s).0 refl e }
    where
      go :
          (s : sys.State) (proc : Completed) (r : Result (Option Completed))
          → (sys.run c s).0 ≡ r
          → completed sys message r ≡ ok proc
          → Ran sys c.args proc
      go s proc (err e) same h = absurd (cc h)
      go s proc (ok none) same h = absurd (cc h)
      go s proc (ok (some p)) same h = record {
        command = c;
        before = s;
        arguments = refl;
        answered = same ∙ ap (λ q. ok (some q)) (let e : p ≡ proc = cc h in e);
      }

  pub check_exit-Succeeded :
      (args : List String) (what : String) (proc : Completed)
      → Ran sys args proc
      → Yields (Succeeded sys args) (check_exit sys what proc)
  check_exit-Succeeded args what proc ran =
      Yields-if (proc.returncode == 0) _ _
        (λ zero. Yields-pure proc (record { ran = ran; zero_exit = zero }))
        (λ _. record { of = λ s p e. absurd (cc e) })

  pub write_temp-TempFile : (text : String) → Yields (TempFile sys text) (sys.write_temp text)
  write_temp-TempFile text = record { of = λ s file e. record { before = s; made = e } }

  module _ (libs : Libs) (self : PatchLander) where
    -- A checked command in a clone succeeded; an unchecked one ran.
    pub git_in-Succeeded :
        (name : String) (args : List String) (env : Option (List (String × String)))
        → Yields (Succeeded sys args) (git_in libs sys self name args env true)
    unfolding git
    git_in-Succeeded name args env =
        Yields-bind _ _ (run_git-Ran _ _) (λ proc ran. check_exit-Succeeded args _ proc ran)

    pub git_in-Ran :
        (name : String) (args : List String) (env : Option (List (String × String)))
        → Yields (Ran sys args) (git_in libs sys self name args env false)
    unfolding git
    git_in-Ran name args env = Yields-bind _ _ (run_git-Ran _ _) (λ proc ran. Yields-pure proc ran)

    first_branch-DefaultBranch :
        (name : String) (bs : List String)
        → ((b : String) → is_member b bs ≡ true → DefaultBranch libs sys self b)
        → Yields (DefaultBranch libs sys self) (first_branch libs sys self name bs)
    unfolding first_branch
    first_branch-DefaultBranch name [] h = record { of = λ s b e. absurd (cc e) }
    first_branch-DefaultBranch name (b ∷ bs) h = Yields-bind _ _ (git_in-Ran name _ none) (λ proc _.
        Yields-if (proc.returncode == 0) _ _ (λ _. Yields-pure b (h b (rw (eq_refl b) refl)))
          (λ _. first_branch-DefaultBranch name bs (λ c m. h c (rw m (or_true (c =ₛ b))))))

    pub default_branch-DefaultBranch :
        (name : String) → Yields (DefaultBranch libs sys self) (default_branch libs sys self name)
    unfolding default_branch
    default_branch-DefaultBranch name = Yields-bind _ _ (git_in-Ran name _ none) (λ proc ran.
        Yields-if (proc.returncode == 0 && not (strip proc.stdout =ₛ "")) _ _
          (λ both.
            Yields-pure _ (named proc (record { ran = ran; zero_exit = and_left _ _ both }) refl))
          (λ _. first_branch-DefaultBranch name ("main" ∷ "master" ∷ []) (λ b m. usual m)))
