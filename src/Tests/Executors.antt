-- ===== src/Tests/Executors.antt =====
-- The executors at concrete chains, paths and repositories.
use worker_hive_relay.Prelude.{
  ℕ, suc, String, ◌≡◌, refl, ◌↔◌, true, false, some, List, [], ◌∷◌, ◌++◌,
}
use worker_hive_relay.Exec.{ok, fail, runtime_error}
use worker_hive_relay.Value.{null, str, empty}
use worker_hive_relay.Executors.{Question, ChatBackend, has_failed, complete_fallback}
use worker_hive_relay.Executors.Fallback.{replaced, complete_fallback-replaced}
use worker_hive_relay.Git.{credentials_for}
use worker_hive_relay.Edits.{Clone}
use worker_hive_relay.Edits.Credentials.{git_auth_for_url}
use worker_hive_relay.Edits.Owners.{git_auth_for_url-credentials_for}
use worker_hive_relay.Tests.Lander.{libs, url}

-- A backend that is down, and one that answers; the state is the list of backends asked.
abbrev backend : String → String → ChatBackend (List String)
backend name reply = record {
  name = name;
  complete = λ q asked. (ok (str reply), name ∷ asked);
  execute = λ job asked. (ok empty, name ∷ asked);
}

abbrev question : Question
question = record { system = "s"; user = str "u"; model = null }

local_failed : has_failed "local" ("local" ∷ []) ≡ true
unfolding has_failed
local_failed = refl

complete_fallback-replaced_example :
    complete_fallback
      ([] ++ (backend "local" "a" ∷ (backend "cloud" "b" ∷ [])))
      question
      ([], "local" ∷ [])
    ≡ complete_fallback
        ([]
          ++ (replaced
                (backend "local" "a")
                (λ q asked. (fail runtime_error "down", "local" ∷ asked))
                (backend "cloud" "b" ∷ [])
              ∷ (backend "cloud" "b" ∷ [])))
        question
        ([], "local" ∷ [])
complete_fallback-replaced_example =
    complete_fallback-replaced (backend "local" "a")
      (λ q asked. (fail runtime_error "down", "local" ∷ asked)) (backend "cloud" "b" ∷ []) []
      question [] ("local" ∷ []) local_failed

-- A clone that counts what is written, in which no path is a link.
abbrev clone : Clone
clone = record {
  State = ℕ;
  is_file = λ p n. false;
  is_symlink = λ p n. false;
  inside = λ p n. true;
  read_text = λ p n. ok "";
  unlink_missing_ok = λ p n. (ok tt, suc n);
  make_parent = λ p n. (ok tt, suc n);
  write_text = λ p text n. (ok tt, suc n);
  toplevel_names = λ text. [];
  is_truncated = λ new original. false;
}

git_auth_for_url-credentials_for_example :
    (git_auth_for_url libs url ≡ ok (some ("x-access-token", "t0k")))
    ↔ (credentials_for libs url ≡ ok (some ("x-access-token", "t0k")))
git_auth_for_url-credentials_for_example =
    git_auth_for_url-credentials_for libs url ("x-access-token", "t0k")
