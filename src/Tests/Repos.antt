-- ===== src/Tests/Repos.antt =====
-- Repositories at concrete jobs.
use worker_hive_relay.Prelude.{
  String, ◌≡◌, ◌⊎◌, refl, true, none, some, ◌=ₛ◌, if◌then◌else◌, strip, lower,
}
use worker_hive_relay.Env.{Env, env_of}
use worker_hive_relay.Exec.{ok}
use worker_hive_relay.Value.{Fields, empty, field, str, arr, cons, nil, get, get_null}
use worker_hive_relay.Repos.{
  Python, noncommit_prefixes, starts_with_any, text_of, alias_of, repo_aliases, mapped_kind,
  repo_url_for_kind, repo_url_for_job, items_of, targets, should_offload,
}
use worker_hive_relay.Repos.Listed.{allowed}
use worker_hive_relay.Repos.Allowlist.{repo_url_for_job-allowed, should_offload-allowed}

abbrev pub python : Python
python = record { show = λ v. "?"; find_hint = λ s. none }

-- A node "gpu1" whose operator lists one more repository.
abbrev pub env : Env
env name =
    if name =ₛ "NODE_RELAY_HOST"
    then some "GPU1"
    else if name =ₛ "NODE_RELAY_REPO_ALLOWLIST"
    then some "tools=https://git.example/tools.git"
    else none

-- A job that names the operator's repository as its project.
abbrev job : Fields
job =
    field "kind" (str "fix:tools")
      (field "project" (str "tools") (field "eligible_hosts" (arr (cons (str " gpu1") nil)) empty))

found : repo_url_for_job python env job ≡ ok (some "https://git.example/tools.git")
unfolding repo_url_for_job repo_aliases alias_of get strip env_of
found = refl

repo_url_for_job-allowed_example : allowed env "https://git.example/tools.git" ≡ true
repo_url_for_job-allowed_example =
    repo_url_for_job-allowed env python job "https://git.example/tools.git" found

taken : should_offload python env job ≡ ok true
unfolding should_offload repo_url_for_job repo_url_for_kind mapped_kind repo_aliases alias_of get
    strip lower env_of items_of targets
taken = refl

should_offload-allowed_example :
    (starts_with_any (text_of python (get_null "kind" job)) noncommit_prefixes ≡ true)
    ⊎ ((url : String) × ((allowed env url ≡ true)
          × ((repo_url_for_kind env (text_of python (get_null "kind" job)) ≡ some url)
              ⊎ (repo_url_for_job python env job ≡ ok (some url)))))
should_offload-allowed_example = should_offload-allowed env python job taken
