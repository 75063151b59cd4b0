-- ===== src/Repos/Allowlist.antt =====
-- No job chooses a repository that the operator did not list.
use worker_hive_relay.Prelude.{
  String, ◌≡◌, refl, subst, ◌⊎◌, inl, inr, Bool-cases, Option-cases, Bool, true, false, Option,
  none, some, ◌=ₛ◌, if◌then◌else◌, starts_with,
}
use worker_hive_relay.Env.{Env}
use worker_hive_relay.Exec.{Result, ok, err}
use worker_hive_relay.Value.{Items, Fields, get_null}
use worker_hive_relay.Repos.{
  Python, kind_workspace_map, alias_of, repo_aliases, mapped_kind, repo_token, repo_url_for_kind,
  is_alias_url, hinted, by_supplied, supplied_key, by_workspace, should_offload, noncommit_prefixes,
  offload_on, offload_commit, offload_hosts, offload_targeted, repo_url_for_job, starts_with_any,
  text_of,
}
use worker_hive_relay.Repos.Listed.{
  allowed, AllowedIfAny, listed-alias_of, listed-is_alias_url, mapped-mapped_kind, allowed-listed,
  allowed-mapped,
}

module _ (env : Env) where
  AllowedIfAny-of :
      (o : Option String)
      → ((url : String) → o ≡ some url → allowed env url ≡ true)
      → AllowedIfAny env o
  AllowedIfAny-of none h = tt
  AllowedIfAny-of (some url) h = h url refl

  of-AllowedIfAny :
      (o : Option String) (url : String)
      → AllowedIfAny env o
      → o ≡ some url
      → allowed env url ≡ true
  of-AllowedIfAny none url h e = absurd (cc e)
  of-AllowedIfAny (some u) url h e = let same : u ≡ url = cc e in rw (← same) h

  alias-AllowedIfAny :
      (name : String) (url : Option String)
      → alias_of name (repo_aliases env) ≡ some url
      → AllowedIfAny env url
  alias-AllowedIfAny name none e = tt
  alias-AllowedIfAny name (some url) e =
      allowed-listed env url (listed-alias_of name url (repo_aliases env) e)

  mapped-AllowedIfAny : (kind : String) → AllowedIfAny env (mapped_kind kind kind_workspace_map)
  mapped-AllowedIfAny kind =
      AllowedIfAny-of (mapped_kind kind kind_workspace_map)
        (λ url e. allowed-mapped env url (mapped-mapped_kind kind url kind_workspace_map e))

  kind-AllowedIfAny : (kind : String) → AllowedIfAny env (repo_url_for_kind env kind)
  unfolding repo_url_for_kind
  kind-AllowedIfAny kind = elim (Bool-cases (starts_with kind "build:")) [
    | inr other ↦ rw other (mapped-AllowedIfAny kind)
    | inl build ↦ elim (Option-cases (alias_of (repo_token kind) (repo_aliases env))) [
      | inl unknown ↦ rw (build, unknown) (mapped-AllowedIfAny kind)
      | inr (url, named) ↦ rw (build, named) (alias-AllowedIfAny (repo_token kind) url named)
    ]
  ]

  module _ (py : Python) where
    hinted-AllowedIfAny : (job : Fields) → AllowedIfAny env (hinted py env job)
    unfolding hinted
    hinted-AllowedIfAny job = from_hint (py.find_hint _)
      where
        by_kind : Option String
        by_kind = repo_url_for_kind env (text_of py (get_null "kind" job))

        from_alias :
            (name : String) (o : Option (Option String))
            → alias_of name (repo_aliases env) ≡ o
            → AllowedIfAny env (elim o [
              | some (some url) ↦
                  if url =ₛ ""
                  then repo_url_for_kind env (text_of py (get_null "kind" job))
                  else some url
              | _ ↦ repo_url_for_kind env (text_of py (get_null "kind" job))
            ])
        from_alias name none e = kind-AllowedIfAny _
        from_alias name (some none) e = kind-AllowedIfAny _
        from_alias name (some (some url)) e = elim (Bool-cases (url =ₛ "")) [
          | inl blank ↦ rw blank (kind-AllowedIfAny _)
          | inr given ↦ rw given (alias-AllowedIfAny name (some url) e)
        ]

        from_hint :
            (o : Option String)
            → AllowedIfAny env (elim o [
              | none ↦ repo_url_for_kind env (text_of py (get_null "kind" job))
              | some name ↦ elim (alias_of name (repo_aliases env)) [
                | some (some url) ↦
                    if url =ₛ ""
                    then repo_url_for_kind env (text_of py (get_null "kind" job))
                    else some url
                | _ ↦ repo_url_for_kind env (text_of py (get_null "kind" job))
              ]
            ])
        from_hint none = kind-AllowedIfAny _
        from_hint (some name) = from_alias name (alias_of name (repo_aliases env)) refl

    -- What a step answers, if it answers: nothing, or an allowed URL.
    AnswersAllowed : Result (Option String) → Type 0
    AnswersAllowed (err e) = Unit
    AnswersAllowed (ok o) = AllowedIfAny env o

    supplied-AnswersAllowed :
        (job : Fields) (r : Result (Option String)) → AnswersAllowed (by_supplied py env job r)
    unfolding AnswersAllowed
    supplied-AnswersAllowed job (err e) = tt
    supplied-AnswersAllowed job (ok none) = hinted-AllowedIfAny job
    supplied-AnswersAllowed job (ok (some url)) =
        elim (Bool-cases (is_alias_url url (repo_aliases env))) [
          | inl known ↦
              rw known (allowed-listed env url (listed-is_alias_url url (repo_aliases env) known))
          | inr unknown ↦ rw unknown (hinted-AllowedIfAny job)
        ]

    workspace-AnswersAllowed :
        (job : Fields) (r : Result (Option String)) → AnswersAllowed (by_workspace py env job r)
    unfolding AnswersAllowed
    workspace-AnswersAllowed job (err e) = tt
    workspace-AnswersAllowed job (ok none) = supplied-AnswersAllowed job _
    workspace-AnswersAllowed job (ok (some name)) =
        from_name (alias_of name (repo_aliases env)) refl
      where
        from_name :
            (o : Option (Option String))
            → alias_of name (repo_aliases env) ≡ o
            → AnswersAllowed (elim o [
              | some url ↦ ok url
              | none ↦ by_supplied py env job (supplied_key py env (get_null "repo" job))
            ])
        from_name none e = supplied-AnswersAllowed job _
        from_name (some url) e = alias-AllowedIfAny name url e

    -- Whatever a job says of its workspace, repository, prompt and kind, a URL that comes out is
    -- the URL of a name in the allowlist or of a kind in the built-in map.
    pub repo_url_for_job-allowed :
        (job : Fields) (url : String)
        → repo_url_for_job py env job ≡ ok (some url)
        → allowed env url ≡ true
    unfolding repo_url_for_job AnswersAllowed
    repo_url_for_job-allowed job url h =
        of-AllowedIfAny (some url) url (subst AnswersAllowed h (workspace-AnswersAllowed job _))
          refl

    -- A repository that was found for a job, and is allowed.
    Found : Fields → Type 0
    Found job =
        (url : String) × ((allowed env url ≡ true)
          × ((repo_url_for_kind env (text_of py (get_null "kind" job)) ≡ some url)
              ⊎ (repo_url_for_job py env job ≡ ok (some url))))

    targeted-Found :
        (job : Fields) (b : Bool) (r : Result (Option String))
        → repo_url_for_job py env job ≡ r
        → offload_targeted py env b r ≡ ok true
        → Found job
    unfolding Found
    targeted-Found job false r e h = absurd (cc h)
    targeted-Found job true (err x) e h = absurd (cc h)
    targeted-Found job true (ok none) e h = absurd (cc h)
    targeted-Found job true (ok (some url)) e h = (url, (repo_url_for_job-allowed job url e, inr e))

    hosts-Found :
        (job : Fields) (host : String) (r : Result Items)
        → offload_hosts py env job host r ≡ ok true
        → Found job
    hosts-Found job host (err x) h = absurd (cc h)
    hosts-Found job host (ok hosts) h = targeted-Found job _ (repo_url_for_job py env job) refl h

    commit-Found :
        (job : Fields) (host : String) (o : Option String)
        → repo_url_for_kind env (text_of py (get_null "kind" job)) ≡ o
        → offload_commit py env job host o ≡ ok true
        → Found job
    unfolding Found
    commit-Found job host none e h = hosts-Found job host _ h
    commit-Found job host (some url) e h = (
      url,
      (of-AllowedIfAny _ url (kind-AllowedIfAny (text_of py (get_null "kind" job))) e, inl e),
    )

    first_true :
        (b : Bool) (m : Result Bool)
        → (if b then ok true else m) ≡ ok true
        → (b ≡ true) ⊎ (m ≡ ok true)
    first_true true m h = inl refl
    first_true false m h = inr h

    offload-Found :
        (job : Fields) (r : Result String)
        → offload_on py env job r ≡ ok true
        → (starts_with_any (text_of py (get_null "kind" job)) noncommit_prefixes ≡ true) ⊎ Found job
    offload-Found job (err e) h = absurd (cc h)
    offload-Found job (ok host) h =
        elim (first_true (starts_with_any (text_of py (get_null "kind" job)) noncommit_prefixes) _
          h) [ inl noncommit ↦ inl noncommit | inr commit ↦ inr (commit-Found job _ _ refl commit) ]

    -- The node takes a job from the bus only if the job's kind is one that needs no commit, or if
    -- a repository is found for its kind or for the job, and that repository is allowed.
    pub should_offload-allowed :
        (job : Fields)
        → should_offload py env job ≡ ok true
        → (starts_with_any (text_of py (get_null "kind" job)) noncommit_prefixes ≡ true)
          ⊎ ((url : String) × ((allowed env url ≡ true)
                × ((repo_url_for_kind env (text_of py (get_null "kind" job)) ≡ some url)
                    ⊎ (repo_url_for_job py env job ≡ ok (some url)))))
    unfolding should_offload Found
    should_offload-allowed job h = offload-Found job _ h
