-- ===== src/Repos.antt =====
-- Which repository a job may name: the allowlist of node_relay/node_poller.py, and the decision of
-- node_relay/enqueuer.py whether the node takes a job.
pub mod Listed
pub mod Allowlist
use Prim.Native.String.{slice}
use worker_hive_relay.Prelude.{
  ℕ, String, Bool, true, false, not, ◌&&◌, ◌||◌, Option, none, some, List, [], ◌∷◌, ◌++◌, ◌==◌,
  ◌=ₛ◌, if◌then◌else◌, starts_with, strip, lower, len, split_parts, split_once,
}
use worker_hive_relay.Env.{Env, env_of}
use worker_hive_relay.Exec.{Result, ok, err, fail, type_error}
use worker_hive_relay.Value.{
  Value, null, bool, num, str, arr, obj, Items, nil, cons, Fields, empty, field, get_null, truthy,
}
use worker_hive_relay.Hive.{or_else}
use worker_hive_relay.Enqueuer.{require_host}

-- Python's `str` on a value that is no text, and the group `repo` of the first match of
-- REPO_HINT_RE in a text.
pub record Python : Type 0 where
  pub show : Value → String
  pub find_hint : String → Option String

-- Names and their clone URLs, none for a name that has no repository.
abbrev pub Aliases : Type 0
Aliases = List (String × Option String)

-- _BASE_REPO_ALIASES
abbrev pub base_repo_aliases : Aliases
base_repo_aliases =
    ("mnemos", some "https://gitlab.com/mnemos-os/mnemos.git")
    ∷ ("zeroclaw", some "https://gitlab.com/nclawzero/zeroclaw.git")
    ∷ ("ncz-installer", some "https://gitlab.com/nclawzero/ncz-installer.git")
    ∷ ("riskyeats", some "https://gitlab.com/perlowja/riskyeats.git")
    ∷ ("ic-engine", some "https://gitlab.com/argonautsystems/ic-engine.git")
    ∷ ("investorclaw-enterprise", some "https://gitlab.com/argonautsystems/InvestorClaw.git")
    ∷ ("florida-licenses", some "https://gitlab.com/argonautsystems/florida-licenses.git")
    ∷ ("fleet-ops", none)
    ∷ []

-- KIND_WORKSPACE_MAP
abbrev pub kind_workspace_map : List (List String × Option String)
kind_workspace_map =
    ("ic-engine:" ∷ "investorclaw:" ∷ [], some "https://gitlab.com/argonautsystems/ic-engine.git")
    ∷ ("riskyeats:" ∷ [], some "https://gitlab.com/perlowja/riskyeats.git")
    ∷ ("riskybiz:" ∷ "argonaut:" ∷ [], none)
    ∷ (
      "mnemos:" ∷ "feat:knemon" ∷ "fix:knemon" ∷ "feat:oracle-backend" ∷ [],
      some "https://gitlab.com/mnemos-os/mnemos.git",
    )
    ∷ ("ncz-os-zeroclaw:" ∷ [], some "https://gitlab.com/nclawzero/zeroclaw.git")
    ∷ ("ncz-os-" ∷ [], some "https://gitlab.com/nclawzero/ncz-installer.git")
    ∷ ("fleet-infra:" ∷ [], none)
    ∷ []

-- NONCOMMIT_PREFIXES
abbrev pub noncommit_prefixes : List String
noncommit_prefixes =
    "architecture" ∷ "analysis" ∷ "research" ∷ "triage" ∷ "review" ∷ "design" ∷ "docs:"
    ∷ "investigation" ∷ "track:" ∷ "ops:" ∷ "diag:" ∷ "ping:" ∷ "hive-stats" ∷ "dream-walker" ∷ []

-- `s.startswith(prefixes)`
abbrev pub starts_with_any : String → List String → Bool
starts_with_any s [] = false
starts_with_any s (p ∷ ps) = starts_with s p || starts_with_any s ps

-- `aliases[name]`, none where the name is no key.
unfoldable pub alias_of : String → Aliases → Option (Option String)
alias_of name [] = none
alias_of name ((n, url) ∷ more) = if n =ₛ name then some url else alias_of name more

-- `aliases.setdefault(name, url)`
set_default_alias : String → Option String → Aliases → Aliases
set_default_alias name url [] = (name, url) ∷ []
set_default_alias name url ((n, u) ∷ more) =
    let rest = set_default_alias name url more in if n =ₛ name then (n, u) ∷ more else (n, u) ∷ rest

-- One entry of the environment's extras.
abbrev url_or_none : String → Option String
url_or_none url = if url =ₛ "" then none else some url

add_entry : String → Aliases → Aliases
unfolding split_once set_default_alias
add_entry entry aliases = elim (split_once b'=' (strip entry)).1 [
  | none ↦ aliases
  | some url ↦
      set_default_alias (strip (split_once b'=' (strip entry)).0) (url_or_none (strip url)) aliases
]

add_entries : List String → Aliases → Aliases
unfolding add_entry
add_entries [] aliases = aliases
add_entries (e ∷ es) aliases = add_entries es (add_entry e aliases)

-- `repo_aliases()`
unfoldable pub repo_aliases : Env → Aliases
unfolding add_entries split_parts env_of
repo_aliases env =
    let extra : String =
      elim (env_of env ("NODE_RELAY_REPO_ALLOWLIST" ∷ "SPARK_REPO_ALLOWLIST" ∷ []) none) [
        | none ↦ ""
        | some e ↦ e
      ] in
    let (entry, entries) = split_parts b',' extra in add_entries (entry ∷ entries) base_repo_aliases

unfoldable pub mapped_kind : String → List (List String × Option String) → Option String
mapped_kind kind [] = none
mapped_kind kind ((prefixes, url) ∷ more) =
    if starts_with_any kind prefixes then url else mapped_kind kind more

-- `kind[len("build:"):].split(":", 1)[0].strip()`
unfoldable pub repo_token : String → String
unfolding split_once
repo_token kind = strip (split_once b':' (slice kind 6 (len kind))).0

-- `repo_url_for_kind(kind)`, on the text of the kind.
unfoldable pub repo_url_for_kind : Env → String → Option String
unfolding mapped_kind
repo_url_for_kind env kind =
    if starts_with kind "build:"
    then elim (alias_of (repo_token kind) (repo_aliases env)) [
      | some url ↦ url
      | none ↦ mapped_kind kind kind_workspace_map
    ]
    else mapped_kind kind kind_workspace_map

-- `supplied in {url for url in aliases.values() if url}`
pub is_alias_url : String → Aliases → Bool
is_alias_url url [] = false
is_alias_url url ((_, none) ∷ more) = is_alias_url url more
is_alias_url url ((_, some u) ∷ more) = (not (u =ₛ "") && (u =ₛ url)) || is_alias_url url more

-- `str(v or "")`
abbrev pub text_of : Python → Value → String
text_of py (str s) = s
text_of py null = ""
text_of py (bool b) = if b then py.show (bool b) else ""
text_of py (num n) = if n == 0 then "" else py.show (num n)
text_of py (arr a) = if truthy (arr a) then py.show (arr a) else ""
text_of py (obj d) = if truthy (obj d) then py.show (obj d) else ""

-- `v in ...` over texts: a value that is not hashable raises, any other one is looked up.
abbrev pub key_text : Value → Result (Option String)
key_text (str s) = ok (some s)
key_text null = ok none
key_text (bool _) = ok none
key_text (num _) = ok none
key_text (arr _) = fail type_error "unhashable type: 'list'"
key_text (obj _) = fail type_error "unhashable type: 'dict'"

-- What `for h in v or []` goes over: the items of a list, the keys of a dictionary, the characters
-- of a text; a number raises.
characters : String → Items
characters String.[] = nil
characters (String.◌∷◌ c s) = cons (str (String.◌∷◌ c String.[])) (characters s)

field_names : Fields → Items
field_names empty = nil
field_names (field k _ d) = cons (str k) (field_names d)

unfoldable pub items_of : Value → Result Items
unfolding characters field_names
items_of null = ok nil
items_of (arr hosts) = ok hosts
items_of (str s) = ok (characters s)
items_of (obj d) = ok (field_names d)
items_of (bool b) = if b then fail type_error "'bool' object is not iterable" else ok nil
items_of (num n) = if n == 0 then ok nil else fail type_error "'int' object is not iterable"

module _ (py : Python) (env : Env) where
  -- The `repo:` hint of the prompt, then the kind.
  pub hinted : Fields → Option String
  hinted job =
      let prompt =
        or_else (get_null "prompt" job)
          (or_else (get_null "task" job) (or_else (get_null "description" job) (str ""))) in
      let by_kind = repo_url_for_kind env (text_of py (get_null "kind" job)) in
      elim (py.find_hint (text_of py prompt)) [
        | none ↦ by_kind
        | some name ↦ elim (alias_of name (repo_aliases env)) [
          | some (some url) ↦ if url =ₛ "" then by_kind else some url
          | _ ↦ by_kind
        ]
      ]

  -- `job.get("repo")` is taken only if it is one of the URLs.
  abbrev pub by_supplied : Fields → Result (Option String) → Result (Option String)
  by_supplied job (err e) = err e
  by_supplied job (ok none) = ok (hinted job)
  by_supplied job (ok (some url)) =
      ok (if is_alias_url url (repo_aliases env) then some url else hinted job)

  abbrev pub supplied_key : Value → Result (Option String)
  supplied_key v = if truthy v then key_text v else ok none

  abbrev pub by_workspace : Fields → Result (Option String) → Result (Option String)
  by_workspace job (err e) = err e
  by_workspace job (ok none) = by_supplied job (supplied_key (get_null "repo" job))
  by_workspace job (ok (some name)) = elim (alias_of name (repo_aliases env)) [
    | some url ↦ ok url
    | none ↦ by_supplied job (supplied_key (get_null "repo" job))
  ]

  -- `repo_url_for_job(job)`
  unfoldable pub repo_url_for_job : Fields → Result (Option String)
  repo_url_for_job job = by_workspace job (
      key_text (
        or_else (get_null "workspace" job)
          (or_else (get_null "target_workspace" job) (get_null "project" job))))

  -- `any(str(h).strip().lower() == host for h in eligible_hosts)`
  abbrev show_text : Value → String
  show_text (str s) = s
  show_text v = py.show v

  unfoldable pub targets : String → Items → Bool
  targets host nil = false
  targets host (cons h hs) = (lower (strip (show_text h)) =ₛ host) || targets host hs

  abbrev pub offload_targeted : Bool → Result (Option String) → Result Bool
  offload_targeted false url = ok false
  offload_targeted true (err e) = err e
  offload_targeted true (ok none) = ok false
  offload_targeted true (ok (some _)) = ok true

  abbrev pub offload_hosts : Fields → String → Result Items → Result Bool
  offload_hosts job host (err e) = err e
  offload_hosts job host (ok hosts) = offload_targeted (targets host hosts) (repo_url_for_job job)

  abbrev pub offload_commit : Fields → String → Option String → Result Bool
  offload_commit job host none = offload_hosts job host (items_of (get_null "eligible_hosts" job))
  offload_commit job host (some _) = ok true

  abbrev pub offload_on : Fields → Result String → Result Bool
  offload_on job (err e) = err e
  offload_on job (ok host) =
      if starts_with_any (text_of py (get_null "kind" job)) noncommit_prefixes
      then ok true
      else offload_commit job (lower host)
          (repo_url_for_kind env (text_of py (get_null "kind" job)))

  -- `_node_should_offload(job)`
  unfoldable pub should_offload : Fields → Result Bool
  should_offload job = offload_on job (require_host env)
