-- ===== src/Repos/Listed.antt =====
-- What the operator lists: the URLs that a job may end up with, and the lookups that find them.
use text.Mathlib.TextEquality.{eq_iff}
use worker_hive_relay.Prelude.{
  String, ◌≡◌, refl, inl, inr, Bool-cases, Bool, true, false, ◌||◌, Option, none, some, List, [],
  ◌∷◌, arith, ◌=ₛ◌,
}
use worker_hive_relay.Env.{Env}
use worker_hive_relay.Repos.{
  Aliases, kind_workspace_map, alias_of, repo_aliases, mapped_kind, is_alias_url, starts_with_any,
}

-- The URLs behind the names of an allowlist, and behind the prefixes of kinds.
pub listed : String → Aliases → Bool
listed url [] = false
listed url ((_, none) ∷ more) = listed url more
listed url ((_, some u) ∷ more) = (u =ₛ url) || listed url more

pub mapped : String → List (List String × Option String) → Bool
mapped url [] = false
mapped url ((_, none) ∷ more) = mapped url more
mapped url ((_, some u) ∷ more) = (u =ₛ url) || mapped url more

-- The URLs that the operator lists.
abbrev pub allowed : Env → String → Bool
allowed env url = listed url (repo_aliases env) || mapped url kind_workspace_map

-- Nothing, or a URL that is allowed.
abbrev pub AllowedIfAny : Env → Option String → Type 0
AllowedIfAny env none = Unit
AllowedIfAny env (some url) = allowed env url ≡ true

pub listed-alias_of :
    (name url : String) (aliases : Aliases)
    → alias_of name aliases ≡ some (some url)
    → listed url aliases ≡ true
unfolding listed alias_of
listed-alias_of name url [] h = absurd (cc h)
listed-alias_of name url ((n, none) ∷ more) h = ground (arith, h, listed-alias_of name url more)
listed-alias_of name url ((n, some u) ∷ more) h =
    ground (arith, h, listed-alias_of name url more, eq_iff u url)

pub listed-is_alias_url :
    (url : String) (aliases : Aliases) → is_alias_url url aliases ≡ true → listed url aliases ≡ true
unfolding listed is_alias_url
listed-is_alias_url url [] h = h
listed-is_alias_url url ((n, none) ∷ more) h = listed-is_alias_url url more h
listed-is_alias_url url ((n, some u) ∷ more) h = ground (arith, h, listed-is_alias_url url more)

pub mapped-mapped_kind :
    (kind url : String) (rows : List (List String × Option String))
    → mapped_kind kind rows ≡ some url
    → mapped url rows ≡ true
unfolding mapped mapped_kind
mapped-mapped_kind kind url [] h = absurd (cc h)
mapped-mapped_kind kind url ((ps, none) ∷ more) h = elim (Bool-cases (starts_with_any kind ps)) [
  | inl fits ↦ absurd (ground (arith, h, fits))
  | inr differs ↦ mapped-mapped_kind kind url more (ground (arith, h, differs))
]
mapped-mapped_kind kind url ((ps, some u) ∷ more) h = elim (Bool-cases (starts_with_any kind ps)) [
  | inl fits ↦ ground (arith, h, fits, eq_iff u url)
  | inr differs ↦ ground (arith, mapped-mapped_kind kind url more (ground (arith, h, differs)))
]

pub allowed-listed :
    (env : Env) (url : String) → listed url (repo_aliases env) ≡ true → allowed env url ≡ true
allowed-listed env url h = rw h refl

pub allowed-mapped :
    (env : Env) (url : String) → mapped url kind_workspace_map ≡ true → allowed env url ≡ true
allowed-mapped env url h = ground (arith, h)
