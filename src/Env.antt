-- ===== src/Env.antt =====
-- The process environment, and the `_env` helper that each module of node_relay declares.
use worker_hive_relay.Prelude.{String, Option, none, some, List, [], ◌∷◌, ◌=ₛ◌, if◌then◌else◌}

-- `os.environ.get(name)`.
abbrev pub Env : Type 0
Env = String → Option String

-- `v if v else rest` for an optional text: an empty text counts as unset.
abbrev pub nonempty : Option String → Option String → Option String
nonempty none rest = rest
nonempty (some v) rest = if v =ₛ "" then rest else some v

-- The first variable that is set, or the default.
unfoldable pub env_of : Env → List String → Option String → Option String
env_of env [] default = default
env_of env (n ∷ names) default = nonempty (env n) (env_of env names default)
