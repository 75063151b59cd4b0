-- ===== src/Enqueuer/Payload.antt =====
-- node_relay/enqueuer.py: `build_payload`, the job that the node will execute, with its context.
use worker_hive_relay.Prelude.{
  ℕ, ◌+◌, suc, String, Bool, true, false, ◌&&◌, ◌||◌, none, some, List, [], ◌∷◌, ◌++◌, leb, ltb,
  ◌==◌, ◌=ₛ◌, if◌then◌else◌, strip, lower, utf8, length,
}
use worker_hive_relay.Env.{Env, env_of}
use worker_hive_relay.Exec.{
  Result, ok, err, fail, Exec, pure, lift, ◌>>=◌, value_error, type_error, key_error,
  attribute_error,
}
use worker_hive_relay.Value.{
  ℤ, pos, negsuc, Value, null, bool, num, str, arr, obj, Items, nil, cons, Fields, empty, field,
  get, get_or, get_null, equals_str,
}
use worker_hive_relay.Hive.{Bus, Bridge, or_else}
use worker_hive_relay.Repos.{Python}
use worker_hive_relay.Mnemos.{Mnemos, mnemos_search, mnemos_get}

-- The module's surroundings: MNEMOS, `str` on values, and `int` on texts.
pub record Setup : Type 0 where
  pub env : Env
  pub mnemos : Mnemos
  pub py : Python
  pub parse_int : String → Result ℤ

-- CONTEXT_LIMIT
abbrev pub context_limit : ℕ
context_limit = 6

-- `x > 0 and n >= x`
abbrev pub reaches : ℕ → ℤ → Bool
reaches n (negsuc _) = false
reaches n (pos x) = ltb 0 x && leb x n

abbrev pub non_negative : ℤ → Result ℕ
non_negative (pos n) = ok n
non_negative (negsuc _) = fail value_error "NODE_RELAY_MAX_MNEMOS_REFS must be non-negative"

abbrev pub positive : ℤ → Result ℕ
positive (negsuc _) = fail value_error "NODE_RELAY_MAX_CONTEXT_BYTES must be positive"
positive (pos n) =
    if n == 0 then fail value_error "NODE_RELAY_MAX_CONTEXT_BYTES must be positive" else ok n

unfoldable pub item_count : Items → ℕ
item_count nil = 0
item_count (cons v vs) = suc (item_count vs)

-- `refs` of the job: a list, or nothing.
abbrev pub list_of : Value → Result Items
list_of (arr items) = ok items
list_of null = fail value_error "mnemos_refs must be a list"
list_of (bool _) = fail value_error "mnemos_refs must be a list"
list_of (num _) = fail value_error "mnemos_refs must be a list"
list_of (str _) = fail value_error "mnemos_refs must be a list"
list_of (obj _) = fail value_error "mnemos_refs must be a list"

-- `len(memory.get("content", "").encode("utf-8"))`
abbrev pub encoded_size : Value → Result ℕ
encoded_size (str text) = ok (length (utf8 text))
encoded_size _ = fail attribute_error "object has no attribute 'encode'"

unfoldable pub content_bytes : Fields → Result ℕ
content_bytes memory = encoded_size (get_or "content" (str "") memory)

-- Equality of values that are hashable: texts, numbers, truth values and None; a truth value is the
-- number 0 or 1.
abbrev pub as_number : Bool → ℕ
as_number b = if b then 1 else 0

abbrev pub same_key : Value → Value → Bool
same_key (str s) w = equals_str w s
same_key null null = true
same_key null _ = false
same_key (num n) (num k) = n == k
same_key (num n) (bool b) = n == as_number b
same_key (num n) _ = false
same_key (bool b) (num k) = as_number b == k
same_key (bool b) (bool c) = as_number b == as_number c
same_key (bool b) _ = false
same_key (arr _) _ = false
same_key (obj _) _ = false

abbrev pub is_hashable : Value → Bool
is_hashable (arr _) = false
is_hashable (obj _) = false
is_hashable _ = true

abbrev pub hashed : Value → Result Value
hashed v = if is_hashable v then ok v else fail type_error "unhashable type"

-- `{memory.get("id") for memory in exact_context}`
unfoldable pub exact_ids : List Fields → Result (List Value)
exact_ids [] = ok []
exact_ids (memory ∷ more) =
    let rest = exact_ids more in
    elim (hashed (get_null "id" memory)) [
      | err e ↦ err e
      | ok id ↦ elim rest [ err e ↦ err e | ok ids ↦ ok (id ∷ ids) ]
    ]

unfoldable pub known_id : Value → List Value → Bool
known_id v [] = false
known_id v (w ∷ ws) = same_key v w || known_id v ws

-- The context so far and its bytes, both loops' state.
abbrev pub Context : Type 0
Context = List Fields × ℕ

abbrev pub added : (limit : ℕ) → Fields → Context → Result ℕ → Result Context
added limit memory context (err e) = err e
added limit memory (memories, bytes) (ok n) =
    if ltb limit (bytes + n)
    then fail value_error "MNEMOS context exceeds the limit of UTF-8 bytes"
    else ok (memories ++ (memory ∷ []), bytes + n)

-- `context_bytes += ...`, the test, and `append(memory)`.
abbrev pub add_memory : (limit : ℕ) → Fields → Context → Result Context
add_memory limit memory context = added limit memory context (content_bytes memory)

-- The loop over the results of a search.
abbrev pub add_row : (limit : ℕ) → List Value → Fields → Context → Result Value → Result Context
add_row limit ids memory context (err e) = err e
add_row limit ids memory context (ok id) =
    if known_id id ids then ok context else add_memory limit memory context

abbrev pub then_rows : (Context → Result Context) → Result Context → Result Context
then_rows more (err e) = err e
then_rows more (ok context) = more context

abbrev pub row_of : Value → Fields
row_of (obj d) = d
row_of _ = empty

unfoldable pub add_rows : (limit : ℕ) → List Value → Items → Context → Result Context
unfolding known_id content_bytes
add_rows limit ids nil context = ok context
add_rows limit ids (cons row rows) context =
    then_rows (add_rows limit ids rows)
      (add_row limit ids (row_of row) context (hashed (get_null "id" (row_of row))))

module _ (setup : Setup) where
  -- `int(_env(name, default=...))`
  abbrev pub int_env : (name default : String) → Result ℤ
  int_env name default = elim (env_of setup.env (name ∷ []) (some default)) [
    | none ↦ fail type_error "int() argument must be a string"
    | some text ↦ setup.parse_int text
  ]

  abbrev pub bounded : (ℤ → Result ℕ) → Result ℤ → Result ℕ
  bounded check (err e) = err e
  bounded check (ok n) = check n

  -- NODE_RELAY_CONTEXT_MODE
  abbrev pub context_mode : String
  context_mode = lower (
      strip (elim (env_of setup.env ("NODE_RELAY_CONTEXT_MODE" ∷ []) (some "semantic")) [
        | none ↦ ""
        | some mode ↦ mode
      ]))

  abbrev pub checked_mode : Result String
  checked_mode =
      if context_mode =ₛ "semantic"
        || context_mode =ₛ "fts"
        || context_mode =ₛ "exact"
        || context_mode =ₛ "off"
      then ok context_mode
      else fail value_error "NODE_RELAY_CONTEXT_MODE must be semantic, fts, exact, or off"

  -- `refs`, under NODE_RELAY_MAX_MNEMOS_REFS.
  abbrev pub capped_refs : Items → Result ℕ → Result Items
  capped_refs refs (err e) = err e
  capped_refs refs (ok most) =
      if ltb most (item_count refs)
      then fail value_error "mnemos_refs has more entries than the limit"
      else ok refs

  abbrev pub refs_under : Result Items → Result Items
  refs_under (err e) = err e
  refs_under (ok refs) =
      capped_refs refs (bounded non_negative (int_env "NODE_RELAY_MAX_MNEMOS_REFS" "16"))

  abbrev pub refs_of : (mode : String) → Fields → Result Items
  refs_of mode job =
      refs_under
        (if mode =ₛ "off" then ok nil else list_of (or_else (get_null "mnemos_refs" job) (arr nil)))

  abbrev pub max_context_bytes : Result ℕ
  max_context_bytes = bounded positive (int_env "NODE_RELAY_MAX_CONTEXT_BYTES" "2097152")

  abbrev pub prompt_of : Fields → Value
  prompt_of job =
      or_else (get_null "prompt" job)
        (or_else (get_null "task" job) (get_or "description" (str "") job))

  -- The model that Hive selected, if it did.
  abbrev pub selected_model : Value → Value
  selected_model model = if equals_str model "" || equals_str model "unknown" then null else model

  abbrev pub execution_model : Value → Value
  execution_model (obj resources) = selected_model (get_null "model" resources)
  execution_model _ = null

  abbrev pub context_items : List Fields → Items
  context_items [] = nil
  context_items (d ∷ ds) = cons (obj d) (context_items ds)

  abbrev pub job_id_of : Fields → Result Value
  job_id_of job = elim (get "id" job) [ none ↦ fail key_error "id" | some v ↦ ok v ]

  abbrev pub payload_of : Fields → (job_id : Value) → List Fields → Fields
  payload_of job job_id context = field "job_id" job_id (
      field "kind" (get_null "kind" job) (
        field "prompt" (prompt_of job) (
          field "model" (execution_model (or_else (get_null "claimed_resources" job) (obj empty))) (
            field "workspace" (or_else (get_null "target_workspace" job) (get_null "project" job)) (
              field "repo" (get_null "repo" job) (
                field "branch" (get_null "branch" job) (
                  field "context" (arr (context_items context)) (
                    field "meta"
                      (obj (
                        field "submitter" (get_null "submitter_urn" job)
                          (field "priority" (get_null "priority" job) empty)))
                      empty))))))))

  abbrev pub is_enough : Context → (count bytes : ℤ) → Bool
  is_enough (memories, total) count bytes = reaches (length memories) count || reaches total bytes

  module _ {N : Bus} where
    -- The loop over the exact references.
    unfoldable pub add_refs : (limit : ℕ) → Items → Context → Exec (Bridge N) Context
    unfolding mnemos_get content_bytes
    add_refs limit nil context = pure context
    add_refs limit (cons id ids) context = do
      memory ← mnemos_get setup.mnemos id
      more ← lift (add_memory limit memory context)
      add_refs limit ids more

    -- The search, unless the exact context is enough.
    abbrev pub searched : (mode : String) (enough : Bool) → (prompt : Value) → Exec (Bridge N) Items
    searched mode enough prompt =
        if enough
        then pure nil
        else if mode =ₛ "semantic"
        then mnemos_search setup.mnemos prompt context_limit true
        else if mode =ₛ "fts"
        then mnemos_search setup.mnemos prompt context_limit false
        else pure nil

    -- The context of a job: what it refers to, then what a search finds.
    unfoldable pub gather_context :
        (mode : String) (limit : ℕ) → (refs : Items) → (prompt : Value) → Exec (Bridge N) Context
    unfolding add_refs exact_ids mnemos_search add_rows
    gather_context mode limit refs prompt = do
      exact ← add_refs limit refs ([], 0)
      ids ← lift (exact_ids exact.0)
      count ← lift (int_env "NODE_RELAY_CONTEXT_SKIP_SEARCH_AT_COUNT" "0")
      bytes ← lift (int_env "NODE_RELAY_CONTEXT_SKIP_SEARCH_AT_BYTES" "0")
      rows ← searched mode (is_enough exact count bytes) prompt
      lift (add_rows limit ids rows exact)

    -- `build_payload(job)`
    unfoldable pub build_payload : Fields → Exec (Bridge N) Fields
    unfolding gather_context item_count env_of
    build_payload job = do
      mode ← lift checked_mode
      refs ← lift (refs_of mode job)
      limit ← lift max_context_bytes
      context ← gather_context mode limit refs (prompt_of job)
      job_id ← lift (job_id_of job)
      pure (payload_of job job_id context.0)
