-- ===== src/Executors.antt =====
-- node_relay/node_poller.py: the chat executors, and the choice between them and the one that edits
-- repositories.
pub mod Fallback
use worker_hive_relay.Prelude.{
  ℕ, suc, char_count, String, ◌<>◌, Bool, true, false, not, ◌||◌, Option, none, some, List, [], ◌∷◌,
  ◌++◌, ◌=ₛ◌, if◌then◌else◌,
}
use worker_hive_relay.Exec.{
  Error, Result, ok, err, fail, Exec, pure, lift, raise, ◌>>=◌, runtime_error, type_error,
  key_error, other, system_exit,
}
use worker_hive_relay.Value.{
  Value, null, bool, num, str, arr, obj, Items, nil, cons, Fields, empty, field, get, get_null,
  get_or, truthy,
}
use worker_hive_relay.Hive.{Request, Response, Bus, raised_for_status, or_else}
use worker_hive_relay.Repos.{Python, text_of, noncommit_prefixes, starts_with_any}

-- A question to a model: the arguments of `complete` that the code passes on.
pub record Question : Type 0 where
  pub system : String
  pub user : Value
  pub model : Value

-- `OpenAIChatExecutor`, over the network.
pub record Chat : Type 0 where
  pub base : String
  pub api_key : String
  pub default_model : String
  pub label : String

-- `{"role": ..., "content": ...}`
abbrev pub chat_message : (role : String) → (content : Value) → Value
chat_message role content = obj (field "role" (str role) (field "content" content empty))

abbrev pub chat_request : Chat → Question → Request
chat_request chat q = record {
  method = "POST";
  url = chat.base <> "/chat/completions";
  params = empty;
  json = field "model" (or_else q.model (str chat.default_model)) (
      field "messages"
        (arr (cons (chat_message "system" (str q.system)) (cons (chat_message "user" q.user) nil)))
        empty);
  bearer = if chat.api_key =ₛ "" then null else str chat.api_key;
}

-- `v[k]` on a dictionary, and `v[0]` on a list.
abbrev pub at_key : String → Value → Result Value
at_key k (obj d) = elim (get k d) [ none ↦ fail key_error k | some v ↦ ok v ]
at_key k _ = fail type_error "not subscriptable by a text"

abbrev pub first_of : Value → Result Value
first_of (arr (cons v _)) = ok v
first_of (arr nil) = fail other "list index out of range"
first_of (obj _) = fail key_error "0"
first_of (str s) = if s =ₛ "" then fail other "string index out of range" else ok (str s)
first_of _ = fail type_error "not subscriptable"

abbrev pub then_value : Result Value → (Value → Result Value) → Result Value
then_value (err e) f = err e
then_value (ok v) f = f v

-- `resp.json()["choices"][0]["message"]["content"]`
unfoldable pub content_of : Option Value → Result Value
content_of none = fail other "malformed JSON"
content_of (some v) = then_value (at_key "choices" v) (λ choices.
    then_value (first_of choices)
      (λ choice. then_value (at_key "message" choice) (at_key "content")))

abbrev pub reply_of : Option Response → Result Value
reply_of none = fail other "request failed"
reply_of (some r) = content_of r.json

-- `OpenAIChatExecutor.complete`
unfoldable pub complete_chat : (N : Bus) → Chat → Question → Exec N.State Value
unfolding content_of
complete_chat N chat q s =
    if chat.base =ₛ ""
    then (fail runtime_error ("executor " <> (chat.label <> " has no endpoint configured")), s)
    else (
      reply_of (raised_for_status (N.send (chat_request chat q) s).0),
      (N.send (chat_request chat q) s).1,
    )

-- `"\n\n".join(c["content"] for c in job.get("context", []))`
abbrev pub content_text : Value → Result String
content_text (obj d) = elim (get "content" d) [
  | none ↦ fail key_error "content"
  | some (str text) ↦ ok text
  | some _ ↦ fail type_error "sequence item: expected str instance"
]
content_text _ = fail type_error "indices must be integers"

abbrev pub then_text : String → Result String → Result String
then_text text (err e) = err e
then_text text (ok rest) = ok (text <> ("\n\n" <> rest))

unfoldable pub join_contents : Items → Result String
join_contents nil = ok ""
join_contents (cons c nil) = content_text c
join_contents (cons c (cons d ds)) =
    let rest = join_contents (cons d ds) in
    elim (content_text c) [ err e ↦ err e | ok text ↦ then_text text rest ]

abbrev pub context_text : Value → Result String
context_text (arr items) = join_contents items
context_text (obj empty) = ok ""
context_text (obj (field _ _ _)) = fail type_error "indices must be integers"
context_text (str s) = if s =ₛ "" then ok "" else fail type_error "indices must be integers"
context_text _ = fail type_error "object is not iterable"

-- `len(out)`
unfoldable pub value_count : Items → ℕ
value_count nil = 0
value_count (cons v vs) = suc (value_count vs)

unfoldable pub field_count : Fields → ℕ
field_count empty = 0
field_count (field k v d) = suc (field_count d)

abbrev pub size_of : Value → Result ℕ
size_of (str s) = ok (char_count s)
size_of (arr items) = ok (value_count items)
size_of (obj d) = ok (field_count d)
size_of _ = fail type_error "object has no len()"

abbrev pub system_prompt : (context : String) → String
system_prompt context =
    if context =ₛ ""
    then "You are a remote node coding worker."
    else "You are a remote node coding worker. Use the provided MNEMOS context.\n\nCONTEXT:\n"
      <> context

abbrev pub chat_result : Chat → Fields → (model out : Value) → ℕ → Fields
chat_result chat job model out size = field "commit_sha" null (
    field "branch" (get_null "branch" job) (
      field "metrics"
        (obj (
          field "backend" (str chat.label)
            (field "model" model (field "output_chars" (num size) (field "output" out empty)))))
        empty))

-- `OpenAIChatExecutor.execute`
unfoldable pub execute_chat : (N : Bus) → Chat → Fields → Exec N.State Fields
unfolding complete_chat join_contents value_count field_count
execute_chat N chat job = do
  let model = or_else (get_null "model" job) (str chat.default_model)
  context ← lift (context_text (get_or "context" (arr nil) job))
  prompt ← lift (at_key "prompt" (obj job))
  out ←
      complete_chat N chat (record { system = system_prompt context; user = prompt; model = model })
  size ← lift (size_of out)
  pure (chat_result chat job model out size)

-- One backend of a chain: its name, `complete` and `execute`.
pub record ChatBackend (S : Type 0) : Type 0 where
  pub name : String
  pub complete : Question → Exec S Value
  pub execute : Fields → Exec S Fields

unfoldable pub has_failed : String → List String → Bool
has_failed name [] = false
has_failed name (n ∷ ns) = (name =ₛ n) || has_failed name ns

-- `" | ".join(errors)`
unfoldable pub join_errors : List String → String
join_errors [] = ""
join_errors (e ∷ []) = e
join_errors (e ∷ f ∷ es) = e <> (" | " <> join_errors (f ∷ es))

abbrev pub all_failed : {A : Type 0} → List String → Result A
all_failed errors = fail runtime_error ("all executors failed: " <> join_errors errors)

module _ {S : Type 0} where
  -- `begin_job` and `end_job` clear `_failed_for_job`, the second part of the state.
  abbrev pub begin_job : Exec (S × List String) (Unit {0})
  begin_job (s, failed) = (ok tt, (s, []))

  -- `FallbackExecutor.complete`: the rest of the chain, with the errors so far.
  abbrev pub after_try :
      String
      → List String
      → (List String → List String → S → Result Value × (S × List String))
      → (failed : List String) → Result Value
      → S
      → Result Value × (S × List String)
  after_try name errors rest failed (ok v) s = (ok v, (s, failed))
  after_try name errors rest failed (err e) s =
      rest (errors ++ ((name <> (": " <> e.message)) ∷ [])) (name ∷ failed) s

  unfoldable pub try_chain :
      List (ChatBackend S)
      → Question
      → (errors failed : List String) → S
      → Result Value × (S × List String)
  unfolding has_failed join_errors
  try_chain [] q errors failed s = (all_failed errors, (s, failed))
  try_chain (b ∷ bs) q errors failed s =
      let rest = try_chain bs q in
      if has_failed b.name failed
      then rest errors failed s
      else after_try b.name errors rest failed (b.complete q s).0 (b.complete q s).1

  -- `FallbackExecutor.complete`
  unfoldable pub complete_fallback : List (ChatBackend S) → Question → Exec (S × List String) Value
  unfolding try_chain
  complete_fallback chain q (s, failed) = try_chain chain q [] failed s

  -- `FallbackExecutor.execute`
  abbrev pub after_run :
      String → List String → (List String → Exec S Fields) → Result Fields → Exec S Fields
  after_run name errors rest (ok d) s = (ok d, s)
  after_run name errors rest (err e) s = rest (errors ++ ((name <> (": " <> e.message)) ∷ [])) s

  unfoldable pub run_chain : List (ChatBackend S) → Fields → (errors : List String) → Exec S Fields
  unfolding join_errors
  run_chain [] job errors s = (all_failed errors, s)
  run_chain (b ∷ bs) job errors s =
      let rest = run_chain bs job in
      after_run b.name errors rest (b.execute job s).0 (b.execute job s).1

  -- `DispatchingExecutor.execute`
  unfoldable pub dispatch : Python → (chat repo : Fields → Exec S Fields) → Fields → Exec S Fields
  dispatch py chat repo job =
      if starts_with_any (text_of py (get_null "kind" job)) noncommit_prefixes
      then chat job
      else repo job

-- `_make_chat_executor(name)`: the names of the chain, in their order.
unfoldable pub chat_chain : String → Result (List String)
chat_chain name =
    if name =ₛ "local"
    then ok ("local" ∷ [])
    else if name =ₛ "cloud"
    then ok ("cloud" ∷ [])
    else if name =ₛ "local+cloud" || name =ₛ "auto"
    then ok ("local" ∷ "cloud" ∷ [])
    else if name =ₛ "cloud+local"
    then ok ("cloud" ∷ "local" ∷ [])
    else fail system_exit ("unknown executor " <> name)
