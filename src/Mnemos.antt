-- ===== src/Mnemos.antt =====
-- node_relay/bridge_common.py: `mnemos_search` and `mnemos_get`, over the network of `Bus`.
use worker_hive_relay.Prelude.{
  ℕ, ◌-◌, ◌*◌, zero, suc, min, String, ◌<>◌, Bool, Option, none, some, ◌=ₛ◌, if◌then◌else◌, strip,
}
use worker_hive_relay.Exec.{
  Result, ok, err, fail, Exec, pure, lift, raise, ◌>>=◌, mnemos_search_error, attribute_error,
}
use worker_hive_relay.Value.{
  Value, null, bool, num, str, arr, obj, Items, nil, cons, Fields, empty, field, get_null, truthy,
}
use worker_hive_relay.Hive.{Request, Response, Bus, Bridge, or_else, raised_for_status, send}

-- MNEMOS_BASE and MNEMOS_TOKEN, and `urllib.parse.quote(text, safe="")`.
pub record Mnemos : Type 0 where
  pub base : String
  pub token : String
  pub quote : String → String

-- `{"Authorization": f"Bearer {MNEMOS_TOKEN}"} if MNEMOS_TOKEN else {}`
abbrev pub mnemos_bearer : Mnemos → Value
mnemos_bearer m = if m.token =ₛ "" then null else str m.token

-- The rows of a search response; anything but a list is refused.
abbrev pub search_rows : Value → Result Items
search_rows (arr rows) = ok rows
search_rows null = fail mnemos_search_error "mnemos_search returned an invalid response payload"
search_rows (bool _) = fail mnemos_search_error "mnemos_search returned an invalid response payload"
search_rows (num _) = fail mnemos_search_error "mnemos_search returned an invalid response payload"
search_rows (str _) = fail mnemos_search_error "mnemos_search returned an invalid response payload"
search_rows (obj _) = fail mnemos_search_error "mnemos_search returned an invalid response payload"

abbrev pub search_data : Value → Result Items
search_data (obj data_fields) = search_rows (get_null "memories" data_fields)
search_data (arr rows) = ok rows
search_data null = search_rows null
search_data (bool b) = search_rows (bool b)
search_data (num n) = search_rows (num n)
search_data (str s) = search_rows (str s)

-- `{"id": ..., "content": ...}`
abbrev pub memory_of : (id content : Value) → Fields
memory_of id content = field "id" id (field "content" content empty)

-- One row of the loop: a dictionary with a content is kept.
abbrev pub kept_row : Value → Option Fields
kept_row (obj r) =
    if truthy (get_null "content" r)
    then some (memory_of (get_null "id" r) (get_null "content" r))
    else none
kept_row null = none
kept_row (bool _) = none
kept_row (num _) = none
kept_row (str _) = none
kept_row (arr _) = none

unfoldable pub kept_rows : Items → Items
kept_rows nil = nil
kept_rows (cons r rows) =
    let rest = kept_rows rows in elim (kept_row r) [ none ↦ rest | some m ↦ cons (obj m) rest ]

-- `raise_for_status()` and `json()`, whose errors are one kind for the caller.
abbrev pub json_of : String → Option Response → Result Value
json_of message none = fail mnemos_search_error message
json_of message (some r) = elim r.json [ none ↦ fail mnemos_search_error message | some v ↦ ok v ]

-- `if not isinstance(data, dict) or not isinstance(data.get("content"), str)`
abbrev pub got_content : (memory_id : String) → Fields → Value → Result Fields
got_content memory_id d (str content) =
    ok (memory_of (or_else (get_null "id" d) (str memory_id)) (str content))
got_content memory_id d null =
    fail mnemos_search_error "mnemos_get returned an invalid response payload"
got_content memory_id d (bool _) =
    fail mnemos_search_error "mnemos_get returned an invalid response payload"
got_content memory_id d (num _) =
    fail mnemos_search_error "mnemos_get returned an invalid response payload"
got_content memory_id d (arr _) =
    fail mnemos_search_error "mnemos_get returned an invalid response payload"
got_content memory_id d (obj _) =
    fail mnemos_search_error "mnemos_get returned an invalid response payload"

abbrev pub got_memory : (memory_id : String) → Value → Result Fields
got_memory memory_id (obj d) = got_content memory_id d (get_null "content" d)
got_memory memory_id _ = fail mnemos_search_error "mnemos_get returned an invalid response payload"

module _ (m : Mnemos) where
  abbrev pub search_found : Result Value → Result Items
  search_found (err e) = err e
  search_found (ok v) = elim (search_data v) [ err e ↦ err e | ok rows ↦ ok (kept_rows rows) ]

  -- `mnemos_search(query, limit, semantic=)`; a query that is no text has no `strip`.
  abbrev pub search_request : (query : String) → (limit : ℕ) → (semantic : Bool) → Request
  search_request query limit semantic = record {
    method = "POST";
    url = m.base <> "/v1/memories/search";
    params = empty;
    json =
        field "query" (str query)
          (field "limit" (num limit) (field "semantic" (bool semantic) empty));
    bearer = mnemos_bearer m;
  }

  abbrev pub get_request : (memory_id : String) → Request
  get_request memory_id = record {
    method = "GET";
    url = m.base <> ("/v1/memories/" <> m.quote memory_id);
    params = empty;
    json = empty;
    bearer = mnemos_bearer m;
  }

  abbrev pub got : (memory_id : String) → Result Value → Result Fields
  got memory_id (err e) = err e
  got memory_id (ok v) = got_memory memory_id v

module _ (m : Mnemos) {N : Bus} where
  abbrev pub search_text :
      (query : String) → (limit : ℕ) → (semantic : Bool) → Exec (Bridge N) Items
  search_text query limit semantic = do
    r ← send (search_request m query limit semantic)
    lift (search_found m (json_of "mnemos_search failed" (raised_for_status r)))

  unfoldable pub mnemos_search :
      (query : Value) → (limit : ℕ) → (semantic : Bool) → Exec (Bridge N) Items
  unfolding kept_rows
  mnemos_search (str query) limit semantic =
      if strip query =ₛ "" then pure nil else search_text query limit semantic
  mnemos_search _ limit semantic = raise attribute_error "object has no attribute 'strip'"

  abbrev pub get_text : (memory_id : String) → Exec (Bridge N) Fields
  get_text memory_id = do
    r ← send (get_request m memory_id)
    lift (got m memory_id (json_of "mnemos_get failed" (raised_for_status r)))

  -- `mnemos_get(memory_id)`
  unfoldable pub mnemos_get : (memory_id : Value) → Exec (Bridge N) Fields
  mnemos_get (str memory_id) =
      if memory_id =ₛ ""
      then raise mnemos_search_error "mnemos_get requires a non-empty memory id"
      else get_text memory_id
  mnemos_get _ = raise mnemos_search_error "mnemos_get requires a non-empty memory id"

-- `backoff_sleep(attempt, base, cap)`: how long it sleeps, in whole seconds.
pub power : ℕ → ℕ
power zero = 1
power (suc n) = 2 * power n

unfoldable pub backoff_delay : (attempt base cap : ℕ) → ℕ
unfolding power
backoff_delay attempt base cap = min cap (base * power (attempt - 1))
