-- ===== src/Hive.antt =====
-- node_relay/bridge_common.py: `HiveClient`, the client of the job bus.
-- The bus is a parameter: what it answers to a request, and what it remembers, is its own.
pub mod Patch
pub mod Register
pub mod Recorded
use worker_hive_relay.Prelude.{
  ℕ, String, ◌<>◌, ◌≡◌, Bool, true, false, not, ◌&&◌, ◌||◌, Option, none, some, List, [], ◌∷◌, ltb,
  leb, ◌==◌, ◌=ₛ◌, if◌then◌else◌,
}
use worker_hive_relay.Exec.{
  Error, Result, ok, err, Exec, pure, raise, gets, ◌>>=◌, ◌>>◌, hive_claim_error,
  hive_registration_error,
}
use worker_hive_relay.Value.{
  Value, null, bool, num, str, arr, obj, Items, nil, cons, Fields, empty, field, get_null, put,
  update, truthy, equals_str,
}

-- A request of the session: the parts that the code sets. `bearer` is the token of an
-- `Authorization` header of this request, a null for none.
pub record Request : Type 0 where
  pub method : String
  pub url : String
  pub params : Fields
  pub json : Fields
  pub bearer : Value

-- A response; `json` is `none` where `resp.json()` is a ValueError.
pub record Response : Type 0 where
  pub status_code : ℕ
  pub json : Option Value

-- The bus: `none` is a RequestException.
pub record Bus : Type 1 where
  pub State : Type 0
  pub send : Request → State → Option Response × State

-- `HiveClient`.
pub record HiveClient : Type 0 where
  pub base : String
  pub urn : String
  pub runtime : String
  pub kind : String
  pub host : String
  pub capabilities : Items
  pub provider : String
  pub model : String
  pub agent_token : Value

-- The client and the bus behind it.
pub record Bridge (N : Bus) : Type 0 where
  pub hive : HiveClient
  pub bus : N.State

-- `_agent_headers(agent_token)`: the token that is sent.
abbrev pub agent_headers : Value → Value
agent_headers token = if truthy token then token else null

-- `a or b`.
abbrev pub or_else : Value → Value → Value
or_else a b = if truthy a then a else b

-- `200 <= code < 300`.
abbrev pub is_success : ℕ → Bool
is_success code = leb 200 code && ltb code 300

-- `code is not None and 200 <= code < 300`.
abbrev pub accepted : Option ℕ → Bool
accepted none = false
accepted (some code) = is_success code

abbrev pub status_of : Option Response → Option ℕ
status_of none = none
status_of (some r) = some r.status_code

-- A response that `raise_for_status` lets through.
abbrev pub raised_for_status : Option Response → Option Response
raised_for_status none = none
raised_for_status (some r) = if leb 400 r.status_code then none else some r

-- The dictionary `json=` of `patch_status_code`.
abbrev pub patch_body : HiveClient → String → Option Fields → Value → Fields
patch_body h status result claimed_by =
    let body =
      field "status" (str status) (field "claimed_by" (or_else claimed_by (str h.urn)) empty) in
    elim result [ none ↦ body | some r ↦ put "result" (obj r) body ]

-- The token of `patch_status_code`: the caller's, or the client's own where it is the claimant.
abbrev pub is_own : HiveClient → Value → Bool
is_own h null = true
is_own h (str s) = s =ₛ h.urn
is_own h _ = false

abbrev pub patch_token : HiveClient → Value → Value → Value
patch_token h claimed_by agent_token =
    or_else agent_token (if is_own h claimed_by then h.agent_token else null)

abbrev pub patch_request : HiveClient → String → String → Option Fields → Value → Value → Request
patch_request h job_id status result claimed_by agent_token = record {
  method = "PATCH";
  url = h.base <> ("/v1/jobs/" <> job_id);
  params = empty;
  json = patch_body h status result claimed_by;
  bearer = agent_headers (patch_token h claimed_by agent_token);
}

abbrev register_body : HiveClient → Fields → Fields
register_body h metadata = field "urn" (str h.urn) (
    field "runtime" (str h.runtime) (
      field "kind" (str h.kind) (
        field "host" (str h.host) (
          field "provider" (str h.provider) (
            field "model" (str h.model) (
              field "capabilities" (arr h.capabilities) (
                field "autonomy_level" (str "autonomous") (
                  field "metadata"
                    (obj (update (field "role" (str "mnemos-node-relay-bridge") empty) metadata))
                    empty))))))))

-- The body of a heartbeat; no metadata and an empty one are the same.
abbrev heartbeat_body : Value → String → Fields → Fields
heartbeat_body urn status metadata =
    let body = field "urn" urn (field "status" (str status) empty) in
    if truthy (obj metadata) then put "metadata" (obj metadata) body else body

-- `agent_token if urn is not None else (agent_token or self.agent_token)`.
abbrev heartbeat_token : HiveClient → Value → Value → Value
heartbeat_token h null agent_token = or_else agent_token h.agent_token
heartbeat_token h _ agent_token = agent_token

-- The check of `agent_token` in a registration: a null or a text that is not empty.
abbrev pub is_token : Value → Bool
is_token null = true
is_token (str t) = not (t =ₛ "")
is_token _ = false

module _ {N : Bus} where
  -- One request, sent.
  abbrev pub send : Request → Exec (Bridge N) (Option Response)
  send r w = (ok (N.send r w.bus).0, record w { bus = (N.send r w.bus).1 })

  abbrev pub set_urn : String → Exec (Bridge N) (Unit {0})
  set_urn u w = (ok tt, record w { hive = record w.hive { urn = u } })

  abbrev pub set_token : Value → Exec (Bridge N) (Unit {0})
  set_token t w = (ok tt, record w { hive = record w.hive { agent_token = t } })

  -- `register`, from the answer on: the URN is adopted before the token is checked.
  adopt_token : Value → Exec (Bridge N) (Unit {0})
  adopt_token token =
      if is_token token
      then set_token token
      else raise hive_registration_error "register response included an invalid agent token"

  adopt_urn : Fields → Value → Exec (Bridge N) (Unit {0})
  unfolding adopt_token
  adopt_urn content (str assigned) =
      if assigned =ₛ ""
      then raise hive_registration_error "register response did not include an assigned urn"
      else (do set_urn assigned; adopt_token (get_null "agent_token" content))
  adopt_urn content _ =
      raise hive_registration_error "register response did not include an assigned urn"

  adopt : Value → Exec (Bridge N) (Unit {0})
  unfolding adopt_urn
  adopt (obj content) = adopt_urn content (get_null "urn" content)
  adopt _ = raise hive_registration_error "register response was not an object"

  adopt_response : Option Response → Exec (Bridge N) (Unit {0})
  unfolding adopt
  adopt_response none = raise hive_registration_error "hive register failed"
  adopt_response (some r) = elim r.json [
    | none ↦ raise hive_registration_error "hive register failed"
    | some content ↦ adopt content
  ]

  -- `register(metadata)`.
  pub register : Fields → Exec (Bridge N) (Unit {0})
  unfolding adopt_response
  register metadata = do
    h ← gets (λ (w : Bridge N). w.hive)
    r ← send (record {
      method = "POST";
      url = h.base <> "/v1/agents/register";
      params = empty;
      json = register_body h metadata;
      bearer = null;
    })
    adopt_response (raised_for_status r)

  heartbeat_answer : Bool → Option Response → Exec (Bridge N) Bool
  heartbeat_answer required (some _) = pure true
  heartbeat_answer required none =
      if required then raise hive_claim_error "hive heartbeat failed" else pure false

  -- `heartbeat(status, metadata, urn=, agent_token=, required=)`; a null stands for None.
  unfoldable pub heartbeat :
      String → Fields → (urn agent_token : Value) → (required : Bool) → Exec (Bridge N) Bool
  unfolding heartbeat_answer
  heartbeat status metadata urn agent_token required = do
    h ← gets (λ (w : Bridge N). w.hive)
    r ← send (record {
      method = "POST";
      url = h.base <> "/v1/agents/heartbeat";
      params = empty;
      json = heartbeat_body (or_else urn (str h.urn)) status metadata;
      bearer = agent_headers (heartbeat_token h urn agent_token);
    })
    heartbeat_answer required (raised_for_status r)

  unfoldable pub claimed_job : Option Value → Exec (Bridge N) (Option Fields)
  claimed_job none = raise hive_claim_error "claim_next returned malformed JSON"
  claimed_job (some (obj (field k v d))) = pure (some (field k v d))
  claimed_job (some _) = raise hive_claim_error "claim_next returned an invalid job payload"

  unfoldable pub claim_answer : Option Response → Exec (Bridge N) (Option Fields)
  unfolding claimed_job
  claim_answer none = raise hive_claim_error "claim_next transport failure"
  claim_answer (some r) =
      if r.status_code == 204
      then pure none
      else if leb 400 r.status_code
      then raise hive_claim_error "claim_next HTTP error"
      else claimed_job r.json

  -- `claim_next()`.
  unfoldable pub claim_next : Exec (Bridge N) (Option Fields)
  unfolding claim_answer
  claim_next = do
    h ← gets (λ (w : Bridge N). w.hive)
    r ← send (record {
      method = "POST";
      url = h.base <> "/v1/jobs/next";
      params = field "agent_urn" (str h.urn) empty;
      json = empty;
      bearer = agent_headers h.agent_token;
    })
    claim_answer r

  -- `patch_status_code(job_id, status, result=, claimed_by=, agent_token=)`.
  unfoldable pub patch_status_code :
      String
      → String
      → Option Fields
      → (claimed_by agent_token : Value) → Exec (Bridge N) (Option ℕ)
  patch_status_code job_id status result claimed_by agent_token = do
    h ← gets (λ (w : Bridge N). w.hive)
    r ← send (patch_request h job_id status result claimed_by agent_token)
    pure (status_of r)

  -- `patch_status(...)`.
  unfoldable pub patch_status :
      String → String → Option Fields → (claimed_by agent_token : Value) → Exec (Bridge N) Bool
  unfolding patch_status_code
  patch_status job_id status result claimed_by agent_token = do
    code ← patch_status_code job_id status result claimed_by agent_token
    pure (accepted code)
