-- ===== src/Hive/Register.antt =====
-- What a registration leaves in the client.
use worker_hive_relay.Prelude.{
  String, ◌≡◌, inl, inr, Bool-cases, Option-cases, true, false, Option, none, some, ◌=ₛ◌,
}
use worker_hive_relay.Exec.{Result, ok, err, hive_registration_error}
use worker_hive_relay.Value.{Value, null, bool, num, str, arr, obj, Fields, get_null}
use worker_hive_relay.Hive.{
  Bus, Bridge, Response, is_token, adopt_token, adopt_urn, adopt, adopt_response, register,
}

-- What a registration gives: it returns with a URN that is not empty and a token that is null or
-- not an empty text, or it raises a HiveRegistrationError.
pub data Registered {N : Bus} : Result (Unit {0}) × Bridge N → Type 0 where
  registered :
      (w : Bridge N)
      → (w.hive.urn =ₛ "") ≡ false
      → is_token w.hive.agent_token ≡ true
      → Registered (ok tt, w)
  rejected :
      (message : String) (w : Bridge N)
      → Registered (err (record { kind = hive_registration_error; message = message }), w)

module _ {N : Bus} where
  adopt_token-Registered :
      (token : Value) (w : Bridge N) → (w.hive.urn =ₛ "") ≡ false → Registered (adopt_token token w)
  unfolding adopt_token
  adopt_token-Registered token w named = elim (Bool-cases (is_token token)) [
    | inl good ↦
        rw good (registered (record w { hive = record w.hive { agent_token = token } }) named good)
    | inr bad ↦ rw bad (rejected _ w)
  ]

  adopt_urn-Registered :
      (content : Fields) (v : Value) (w : Bridge N) → Registered (adopt_urn content v w)
  unfolding adopt_urn
  adopt_urn-Registered content (str u) w = elim (Bool-cases (u =ₛ "")) [
    | inl e ↦ rw e (rejected _ w)
    | inr named ↦ rw named (
        adopt_token-Registered (get_null "agent_token" content)
          (record w { hive = record w.hive { urn = u } }) named)
  ]
  adopt_urn-Registered content null w = rejected _ w
  adopt_urn-Registered content (bool _) w = rejected _ w
  adopt_urn-Registered content (num _) w = rejected _ w
  adopt_urn-Registered content (arr _) w = rejected _ w
  adopt_urn-Registered content (obj _) w = rejected _ w

  adopt-Registered : (v : Value) (w : Bridge N) → Registered (adopt v w)
  unfolding adopt
  adopt-Registered (obj content) w = adopt_urn-Registered content (get_null "urn" content) w
  adopt-Registered null w = rejected _ w
  adopt-Registered (bool _) w = rejected _ w
  adopt-Registered (num _) w = rejected _ w
  adopt-Registered (str _) w = rejected _ w
  adopt-Registered (arr _) w = rejected _ w

  response-Registered : (r : Option Response) (w : Bridge N) → Registered (adopt_response r w)
  unfolding adopt_response
  response-Registered none w = rejected _ w
  response-Registered (some r) w = elim (Option-cases r.json) [
    | inl malformed ↦ rw malformed (rejected _ w)
    | inr (content, parsed) ↦ rw parsed (adopt-Registered content w)
  ]

  -- Whatever the bus answers, a registration returns with a URN that is not empty and a token
  -- that is null or not an empty text, or it raises a HiveRegistrationError.
  pub register-Registered : (metadata : Fields) (w : Bridge N) → Registered (register metadata w)
  unfolding register
  register-Registered metadata w = response-Registered _ _
