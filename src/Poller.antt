-- ===== src/Poller.antt =====
-- node_relay/node_poller.py, the job loop: the claim lease, the terminal write, one job, one sweep.
-- The executor is a parameter: it stands for the model calls and the git work behind `execute`.
pub mod Frame
pub mod Sweep
pub mod Renewal
pub mod Terminal
pub mod Job
pub mod Secrecy
use worker_hive_relay.Prelude.{
  ℕ, zero, suc, ◌+◌, String, ◌<>◌, ◌≡◌, Bool, true, false, not, ◌&&◌, ◌||◌, Option, none, some,
  Bytes, leb, ◌=ₛ◌, if◌then◌else◌,
}
use worker_hive_relay.Exec.{
  Error, Result, ok, err, fail, Exec, pure, lift, raise, gets, attempt, ◌>>=◌, ◌>>◌, invalid_tag,
  crypto_error, not_found, value_error, type_error, attribute_error, key_error, hive_claim_error,
  hive_registration_error, mnemos_search_error, transient_landing, permanent_landing, runtime_error,
  system_exit, other,
}
use worker_hive_relay.Value.{
  Value, null, num, str, Fields, empty, field, get, put, remove, has, get_null, set_default, truthy,
  equals_str, nonempty_str, str_or_null,
}
use worker_hive_relay.Crypto.{aad_for, seal, open_blob}
use worker_hive_relay.Backend.{Backend}
use worker_hive_relay.Client.{
  Host, World, read_clock, as_dict, claim, renew_claim, put_active, put_terminal, get_pending,
  get_claimant,
}
use worker_hive_relay.Client.Sweep.{Turn, go, break, for_pending}

-- `_ClaimLease`: the job and worker it is for, the authenticated claimant, and the `_lost` event.
pub record Lease : Type 0 where
  pub uuid : String
  pub owner : String
  pub claimant : Option String
  pub claimant_token : Option String
  pub lost : Bool

-- What a sweep is run with: `owner`, `lease_seconds`, MAX_PER_SWEEP and MAX_SCAN_PER_SWEEP.
pub record Settings : Type 0 where
  pub owner : String
  pub lease_seconds : ℕ
  pub max_per_sweep : ℕ
  pub max_scan : ℕ

-- `Executor.execute`, and how many times the renewal thread comes round while it runs.
pub record Executor : Type 0 where
  pub execute : Fields → Result Fields
  pub beats : Fields → ℕ

abbrev pub fresh_lease : String → String → Lease
fresh_lease u o = record {
  uuid = u;
  owner = o;
  claimant = none;
  claimant_token = none;
  lost = false;
}

abbrev pub failed : String → Fields
failed message = field "status" (str "failed") (field "error" (str message) empty)

-- The guards that echo the claimant through a terminal payload.
unfoldable pub echo : String → Value → Fields → Fields
echo k v payload = if truthy v && not (has k payload) then put k v payload else payload

-- `job.get("job_id") not in (None, uuid)`.
abbrev pub names_other_job : Value → String → Bool
names_other_job null uuid = false
names_other_job (str s) uuid = not (s =ₛ uuid)
names_other_job _ uuid = true

-- The last checks of `_read_claimant`.
unfoldable pub claimant_route : Fields → Option (String × Value)
claimant_route envelope = elim (nonempty_str (get_null "claimant_urn" envelope)) [
  | none ↦ none
  | some claimant ↦ elim (get_null "claimant_token" envelope) [
    | null ↦ some (claimant, null)
    | str t ↦ if t =ₛ "" then none else some (claimant, str t)
    | _ ↦ none
  ]
]

-- `except RelayCryptoError`: the error message, or the outcome that passes.
pub data Opened : Type 0 where
  opened : Value → Opened
  undecryptable : String → Opened

unfoldable pub on_crypto_error : Result Value → Result Opened
on_crypto_error (ok v) = ok (opened v)
on_crypto_error (err e) = elim e.kind [ crypto_error ↦ ok (undecryptable e.message) | _ ↦ err e ]

-- The payload of `_publish_activity`.
unfoldable pub activity : Lease → ℕ → Fields
activity l now =
    let base = field "job_id" (str l.uuid) (
      field "claimant_urn" (str_or_null l.claimant)
        (field "owner" (str l.owner) (field "updated_at" (num now) empty))) in
    elim l.claimant_token [ none ↦ base | some t ↦ put "claimant_token" (str t) base ]

-- The outcome of a renewal attempt; an exception is a False.
abbrev pub renewed_by : Result Bool → Bool
renewed_by (ok b) = b
renewed_by (err _) = false

module _ (host : Host) (key : Bytes) {B : Backend} where
  -- `relay_crypto.seal(payload, key, aad=...)` with a fresh nonce.
  unfoldable pub seal_now : {X : Type 0} → Fields → Bytes → Exec (World B X) Bytes
  seal_now payload aad w = (
    seal host.codec host.env (host.urandom w.readings) payload key (some aad) none,
    record w { readings = suc w.readings },
  )

  publish_claimed : Lease → Option String → Exec (World B Lease) (Unit {0})
  unfolding seal_now activity
  publish_claimed l none = pure tt
  publish_claimed l (some _) = do
    now ← read_clock host
    sealed ← seal_now (activity l now) (aad_for "status" ("active/" <> l.uuid))
    put_active l.uuid sealed

  -- `_publish_activity`.
  pub publish_activity : Exec (World B Lease) (Unit {0})
  unfolding publish_claimed
  publish_activity = do l ← gets (λ (w : World B Lease). w.rest); publish_claimed l l.claimant

  -- `_try_publish_activity`: any exception is a False.
  pub try_publish_activity : Exec (World B Lease) Bool
  unfolding publish_activity
  try_publish_activity = do
    r ← attempt publish_activity
    pure (elim r [ ok _ ↦ true | err _ ↦ false ])

  abbrev pub set_lost : Exec (World B Lease) (Unit {0})
  set_lost w = (ok tt, record w { rest = record w.rest { lost = true } })

  -- `_renew`: a renewal that raises counts as ownership lost.
  renew_live : Lease → Exec (World B Lease) Bool
  unfolding try_publish_activity
  renew_live l = do
    r ← attempt (renew_claim host l.uuid l.owner none)
    if renewed_by r then (do try_publish_activity; pure true) else (do set_lost; pure false)

  pub renew : Exec (World B Lease) Bool
  unfolding renew_live
  renew = do l ← gets (λ (w : World B Lease). w.rest); if l.lost then pure false else renew_live l

  -- `_run`, for the given number of intervals.
  pub run_beats : ℕ → Exec (World B Lease) (Unit {0})
  run_beats zero = pure tt
  run_beats (suc n) =
      let rest = run_beats n in do renewed ← renew; if renewed then rest else pure tt

  abbrev pub set_route : Option String → Option String → Exec (World B Lease) (Unit {0})
  set_route c t w = (ok tt, record w { rest = record w.rest { claimant = c; claimant_token = t } })

  publish_twice : Option String → Exec (World B Lease) Bool
  publish_twice none = pure true
  publish_twice (some _) = do
    first ← try_publish_activity
    if first then pure true else try_publish_activity

  -- `set_claimant(claimant, claimant_token)`.
  pub set_claimant : Value → Value → Exec (World B Lease) Bool
  unfolding publish_twice
  set_claimant claimant token = do
    set_route (nonempty_str claimant) (nonempty_str token)
    publish_twice (nonempty_str claimant)

  -- `_write_terminal(relay, uuid, payload, key, claimant, claimant_token, lease)`.
  pub write_terminal : String → Fields → Value → Value → Exec (World B Lease) Bool
  unfolding seal_now
  write_terminal uuid payload claimant token = do
    owned ← renew
    if owned
        then (do
          sealed ←
              seal_now (echo "_claimant_token" token (echo "claimant_urn" claimant payload))
                (aad_for "terminal" uuid)
          put_terminal uuid sealed)
        else pure false

  -- `_read_claimant`: failures to read or open are a None, as is an unusable envelope.
  unfoldable pub read_envelope : Result Value → Exec (World B Lease) (Option (String × Value))
  read_envelope (err e) = pure none
  read_envelope (ok v) = do envelope ← lift (as_dict v); pure (claimant_route envelope)

  unfoldable pub read_claimant : String → Exec (World B Lease) (Option (String × Value))
  unfolding read_envelope
  read_claimant uuid = do
    r ← attempt (do
      raw ← get_claimant uuid
      lift (open_blob host.codec raw key (some (aad_for "claimant" uuid))))
    read_envelope r

  quarantine : String → String → Option (String × Value) → Exec (World B Lease) ℕ
  quarantine uuid message none = pure 0
  quarantine uuid message (some (claimant, token)) = do
    write_terminal uuid (failed ("undecryptable pending: " <> message)) (str claimant) token
    pure 1

  -- The last step: run the executor under the renewal thread and record what came of it.
  abbrev pub run_executor : Executor → Fields → Exec (World B Lease) Fields
  run_executor ex job = do run_beats (ex.beats job); lift (ex.execute job)

  abbrev pub record_failure : String → Value → Value → Result Bool → Exec (World B Lease) ℕ
  record_failure uuid claimant token (ok _) = pure 1
  record_failure uuid claimant token (err e) = do
    write_terminal uuid (failed e.message) claimant token
    pure 1

  pub execute_job : Executor → String → Fields → Value → Value → Exec (World B Lease) ℕ
  unfolding run_beats
  execute_job ex uuid job claimant token = do
    r ← attempt (do
      result ← run_executor ex job
      write_terminal uuid (set_default "status" (str "done") result) claimant token)
    record_failure uuid claimant token r

  pub process_job : Executor → String → Fields → Exec (World B Lease) ℕ
  unfolding execute_job
  process_job ex uuid received =
      let claimant = get_null "claimant_urn" received in
      let token = get_null "_claimant_token" received in
      let job = set_default "job_id" (str uuid) (remove "_claimant_token" received) in
      if names_other_job (get_null "job_id" job) uuid
      then (do write_terminal uuid (failed "job_id/object uuid mismatch") claimant token; pure 1)
      else (do
        visible ← set_claimant claimant token
        if visible then execute_job ex uuid job claimant token else (do
          write_terminal uuid (failed "could not publish node activity") claimant token
          pure 1))

  process_opened : Executor → String → Opened → Exec (World B Lease) ℕ
  unfolding process_job quarantine
  process_opened ex uuid (opened v) = do job ← lift (as_dict v); process_job ex uuid job
  process_opened ex uuid (undecryptable message) = do
    route ← read_claimant uuid
    quarantine uuid message route

  process_raw : Executor → String → Result Bytes → Exec (World B Lease) ℕ
  unfolding process_opened
  process_raw ex uuid (err e) = pure 0
  process_raw ex uuid (ok raw) = do
    o ← lift (on_crypto_error (open_blob host.codec raw key (some (aad_for "pending" uuid))))
    process_opened ex uuid o

  -- `_process_claimed_job`.
  pub process_claimed_job : Executor → String → Exec (World B Lease) ℕ
  unfolding process_raw
  process_claimed_job ex uuid = do r ← attempt (get_pending uuid); process_raw ex uuid r

  abbrev pub new_lease : String → String → Exec (World B Lease) (Unit {0})
  new_lease u o w = (ok tt, record w { rest = fresh_lease u o })

  -- The body of the sweep's loop.
  pub sweep_step : Settings → Executor → String → ℕ → Exec (World B Lease) (Turn ℕ)
  unfolding process_claimed_job
  sweep_step set ex uuid done = if leb set.max_per_sweep done then pure (break done) else do
    mine ← claim host uuid set.owner set.lease_seconds none
    if mine
        then (do new_lease uuid set.owner; n ← process_claimed_job ex uuid; pure (go (done + n)))
        else pure (go done)

  -- `run_once(relay, key, executor, owner)`.
  pub run_once : Settings → Executor → Exec (World B Lease) ℕ
  unfolding sweep_step
  run_once set ex = for_pending set.max_scan (sweep_step set ex) 0
