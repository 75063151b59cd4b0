-- ===== src/Poller/Sweep.antt =====
-- The fairness cap of a sweep.
use worker_hive_relay.Prelude.{
  ℕ, ◌+◌, ◌≤◌, String, ◌<>◌, ◌≡◌, refl, Bool, true, not, Option, none, some, List, [], ◌∷◌, arith,
  Bytes, leb, ends_with, cut, len,
}
use worker_hive_relay.Exec.{Result, ok, err, Exec, pure, lift, attempt, gets, ◌>>=◌}
use worker_hive_relay.Exec.Yields.{Yields, Yields-pure, Yields-if, Yields-bind, Yields-any}
use worker_hive_relay.Value.{Value, str, Fields, get_null, set_default, remove}
use worker_hive_relay.Crypto.{aad_for, open_blob}
use worker_hive_relay.Backend.{Backend}
use worker_hive_relay.Client.{
  Host, World, as_dict, suffix, cursor_of, request, claim, get_pending, pending_prefix,
}
use worker_hive_relay.Client.Sweep.{
  Turn, go, break, Swept, next, closed, beyond, reached, note_cursor, after_yield, sweep_range,
  range_of, second_range, swept_value, ranges, iter_uuids, for_pending,
}
use worker_hive_relay.Poller.{
  Lease, new_lease, Settings, Executor, Opened, opened, undecryptable, failed, names_other_job,
  on_crypto_error, set_claimant, write_terminal, read_claimant, quarantine, record_failure,
  execute_job, process_job, process_opened, process_raw, process_claimed_job, sweep_step, run_once,
  run_executor,
}

abbrev turn_value : {A : Type 0} → Turn A → A
turn_value (go a) = a
turn_value (break a) = a

-- An invariant of the consumer's accumulator holds of what a sweep returns.
module _ {B : Backend} {X A : Type 0} (P : A → Type 0)
    (body : String → A → Exec (World B X) (Turn A))
    (step : (u : String) (a : A) → P a → Yields (λ t. P (turn_value t)) (body u a)) where
  abbrev Q : Swept A → Type 0
  Q s = P (swept_value s)

  sweep_range-Yields :
      (p : String) (m : Option ℕ) (rotate : Bool) (stop : Option String) (ks : List String) (y : ℕ)
      (a : A)
      → P a
      → Yields Q (sweep_range p m rotate body stop ks y a)
  unfolding sweep_range
  sweep_range-Yields p m rotate stop [] y a h = Yields-pure (next y a) h
  sweep_range-Yields p m rotate stop (k ∷ ks) y a h =
      Yields-if (beyond stop k) _ _ (λ _. Yields-pure (next y a) h)
        (λ _.
          Yields-if (not (ends_with k suffix)) _ _
            (λ _. sweep_range-Yields p m rotate stop ks y a h)
            (λ _.
              Yields-bind (note_cursor rotate p k) _ (Yields-any (note_cursor rotate p k)) (λ _ _.
                Yields-bind _ _ (step (cut k (len p) (len suffix)) a h) (
                  turned (sweep_range p m rotate body stop ks)
                    (sweep_range-Yields p m rotate stop ks)))))
    where
      turned :
          (rest : ℕ → A → Exec (World B X) (Swept A))
          → ((n : ℕ) (b : A) → P b → Yields Q (rest n b))
          → (t : Turn A) → P (turn_value t)
          → Yields Q (after_yield m y rest t)
      turned rest r (break b) g = Yields-pure (closed b) g
      turned rest r (go b) g =
          Yields-if (reached m (y + 1)) _ _ (λ _. Yields-pure (closed b) g) (λ _. r (y + 1) b g)

  range_of-Yields :
      (p : String) (m : Option ℕ) (rotate : Bool) (start stop : Option String) (y : ℕ) (a : A)
      → P a
      → Yields Q (range_of p m rotate body start stop y a)
  range_of-Yields p m rotate start stop y a h =
      Yields-bind (request (B.iter_keys p start)) _ (Yields-any (request (B.iter_keys p start)))
        (λ ks _. sweep_range-Yields p m rotate stop ks y a h)

  ranges-Yields :
      (p : String) (m : Option ℕ) (rotate : Bool) (c : Option String) (a : A)
      → P a
      → Yields Q (ranges p m rotate body c a)
  ranges-Yields p m rotate none a h = range_of-Yields p m rotate none none 0 a h
  ranges-Yields p m rotate (some c) a h =
      Yields-bind _ _ (range_of-Yields p m rotate (some c) none 0 a h) second
    where
      second : (s : Swept A) → Q s → Yields Q (second_range p m rotate body c s)
      second (closed b) g = Yields-pure (closed b) g
      second (next y b) g = range_of-Yields p m rotate none (some c) y b g

  for_pending-Yields : (n : ℕ) (a : A) → P a → Yields P (for_pending n body a)
  unfolding for_pending iter_uuids
  for_pending-Yields n a h =
      Yields-if (reached (some n) 0) _ _ (λ _. Yields-pure a h)
        (λ _.
          Yields-bind (gets (λ (w : World B X). cursor_of pending_prefix w.cursors)) _
            (Yields-any (gets (λ (w : World B X). cursor_of pending_prefix w.cursors)))
            (λ c _.
              Yields-bind _ _ (ranges-Yields pending_prefix (some n) true c a h)
                (λ s g. Yields-pure (swept_value s) g)))

abbrev AtMostOne : ℕ → Type 0
AtMostOne n = n ≤ 1

abbrev pub returned : Result ℕ → ℕ
returned (ok n) = n
returned (err _) = 0

returned-le : (r : Result ℕ) (m : ℕ) → ((n : ℕ) → r ≡ ok n → n ≤ m) → returned r ≤ m
returned-le (ok n) m h = h n refl
returned-le (err e) m h = omega arith

module _ (host : Host) (key : Bytes) {B : Backend} where
  write_then_one :
      (u : String) (p : Fields) (c t : Value)
      → Yields AtMostOne (write_terminal host key {B = B} u p c t >>= λ _. pure 1)
  write_then_one u p c t =
      Yields-bind _ _ (Yields-any (write_terminal host key u p c t))
        (λ _ _. Yields-pure 1 (omega arith))

  execute_job-Yields :
      (ex : Executor) (u : String) (job : Fields) (c t : Value)
      → Yields AtMostOne (execute_job host key {B = B} ex u job c t)
  unfolding execute_job
  execute_job-Yields ex u job c t =
      Yields-bind (attempt (attempted)) _ (Yields-any (attempt attempted)) (λ r _. outcome r)
    where
      attempted : Exec (World B Lease) Bool
      attempted = run_executor host key ex job >>= λ result.
          write_terminal host key u (set_default "status" (str "done") result) c t

      outcome : (r : Result Bool) → Yields AtMostOne (record_failure host key {B = B} u c t r)
      outcome (ok _) = Yields-pure 1 (omega arith)
      outcome (err e) = write_then_one u (failed e.message) c t

  process_job-Yields :
      (ex : Executor) (u : String) (received : Fields)
      → Yields AtMostOne (process_job host key {B = B} ex u received)
  unfolding process_job
  process_job-Yields ex u received =
      let c = get_null "claimant_urn" received in
      let t = get_null "_claimant_token" received in
      let job = set_default "job_id" (str u) (remove "_claimant_token" received) in
      Yields-if (names_other_job (get_null "job_id" job) u) _ _
        (λ _. write_then_one u (failed "job_id/object uuid mismatch") c t)
        (λ _. Yields-bind _ _ (Yields-any (set_claimant host key c t)) (λ visible _.
          Yields-if visible _ _ (λ _. execute_job-Yields ex u job c t)
            (λ _. write_then_one u (failed "could not publish node activity") c t)))

  process_opened-Yields :
      (ex : Executor) (u : String) (o : Opened)
      → Yields AtMostOne (process_opened host key {B = B} ex u o)
  unfolding process_opened
  process_opened-Yields ex u (opened v) =
      Yields-bind (lift (as_dict v)) _ (Yields-any (lift (as_dict v)))
        (λ d _. process_job-Yields ex u d)
  process_opened-Yields ex u (undecryptable m) =
      Yields-bind _ _ (Yields-any (read_claimant host key u)) (λ r _. route r)
    where
      route : (r : Option (String × Value)) → Yields AtMostOne (quarantine host key {B = B} u m r)
      route none = Yields-pure 0 (omega arith)
      route (some (c, t)) = write_then_one u (failed ("undecryptable pending: " <> m)) (str c) t

  process_claimed_job-Yields :
      (ex : Executor) (u : String) → Yields AtMostOne (process_claimed_job host key {B = B} ex u)
  unfolding process_claimed_job
  process_claimed_job-Yields ex u =
      Yields-bind (attempt (get_pending u)) _ (Yields-any (attempt (get_pending u)))
        (λ r _. raw_of r)
    where
      raw_of : (r : Result Bytes) → Yields AtMostOne (process_raw host key {B = B} ex u r)
      raw_of (err e) = Yields-pure 0 (omega arith)
      raw_of (ok raw) =
          let o = on_crypto_error (open_blob host.codec raw key (some (aad_for "pending" u))) in
          Yields-bind (lift o) _ (Yields-any (lift o)) (λ v _. process_opened-Yields ex u v)

  sweep_step-Yields :
      (set : Settings) (ex : Executor) (u : String) (done : ℕ)
      → done ≤ set.max_per_sweep
      → Yields (λ t. turn_value t ≤ set.max_per_sweep) (sweep_step host key {B = B} set ex u done)
  unfolding sweep_step
  sweep_step-Yields set ex u done h =
      Yields-if (leb set.max_per_sweep done) _ _ (λ _. Yields-pure (break done) h)
        (λ room.
          Yields-bind _ _ (Yields-any (claim host u set.owner set.lease_seconds none)) (λ mine _.
            Yields-if mine _ _
              (λ _.
                Yields-bind (new_lease host key u set.owner) _
                  (Yields-any (new_lease host key u set.owner))
                  (λ _ _.
                    Yields-bind _ _ (process_claimed_job-Yields ex u)
                      (λ n one. Yields-pure (go (done + n)) (ground arith))))
              (λ _. Yields-pure (go done) h)))

  -- The count that a sweep returns is at most `max_per_sweep`, whatever the listing holds, the
  -- workers do and the executor answers; a sweep that raises counts as none.
  pub run_once-le-max_per_sweep :
      (set : Settings) (ex : Executor) (w : World B Lease)
      → returned (run_once host key set ex w).0 ≤ set.max_per_sweep
  unfolding run_once
  run_once-le-max_per_sweep set ex w =
      returned-le (run_once host key set ex w).0 set.max_per_sweep (
        (for_pending-Yields (λ n. n ≤ set.max_per_sweep) (sweep_step host key set ex)
            (sweep_step-Yields set ex) set.max_scan 0 (omega arith)).of
          w)
