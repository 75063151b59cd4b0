-- ===== src/Poller/Frame.antt =====
-- What a poller leaves alone: terminal objects that stand, and the home side's objects.
use worker_hive_relay.Prelude.{
  ℕ, zero, suc, ◌+◌, String, ◌<>◌, ◌≡◌, refl, Bool, true, false, Option, none, some, Bytes, leb,
  if◌then◌else◌,
}
use worker_hive_relay.Exec.{Result, ok, err, pure, ◌>>=◌}
use worker_hive_relay.Exec.Relates.{
  IsPreorder, Relates, Relates-pure, Relates-lift, Relates-bind, Relates-attempt, Relates-if,
}
use worker_hive_relay.Value.{Value, str, Fields, get_null, set_default, remove, nonempty_str}
use worker_hive_relay.Crypto.{aad_for, open_blob}
use worker_hive_relay.Backend.{Backend, IsLawful}
use worker_hive_relay.Client.{Host, World, read_clock, as_dict, pending, claimant, terminal}
use worker_hive_relay.Client.Objects.{object}
use worker_hive_relay.Client.Frame.{
  Respects, Respects-preorder, claim-Respects, renew_claim-Respects, put_active-Respects,
  put_terminal-Respects, get_pending-Respects, for_pending-Respects, get_claimant-Respects,
  local-Respects,
}
use worker_hive_relay.Client.Sweep.{go, break}
use worker_hive_relay.Poller.{
  Lease, set_lost, set_route, new_lease, Settings, Executor, Opened, opened, undecryptable, failed,
  names_other_job, on_crypto_error, renewed_by, activity, seal_now, publish_claimed,
  try_publish_activity, renew_live, renew, run_beats, publish_twice, set_claimant, write_terminal,
  read_envelope, read_claimant, quarantine, run_executor, record_failure, execute_job, process_job,
  process_opened, process_raw, process_claimed_job, sweep_step, run_once, claimant_route,
}

module _ (host : Host) (key : Bytes) {B : Backend} (L : IsLawful B) where
  pre : IsPreorder (Respects L {X = Lease})
  pre = Respects-preorder L

  seal_now-Respects :
      (p : Fields) (aad : Bytes)
      → Relates (Respects L) (seal_now host key {B = B} {X = Lease} p aad)
  unfolding seal_now
  seal_now-Respects p aad = local-Respects L (seal_now host key p aad) (λ w. refl)

  publish_claimed-Respects :
      (l : Lease) (c : Option String) → Relates (Respects L) (publish_claimed host key l c)
  unfolding publish_claimed
  publish_claimed-Respects l none = Relates-pure pre tt
  publish_claimed-Respects l (some c) =
      Relates-bind pre _ _ (local-Respects L (read_clock host) (λ w. refl)) (λ now.
        Relates-bind pre _ _
          (seal_now-Respects (activity l now) (aad_for "status" ("active/" <> l.uuid)))
          (put_active-Respects L l.uuid))

  try_publish-Respects : Relates (Respects L) (try_publish_activity host key {B = B})
  unfolding try_publish_activity
  try_publish-Respects = record { at = λ w. (publish_claimed-Respects w.rest w.rest.claimant).at w }

  renew-Respects : Relates (Respects L) (renew host key {B = B})
  unfolding renew
  renew-Respects = record { at = λ w. (renew_of w.rest).at w }
    where
      renew_live_of : (l : Lease) → Relates (Respects L) (renew_live host key l)
      renew_live_of l =
          Relates-bind pre _ _
            (Relates-attempt pre _ (renew_claim-Respects L host l.uuid l.owner none))
            (λ r.
              Relates-if pre (renewed_by r) _ _
                (Relates-bind pre _ _ try_publish-Respects (λ _. Relates-pure pre true))
                (Relates-bind pre _ _ (local-Respects L (set_lost host key) (λ w. refl))
                  (λ _. Relates-pure pre false)))

      renew_of :
          (l : Lease) → Relates (Respects L) (if l.lost then pure false else renew_live host key l)
      renew_of l = Relates-if pre l.lost _ _ (Relates-pure pre false) (renew_live_of l)

  run_beats-Respects : (n : ℕ) → Relates (Respects L) (run_beats host key {B = B} n)
  unfolding run_beats
  run_beats-Respects zero = Relates-pure pre tt
  run_beats-Respects (suc n) =
      Relates-bind pre _ _ renew-Respects
        (λ renewed. Relates-if pre renewed _ _ (run_beats-Respects n) (Relates-pure pre tt))

  write_terminal-Respects :
      (u : String) (p : Fields) (c t : Value)
      → Relates (Respects L) (write_terminal host key {B = B} u p c t)
  unfolding write_terminal
  write_terminal-Respects u p c t = Relates-bind pre _ _ renew-Respects (λ owned.
      Relates-if pre owned _ _
        (Relates-bind pre _ _ (seal_now-Respects _ (aad_for "terminal" u))
          (put_terminal-Respects L u))
        (Relates-pure pre false))

  write_then :
      (u : String) (p : Fields) (c t : Value) (n : ℕ)
      → Relates (Respects L) (write_terminal host key {B = B} u p c t >>= λ _. pure n)
  write_then u p c t n =
      Relates-bind pre _ _ (write_terminal-Respects u p c t) (λ _. Relates-pure pre n)

  set_claimant-Respects : (c t : Value) → Relates (Respects L) (set_claimant host key {B = B} c t)
  unfolding set_claimant
  set_claimant-Respects c t =
      Relates-bind pre _ _
        (local-Respects L (set_route host key (nonempty_str c) (nonempty_str t)) (λ w. refl))
        (λ _. twice (nonempty_str c))
    where
      twice : (o : Option String) → Relates (Respects L) (publish_twice host key {B = B} o)
      twice none = Relates-pure pre true
      twice (some _) =
          Relates-bind pre _ _ try_publish-Respects
            (λ first. Relates-if pre first _ _ (Relates-pure pre true) try_publish-Respects)

  execute_job-Respects :
      (ex : Executor) (u : String) (job : Fields) (c t : Value)
      → Relates (Respects L) (execute_job host key {B = B} ex u job c t)
  unfolding execute_job
  execute_job-Respects ex u job c t =
      Relates-bind pre _ _
        (Relates-attempt pre _ (
          Relates-bind pre (run_executor host key ex job) _
            (Relates-bind pre _ _ (run_beats-Respects (ex.beats job))
              (λ _. Relates-lift pre (ex.execute job)))
            (λ result. write_terminal-Respects u (set_default "status" (str "done") result) c t)))
        record_outcome
    where
      record_outcome :
          (r : Result Bool) → Relates (Respects L) (record_failure host key {B = B} u c t r)
      record_outcome (ok _) = Relates-pure pre 1
      record_outcome (err e) = write_then u (failed e.message) c t 1

  process_job-Respects :
      (ex : Executor) (u : String) (received : Fields)
      → Relates (Respects L) (process_job host key {B = B} ex u received)
  unfolding process_job
  process_job-Respects ex u received =
      let c = get_null "claimant_urn" received in
      let t = get_null "_claimant_token" received in
      let job = set_default "job_id" (str u) (remove "_claimant_token" received) in
      Relates-if pre (names_other_job (get_null "job_id" job) u) _ _
        (write_then u (failed "job_id/object uuid mismatch") c t 1)
        (Relates-bind pre _ _ (set_claimant-Respects c t) (λ visible.
          Relates-if pre visible _ _ (execute_job-Respects ex u job c t)
            (write_then u (failed "could not publish node activity") c t 1)))

  read_claimant-Respects : (u : String) → Relates (Respects L) (read_claimant host key {B = B} u)
  unfolding read_claimant
  read_claimant-Respects u =
      Relates-bind pre _ _
        (Relates-attempt pre _ (
          Relates-bind pre _ _ (get_claimant-Respects L u)
            (λ raw. Relates-lift pre (open_blob host.codec raw key (some (aad_for "claimant" u))))))
        envelope_of
    where
      envelope_of : (r : Result Value) → Relates (Respects L) (read_envelope host key {B = B} r)
      envelope_of (err e) = Relates-pure pre none
      envelope_of (ok v) =
          Relates-bind pre _ _ (Relates-lift pre (as_dict v))
            (λ envelope. Relates-pure pre (claimant_route envelope))

  process_opened-Respects :
      (ex : Executor) (u : String) (o : Opened)
      → Relates (Respects L) (process_opened host key {B = B} ex u o)
  unfolding process_opened
  process_opened-Respects ex u (opened v) =
      Relates-bind pre _ _ (Relates-lift pre (as_dict v)) (process_job-Respects ex u)
  process_opened-Respects ex u (undecryptable m) =
      Relates-bind pre _ _ (read_claimant-Respects u) route
    where
      route :
          (r : Option (String × Value)) → Relates (Respects L) (quarantine host key {B = B} u m r)
      route none = Relates-pure pre 0
      route (some (c, t)) = write_then u (failed ("undecryptable pending: " <> m)) (str c) t 1

  process_claimed_job-Respects :
      (ex : Executor) (u : String)
      → Relates (Respects L) (process_claimed_job host key {B = B} ex u)
  unfolding process_claimed_job
  process_claimed_job-Respects ex u =
      Relates-bind pre _ _ (Relates-attempt pre _ (get_pending-Respects L u)) raw_of
    where
      raw_of : (r : Result Bytes) → Relates (Respects L) (process_raw host key {B = B} ex u r)
      raw_of (err e) = Relates-pure pre 0
      raw_of (ok raw) =
          Relates-bind pre _ _
            (Relates-lift pre
              (on_crypto_error (open_blob host.codec raw key (some (aad_for "pending" u)))))
            (process_opened-Respects ex u)

  pub sweep_step-Respects :
      (set : Settings) (ex : Executor) (u : String) (done : ℕ)
      → Relates (Respects L) (sweep_step host key {B = B} set ex u done)
  unfolding sweep_step
  sweep_step-Respects set ex u done =
      Relates-if pre (leb set.max_per_sweep done) _ _ (Relates-pure pre (break done)) (
        Relates-bind pre _ _ (claim-Respects L host u set.owner set.lease_seconds none) (λ mine.
          Relates-if pre mine _ _
            (Relates-bind pre _ _ (local-Respects L (new_lease host key u set.owner) (λ w. refl))
              (λ _.
                Relates-bind pre _ _ (process_claimed_job-Respects ex u)
                  (λ n. Relates-pure pre (go (done + n)))))
            (Relates-pure pre (go done))))

  run_once-Respects :
      (set : Settings) (ex : Executor) → Relates (Respects L) (run_once host key {B = B} set ex)
  unfolding run_once
  run_once-Respects set ex =
      for_pending-Respects L (sweep_step host key set ex) (sweep_step-Respects set ex) set.max_scan
        0

  -- Whatever a sweep of a poller does, returns or raises, a terminal object that stood before it
  -- stands unchanged.
  pub run_once_keeps_terminal :
      (set : Settings) (ex : Executor) (w : World B Lease) (u : String) (blob : Bytes)
      (v : B.Version)
      → object L w terminal u ≡ some (blob, v)
      → object L (run_once host key set ex w).1 terminal u ≡ some (blob, v)
  run_once_keeps_terminal set ex w u blob v h =
      ((run_once-Respects set ex).at w).terminals u (blob, v) h

  -- Whatever a sweep of a poller does, returns or raises, every pending object and every claimant
  -- envelope is as it was: the poller never takes a job out of the queue.
  pub run_once_keeps_queue :
      (set : Settings) (ex : Executor) (w : World B Lease) (u : String)
      → let t = (run_once host key set ex w).1 in
        (object L t pending u ≡ object L w pending u)
        × (object L t claimant u ≡ object L w claimant u)
  run_once_keeps_queue set ex w u =
      let r = (run_once-Respects set ex).at w in (r.pendings u, r.claimants u)
