-- ===== src/Poller/Secrecy.antt =====
-- What the executor is given: never the claimant's token.
use worker_hive_relay.Prelude.{
  ℕ, String, ◌≡◌, refl, ap, fun_ext, ◌∙◌, inl, inr, Bool-cases, none, Bytes, if◌then◌else◌,
}
use worker_hive_relay.Exec.{Result, pure, ◌>>=◌, ◌>>◌}
use worker_hive_relay.Value.{
  Value, str, Fields, get, get_null, has, remove, set_default, get-put, get-remove,
}
use worker_hive_relay.Backend.{Backend}
use worker_hive_relay.Client.{Host, World}
use worker_hive_relay.Poller.{
  Lease, Executor, write_terminal, execute_job, process_job, set_claimant, failed, names_other_job,
}

-- The job that the executor is given.
abbrev given : String → Fields → Fields
given uuid received = set_default "job_id" (str uuid) (remove "_claimant_token" received)

given_untold :
    (uuid : String) (received : Fields) → get "_claimant_token" (given uuid received) ≡ none
given_untold uuid received = elim (Bool-cases (has "job_id" (remove "_claimant_token" received))) [
  | inl named ↦ rw named (get-remove "_claimant_token" "_claimant_token" received)
  | inr unnamed ↦ rw unnamed (
      get-put "_claimant_token" "job_id" (str uuid) (remove "_claimant_token" received)
      ∙ get-remove "_claimant_token" "_claimant_token" received)
]

module _ (host : Host) (key : Bytes) {B : Backend} where
  execute_job-same :
      (ex other : Executor) (uuid : String) (job : Fields) (claimant token : Value)
      (w : World B Lease)
      → ex.execute job ≡ other.execute job
      → ex.beats job ≡ other.beats job
      → execute_job host key ex uuid job claimant token w
        ≡ execute_job host key other uuid job claimant token w
  unfolding execute_job
  execute_job-same ex other uuid job claimant token w same_answer same_beats =
      rw (same_answer, same_beats) refl

  -- The claimant's token does not reach the executor: two executors that agree on every job
  -- without a `_claimant_token` leave the same answer and the same world, whatever was received.
  pub process_job_untold :
      (ex other : Executor) (uuid : String) (received : Fields) (w : World B Lease)
      → ((job : Fields) → get "_claimant_token" job ≡ none → ex.execute job ≡ other.execute job)
      → ((job : Fields) → get "_claimant_token" job ≡ none → ex.beats job ≡ other.beats job)
      → process_job host key ex uuid received w ≡ process_job host key other uuid received w
  unfolding process_job
  process_job_untold ex other uuid received w answers beats =
      let job = given uuid received in
      let claimant = get_null "claimant_urn" received in
      let token = get_null "_claimant_token" received in
      let untold = given_untold uuid received in
      ap
        (λ (m : World B Lease → Result ℕ × World B Lease).
          (if names_other_job (get_null "job_id" job) uuid
              then (do
                write_terminal host key uuid (failed "job_id/object uuid mismatch") claimant token
                pure 1)
              else (do
                visible ← set_claimant host key claimant token
                if visible then m else (do
                  write_terminal host key uuid (failed "could not publish node activity") claimant
                      token
                  pure 1)))
            w)
        (fun_ext (λ x.
          execute_job-same ex other uuid job claimant token x (answers job untold)
            (beats job untold)))
