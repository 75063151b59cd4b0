-- ===== src/Tests/Poller.antt =====
-- The poller at concrete inputs: a worker "a" on the in-memory store.
use worker_hive_relay.Prelude.{
  Option, ℕ, Bytes, none, String, ◌≡◌, ◌≤◌, refl, ap, true, false, some, [], ◌∷◌, ◌=ₛ◌, length,
}
use worker_hive_relay.Exec.{Result, ok}
use worker_hive_relay.Value.{Value, Fields, null, obj, empty, str, field, get, put}
use worker_hive_relay.Crypto.{aad_for, open_blob}
use worker_hive_relay.Backend.Memory.{memory, memory-IsLawful, lookup}
use worker_hive_relay.Client.{World, pending, claimant, claimed, terminal, key_of, marker}
use worker_hive_relay.Client.Objects.{object, body}
use worker_hive_relay.Client.Claim.{ReadsMarker}
use worker_hive_relay.Poller.{
  process_job, Lease, Settings, Executor, fresh_lease, failed, write_terminal, run_once, echo,
  execute_job,
}
use worker_hive_relay.Poller.Job.{recorded, execute_job_opens}
use worker_hive_relay.Poller.Secrecy.{process_job_untold}
use worker_hive_relay.Poller.Renewal.{write_terminal_refused}
use worker_hive_relay.Poller.Frame.{run_once_keeps_terminal, run_once_keeps_queue}
use worker_hive_relay.Poller.Sweep.{returned, run_once-le-max_per_sweep}
use worker_hive_relay.Tests.{codec, codec-IsAead, host, world, key, dumps, loads}

-- The job "j" taken over by "b", and an older terminal object of the job "k".
abbrev bucket : World memory Lease
bucket =
    world
      ((key_of claimed "j", marker host "b" 400, 1)
        ∷ (key_of terminal "k", 7 ∷ [], 2)
        ∷ (key_of pending "j", 9 ∷ [], 3)
        ∷ [])
      (fresh_lease "j" "a")

abbrev settings : Settings
settings = record { owner = "a"; lease_seconds = 200; max_per_sweep = 2; max_scan = 10 }

abbrev executor : Executor
executor = record { execute = λ job. ok (field "result" (str "fine") empty); beats = λ job. 2 }

reads_b : ReadsMarker host "b" 400
unfolding marker dumps loads
reads_b = refl

stands : object memory-IsLawful bucket claimed "j" ≡ some (marker host "b" 400, 1)
unfolding memory-IsLawful lookup key_of
stands = refl

older : object memory-IsLawful bucket terminal "k" ≡ some (7 ∷ [], 2)
unfolding memory-IsLawful lookup key_of
older = refl

a_ne_b : Path String "a" "b" → ⊥
a_ne_b e = absurd (let clash : true ≡ false = ap (λ x. "a" =ₛ x) e in cc clash)

write_terminal_refused_example :
    let r = write_terminal host key "j" (failed "x") null null bucket in
    (r.0 ≡ ok false) × (r.1.bucket ≡ bucket.bucket) × (r.1.rest.lost ≡ true)
write_terminal_refused_example =
    write_terminal_refused host key memory-IsLawful "j" "b" 400 (failed "x") null null bucket 1
      reads_b a_ne_b refl stands

run_once_keeps_terminal_example :
    object memory-IsLawful (run_once host key settings executor bucket).1 terminal "k"
    ≡ some (7 ∷ [], 2)
run_once_keeps_terminal_example =
    run_once_keeps_terminal host key memory-IsLawful settings executor bucket "k" (7 ∷ []) 2 older

run_once_keeps_queue_example :
    let t = (run_once host key settings executor bucket).1 in
    (object memory-IsLawful t pending "j" ≡ object memory-IsLawful bucket pending "j")
    × (object memory-IsLawful t claimant "j" ≡ object memory-IsLawful bucket claimant "j")
run_once_keeps_queue_example =
    run_once_keeps_queue host key memory-IsLawful settings executor bucket "j"

run_once-le-max_per_sweep_example : returned (run_once host key settings executor bucket).0 ≤ 2
run_once-le-max_per_sweep_example = run_once-le-max_per_sweep host key settings executor bucket

-- The markers of "a" read back, whatever their time.
reads_a : (t : ℕ) → ReadsMarker host "a" t
unfolding marker dumps loads
reads_a t = refl

random_len : (n : ℕ) → length (host.urandom n) ≡ 12
random_len n = refl

-- The job "j", claimed by "a".
abbrev held : World memory Lease
held = world ((key_of claimed "j", marker host "a" 90, 1) ∷ []) (fresh_lease "j" "a")

held_stands : object memory-IsLawful held claimed "j" ≡ some (marker host "a" 90, 1)
unfolding memory-IsLawful lookup key_of
held_stands = refl

held_free : object memory-IsLawful held terminal "j" ≡ none
unfolding memory-IsLawful lookup key_of
held_free = refl

reads_outcome :
    loads (dumps (recorded (executor.execute empty) null null))
    ≡ some (obj (recorded (executor.execute empty) null null))
unfolding dumps loads get put echo
reads_outcome = refl

execute_job_opens_example :
    let r = execute_job host key executor "j" empty null null held in
    (r.0 ≡ ok 1)
    × ((blob : Bytes) × ((body memory-IsLawful r.1 terminal "j" ≡ some blob)
          × (open_blob codec blob key (some (aad_for "terminal" "j"))
              ≡ ok (obj (recorded (executor.execute empty) null null)))))
execute_job_opens_example =
    execute_job_opens host key memory-IsLawful (fresh_lease "j" "a") reads_a refl codec-IsAead
      executor empty null null held 90 1 refl held_stands held_free refl random_len reads_outcome

-- An executor that would give the token away if it saw one.
abbrev leak : Option Value → Result Fields
leak none = ok (field "result" (str "fine") empty)
leak (some t) = ok (field "result" t empty)

abbrev leaky : Executor
leaky = record { execute = λ job. leak (get "_claimant_token" job); beats = λ job. 2 }

same_answers :
    (job : Fields) → get "_claimant_token" job ≡ none → leaky.execute job ≡ executor.execute job
same_answers job h = ap leak h

same_beats :
    (job : Fields) → get "_claimant_token" job ≡ none → leaky.beats job ≡ executor.beats job
same_beats job h = refl

process_job_untold_example :
    process_job host key leaky "j" (field "_claimant_token" (str "secret") empty) held
    ≡ process_job host key executor "j" (field "_claimant_token" (str "secret") empty) held
process_job_untold_example =
    process_job_untold host key leaky executor "j" (field "_claimant_token" (str "secret") empty)
      held same_answers same_beats
