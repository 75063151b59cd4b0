-- ===== src/Tests/Client.antt =====
-- The job queue at concrete inputs: a worker "a" and a worker "b" on the in-memory store.
use worker_hive_relay.Prelude.{
  String, ◌≡◌, refl, ap, ◌≤◌, ◌=ₛ◌, if◌then◌else◌, true, false, none, some, List, [], ◌∷◌, length,
  arith, take,
}
use worker_hive_relay.Exec.{ok}
use worker_hive_relay.Value.{get}
use worker_hive_relay.Backend.{contains}
use worker_hive_relay.Backend.Memory.{memory, memory-IsLawful, lookup, keys_under, insert_key}
use worker_hive_relay.Client.{
  World, cursor_of, Slot, pending, claimed, terminal, key_of, marker, claimed_at, claim,
  renew_claim, owns_claim, purge, put_terminal, get_terminal, take_over, as_dict, to_float,
}
use worker_hive_relay.Client.Objects.{object, body, put_terminal_once}
use worker_hive_relay.Client.Claim.{ReadsMarker, claim_decides, takes, since_of, wins}
use worker_hive_relay.Client.Lease.{claim_exclusive, claim_expired, take_over_race}
use worker_hive_relay.Client.Purge.{object-purge}
use worker_hive_relay.Client.Rotation.{iter_uuids_yields, uuids, rotation}
use worker_hive_relay.Client.Fairness.{iter_uuids_covers}
use worker_hive_relay.Client.Sweep.{collect, iter_uuids}
use worker_hive_relay.Tests.{host, world, dumps, loads}

abbrev empty_bucket : World memory (Unit {0})
empty_bucket = world [] tt

-- The job "j", claimed by "a" at 100, and the job "k", pending.
abbrev claimed_bucket : World memory (Unit {0})
claimed_bucket =
    world ((key_of claimed "j", marker host "a" 100, 1) ∷ (key_of pending "k", 7 ∷ [], 2) ∷ []) tt

abbrev pending_bucket : World memory (Unit {0})
pending_bucket = world ((key_of pending "j", 7 ∷ [], 1) ∷ (key_of pending "k", 8 ∷ [], 2) ∷ []) tt

reads_a : ReadsMarker host "a" 100
unfolding marker dumps loads
reads_a = refl

reads_b : ReadsMarker host "b" 400
unfolding marker dumps loads
reads_b = refl

stands : object memory-IsLawful claimed_bucket claimed "j" ≡ some (marker host "a" 100, 1)
unfolding memory-IsLawful lookup key_of
stands = refl

since_a : claimed_at host (marker host "a" 100) ≡ ok 100
unfolding marker dumps loads claimed_at get to_float as_dict
since_a = refl

claim_exclusive_example :
    let w1 = (claim host "j" "a" 200 (some 100) empty_bucket).1 in
    ((claim host "j" "a" 200 (some 100) empty_bucket).0 ≡ ok true)
    × ((claim host "j" "b" 200 (some 250) w1).0 ≡ ok false)
    × (body memory-IsLawful (claim host "j" "b" 200 (some 250) w1).1 claimed "j"
        ≡ some (marker host "a" 100))
unfolding memory-IsLawful lookup
claim_exclusive_example =
    claim_exclusive host memory-IsLawful "j" "a" "b" 200 100 250 empty_bucket refl reads_a
      (omega arith)

a_ne_b : Path String "a" "b" → ⊥
a_ne_b e = absurd (let clash : true ≡ false = ap (λ x. "a" =ₛ x) e in cc clash)

claim_expired_example :
    let w1 = (claim host "j" "b" 200 (some 400) claimed_bucket).1 in
    ((claim host "j" "b" 200 (some 400) claimed_bucket).0 ≡ ok true)
    × ((renew_claim host "j" "a" (some 410) w1).0 ≡ ok false)
    × ((owns_claim host "j" "a" 200 (some 410) w1).0 ≡ ok false)
    × (body memory-IsLawful (renew_claim host "j" "a" (some 410) w1).1 claimed "j"
        ≡ some (marker host "b" 400))
claim_expired_example =
    claim_expired host memory-IsLawful "j" "a" "b" 200 100 400 410 claimed_bucket 1 stands reads_a
      reads_b a_ne_b (omega arith)

claim_decides_example :
    let r = claim host "j" "b" 200 (some 250) claimed_bucket in
    (r.0 ≡ takes (since_of host (object memory-IsLawful claimed_bucket claimed "j")) 200 250)
    × (body memory-IsLawful r.1 claimed "j" ≡ (
        if wins r.0
        then some (marker host "b" 250)
        else body memory-IsLawful claimed_bucket claimed "j"))
claim_decides_example = claim_decides host memory-IsLawful "j" "b" 200 250 claimed_bucket

another_version :
    memory-IsLawful.same
      (memory-IsLawful.stamp claimed_bucket.bucket (key_of claimed "j") (marker host "b" 400))
      1
    ≡ false
unfolding memory-IsLawful
another_version = refl

take_over_race_example :
    let w1 =
      (take_over host "j"
        (marker host "b" 400)
        400
        200
        (some (marker host "a" 100, 1))
        claimed_bucket).1 in
    let second =
      take_over host "j" (marker host "c" 500) 500 200 (some (marker host "a" 100, 1)) w1 in
    ((take_over host "j"
        (marker host "b" 400)
        400
        200
        (some (marker host "a" 100, 1))
        claimed_bucket).0
      ≡ ok true)
    × (second.0 ≡ ok false)
    × (body memory-IsLawful second.1 claimed "j" ≡ some (marker host "b" 400))
take_over_race_example =
    take_over_race host memory-IsLawful "j" "b" "c" 200 400 500 100 claimed_bucket
      (marker host "a" 100) 1 stands since_a another_version (omega arith) (omega arith)

no_terminal : object memory-IsLawful claimed_bucket terminal "j" ≡ none
unfolding memory-IsLawful lookup key_of
no_terminal = refl

put_terminal_once_example :
    let w1 = (put_terminal "j" (5 ∷ []) claimed_bucket).1 in
    let w2 = (put_terminal "j" (6 ∷ []) w1).1 in
    ((put_terminal "j" (5 ∷ []) claimed_bucket).0 ≡ ok true)
    × ((put_terminal "j" (6 ∷ []) w1).0 ≡ ok false)
    × ((get_terminal "j" w2).0 ≡ ok (5 ∷ []))
    × ((a : Slot) (v : String) → object memory-IsLawful w2 a v ≡ object memory-IsLawful w1 a v)
put_terminal_once_example =
    put_terminal_once memory-IsLawful "j" (5 ∷ []) (6 ∷ []) claimed_bucket no_terminal

object-purge_example :
    ((purge "j" claimed_bucket).0 ≡ ok tt)
    × (object memory-IsLawful (purge "j" claimed_bucket).1 pending "k"
        ≡ (if "j" =ₛ "k" then none else object memory-IsLawful claimed_bucket pending "k"))
object-purge_example = object-purge memory-IsLawful "j" "k" pending claimed_bucket

iter_uuids_yields_example :
    (iter_uuids "pending/" (some 1) true collect [] pending_bucket).0
    ≡ ok (
        take 1 (
          uuids "pending/" (
            rotation
              (cursor_of "pending/" pending_bucket.cursors)
              (memory-IsLawful.listing pending_bucket.bucket "pending/"))))
iter_uuids_yields_example = iter_uuids_yields memory-IsLawful "pending/" 1 pending_bucket

two_keys : length (memory-IsLawful.listing pending_bucket.bucket "pending/") ≤ 5
unfolding memory-IsLawful keys_under key_of insert_key
two_keys = omega arith

iter_uuids_covers_example :
    (keys : List String) × (((iter_uuids "pending/" (some 5) true collect [] pending_bucket).0
        ≡ ok (uuids "pending/" keys))
      × ((length keys ≡ length (memory-IsLawful.listing pending_bucket.bucket "pending/"))
          × ((k : String)
              → contains k keys
                ≡ contains k (memory-IsLawful.listing pending_bucket.bucket "pending/"))))
iter_uuids_covers_example = iter_uuids_covers memory-IsLawful "pending/" 5 pending_bucket two_keys
