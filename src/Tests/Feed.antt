-- ===== src/Tests/Feed.antt =====
-- The enqueuer at concrete jobs, on a bus that has a number of jobs to give.
use worker_hive_relay.Prelude.{
  ℕ, zero, suc, ◌+◌, ◌≤◌, String, ◌≡◌, ◌≢◌, refl, sym, ap, subst, ◌<◌, ◌∙◌, Bool, true, false,
  Option, none, some, List, [], ◌∷◌, arith, Bytes, ◌=ₛ◌, if◌then◌else◌, strip, lower, utf8,
  utf8_char,
}
use worker_hive_relay.Env.{env_of}
use worker_hive_relay.Exec.{ok}
use worker_hive_relay.Value.{null, pos, str, arr, obj, nil, cons, Fields, empty, field, get, put}
use worker_hive_relay.Crypto.{aad_for, open_blob}
use worker_hive_relay.Backend.Memory.{memory, memory-IsLawful}
use worker_hive_relay.Client.{World, get_pending}
use worker_hive_relay.Poller.{Lease, fresh_lease, read_claimant}
use worker_hive_relay.Hive.{Request, Response, Bus, Bridge, claim_next, claim_answer, claimed_job}
use worker_hive_relay.Mnemos.{mnemos_get, mnemos_search, kept_rows}
use worker_hive_relay.Enqueuer.Payload.{
  Setup, payload_of, known_id, item_count, content_bytes, exact_ids, add_rows, add_refs,
  gather_context, max_context_bytes, context_items, build_payload,
}
use worker_hive_relay.Enqueuer.Bounds.{total_bytes, build_payload-le-limit}
use worker_hive_relay.Enqueuer.Feed.{
  contains_id, id_text, route_of, with_claimant, put_objects, feed,
}
use worker_hive_relay.Enqueuer.Ends.{Drains, requeues, unreleased}
use worker_hive_relay.Enqueuer.Terminates.{left_in, feed_terminates}
use worker_hive_relay.Enqueuer.Handover.{put_objects_reach_poller}
use worker_hive_relay.Tests.{host, codec, codec-IsAead, key, hive, bus, bridge, world, dumps, loads}
use worker_hive_relay.Tests.Repos.{python, env}

abbrev setup : Setup
setup = record {
  env = env;
  mnemos = record { base = "http://mnemos"; token = ""; quote = λ s. s };
  py = python;
  parse_int = λ s. ok (if s =ₛ "2097152" then pos 2097152 else if s =ₛ "16" then pos 16 else pos 0);
}

-- A job that the node cannot take.
abbrev waiting : Fields
waiting = field "id" (str "j") (field "kind" (str "fix:x") empty)

-- The queue: a claim takes a job away, and a release puts one back.
abbrev next : ℕ → Option Response × ℕ
next zero = (some (record { status_code = 204; json = none }), zero)
next (suc n) = (some (record { status_code = 200; json = some (obj waiting) }), n)

abbrev queue : Bus
queue = record {
  State = ℕ;
  send = λ r n.
      if r.method =ₛ "POST"
      then next n
      else (some (record { status_code = 200; json = none }), n + requeues r);
}

queue_sends : (r : Request) (n : ℕ) → (queue.send r n).1 ≤ n + requeues r
queue_sends r n = go (r.method =ₛ "POST") n
  where
    go :
        (b : Bool) (n : ℕ)
        → (if b
            then next n
            else (some (record { status_code = 200; json = none }), n + requeues r)).1
          ≤ n + requeues r
    go true zero = omega arith
    go true (suc n) = omega arith
    go false n = omega arith

abbrev on_queue : ℕ → Bridge queue
on_queue n = record { hive = hive; bus = n }

queue_claims :
    (w after : Bridge queue) (job : Fields)
    → claim_next w ≡ (ok (some job), after)
    → (suc after.bus ≤ w.bus) × (job ≡ waiting)
unfolding claim_next claim_answer claimed_job
queue_claims w after job h = go w.bus h
  where
    go :
        (n : ℕ)
        → claim_next {N = queue} (record { hive = w.hive; bus = n }) ≡ (ok (some job), after)
        → (suc after.bus ≤ n) × (job ≡ waiting)
    go zero e = absurd (cc e)
    go (suc n) e =
        let job_is : waiting ≡ job = cc e in
        let bus_is : n ≡ after.bus = ap (λ x. x.1.bus) e in (omega (arith, bus_is), sym job_is)

waiting_id : (id : String) → id_text setup waiting ≡ ok id → contains_id id ("j" ∷ []) ≡ true
unfolding get contains_id
waiting_id id h =
    let same : "j" ≡ id = cc h in subst (λ x. contains_id x ("j" ∷ []) ≡ true) same refl

drains : Drains queue setup
drains = record {
  left = λ n. n;
  ids = "j" ∷ [];
  sends = queue_sends;
  claims = λ w after job h. (queue_claims w after job h).0;
  known = λ w after job id h i.
      waiting_id id (ap (id_text setup) (sym (queue_claims w after job h).1) ∙ i);
}

abbrev three_wait : World memory (Bridge queue)
three_wait = world [] (on_queue 3)

enough : left_in setup memory drains three_wait + unreleased [] drains.ids < 5
unfolding unreleased contains_id drains
enough = omega arith

feed_terminates_example : (feed host key setup 5 0 [] three_wait).0 ≢ ok none
feed_terminates_example = feed_terminates setup memory drains host key 5 0 [] three_wait enough

-- MNEMOS knows one memory.
abbrev library : Bus
library = record {
  State = ℕ;
  send = λ r n. (
    some (record {
      status_code = 200;
      json = some (arr (cons (obj (field "id" (str "m") (field "content" (str "abc") empty))) nil));
    }),
    suc n,
  );
}

abbrev asking : Fields
asking = field "id" (str "j") (field "prompt" (str "hi") empty)

abbrev found : List Fields
found = field "id" (str "m") (field "content" (str "abc") empty) ∷ []

limit_is : max_context_bytes setup ≡ ok 2097152
unfolding env_of
limit_is = refl

builds :
    (build_payload setup {N = library} asking (record { hive = hive; bus = 0 })).0
    ≡ ok (payload_of setup asking (str "j") found)
unfolding build_payload gather_context add_refs exact_ids add_rows content_bytes known_id
    mnemos_search mnemos_get kept_rows env_of get strip lower utf8 utf8_char item_count
builds = refl

build_payload-le-limit_example :
    (memories : List Fields) × (get "context" (payload_of setup asking (str "j") found)
      ≡ some (arr (context_items setup memories)))
    × (total_bytes memories ≤ 2097152)
build_payload-le-limit_example =
    build_payload-le-limit setup asking (payload_of setup asking (str "j") found) 2097152
      (record { hive = hive; bus = 0 }) limit_is builds

abbrev handed : Fields
handed = field "job_id" (str "j") (field "prompt" (str "hi") empty)

abbrev home : World memory (Bridge (bus 200))
home = world [] (bridge 200)

abbrev node : World memory Lease
node = record {
  bucket = (put_objects host key setup "j" handed home).1.bucket;
  cursors = [];
  readings = 0;
  rest = fresh_lease "j" "worker";
}

reads_route : codec.loads (codec.dumps_compact (route_of hive)) ≡ some (obj (route_of hive))
unfolding dumps loads put
reads_route = refl

reads_handed :
    codec.loads (codec.dumps_compact (with_claimant hive handed))
    ≡ some (obj (with_claimant hive handed))
unfolding dumps loads put
reads_handed = refl

put_objects_reach_poller_example :
    ((put_objects host key setup "j" handed home).0 ≡ ok tt)
    × ((read_claimant host key "j" node).0 ≡ ok (some ("urn:agent:system:home:r", null)))
    × ((raw : Bytes) × ((get_pending "j" node).0 ≡ ok raw)
        × (open_blob codec raw key (some (aad_for "pending" "j"))
            ≡ ok (obj (with_claimant hive handed))))
put_objects_reach_poller_example =
    put_objects_reach_poller host codec-IsAead key setup memory-IsLawful "j" handed home node refl
      refl refl refl reads_route reads_handed refl refl
