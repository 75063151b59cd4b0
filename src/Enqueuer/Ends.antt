-- ===== src/Enqueuer/Ends.antt =====
-- The sweep of the enqueuer ends.
use text.Mathlib.TextEquality.{eq_iff}
use worker_hive_relay.Prelude.{
  ℕ, suc, ◌+◌, ◌≤◌, ◌<◌, String, ◌≡◌, refl, strip, Bool, true, false, Option, none, some, List, [],
  ◌∷◌, arith, ◌=ₛ◌, if◌then◌else◌,
}
use worker_hive_relay.Exec.{Result, ok, Exec, lift, ◌>>=◌}
use worker_hive_relay.Exec.Relates.{IsPreorder, Relates, Relates-lift, Relates-bind, Relates-if}
use worker_hive_relay.Value.{
  Value, null, bool, num, str, arr, obj, Items, nil, cons, Fields, get_null, get, put, equals_str,
}
use worker_hive_relay.Hive.{
  Request, Bus, Bridge, HiveClient, patch_request, claim_next, patch_status, patch_status_code,
}
use worker_hive_relay.Mnemos.{
  Mnemos, search_request, search_text, get_request, get_text, mnemos_get, mnemos_search,
}
use worker_hive_relay.Enqueuer.Payload.{
  Setup, Context, add_memory, add_rows, exact_ids, int_env, is_enough, prompt_of, refs_of,
  checked_mode, max_context_bytes, job_id_of, payload_of, add_refs, searched, gather_context,
  build_payload, context_limit,
}
use worker_hive_relay.Enqueuer.Feed.{contains_id, id_text}

-- How many jobs a request may put back into the queue.
abbrev pub requeues : Request → ℕ
requeues r = if equals_str (get_null "status" r.json) "queued" then 1 else 0

-- A bus whose queue is finite and grows by releases only: `left` counts the jobs that wait, a claim
-- takes one of them away, and the ids of the jobs are those of a list.
pub record Drains (N : Bus) (setup : Setup) : Type 0 where
  pub left : N.State → ℕ
  pub ids : List String
  pub sends : (r : Request) (s : N.State) → left (N.send r s).1 ≤ left s + requeues r
  pub claims :
      (w after : Bridge N) (job : Fields)
      → claim_next w ≡ (ok (some job), after)
      → suc (left after.bus) ≤ left w.bus
  pub known :
      (w after : Bridge N) (job : Fields) (id : String)
      → claim_next w ≡ (ok (some job), after)
      → id_text setup job ≡ ok id
      → contains_id id ids ≡ true

-- The ids of the list that were not released.
unfoldable pub unreleased : List String → List String → ℕ
unreleased released [] = 0
unreleased released (x ∷ xs) =
    let rest = unreleased released xs in if contains_id x released then rest else suc rest

pub unreleased-le :
    (id : String) (released ids : List String)
    → unreleased (id ∷ released) ids ≤ unreleased released ids
unfolding unreleased contains_id
unreleased-le id released [] = omega arith
unreleased-le id released (x ∷ xs) = ground (arith, unreleased-le id released xs)

pub unreleased-lt :
    (id : String) (released ids : List String)
    → contains_id id ids ≡ true
    → contains_id id released ≡ false
    → unreleased (id ∷ released) ids < unreleased released ids
unfolding unreleased contains_id
unreleased-lt id released [] h k = absurd (cc h)
unreleased-lt id released (x ∷ xs) h k =
    ground
      (arith, unreleased-le id released xs, unreleased-lt id released xs, eq_iff id x, eq_iff x id)

no_status :
    (m : Mnemos) (query : String) (limit : ℕ) (semantic : Bool)
    → requeues (search_request m query limit semantic) ≡ 0
unfolding get
no_status m query limit semantic = refl

no_json_status : (m : Mnemos) (id : String) → requeues (get_request m id) ≡ 0
unfolding get
no_json_status m id = refl

requeues-patch :
    (hive : HiveClient) (job_id status : String) (result : Option Fields)
    → requeues (patch_request hive job_id status result null null)
      ≡ (if status =ₛ "queued" then 1 else 0)
unfolding get put
requeues-patch hive job_id status none = refl
requeues-patch hive job_id status (some r) = refl

module _ {N : Bus} (setup : Setup) (D : Drains N setup) where
  -- The queue is no longer afterwards.
  abbrev pub Shorter : Bridge N → Bridge N → Type 0
  Shorter x y = D.left y.bus ≤ D.left x.bus

  shorter : IsPreorder Shorter
  shorter = record { refl_at = λ x. omega arith; trans_at = λ x y z h k. omega arith }

  bind :
      {A B : Type 0} (m : Exec (Bridge N) A) (f : A → Exec (Bridge N) B)
      → Relates Shorter m
      → ((a : A) → Relates Shorter (f a))
      → Relates Shorter (m >>= f)
  bind m f = Relates-bind shorter m f

  done : {A : Type 0} (r : Result A) → Relates Shorter (lift {S = Bridge N} r)
  done r = Relates-lift shorter r

  search_text-Shorter :
      (query : String) (limit : ℕ) (semantic : Bool)
      → Relates Shorter (search_text setup.mnemos query limit semantic)
  search_text-Shorter query limit semantic =
      let r = search_request setup.mnemos query limit semantic in
      record {
        at = λ x. omega (arith, D.sends r x.bus, no_status setup.mnemos query limit semantic);
      }

  mnemos_search-Shorter :
      (query : Value) (limit : ℕ) (semantic : Bool)
      → Relates Shorter (mnemos_search setup.mnemos query limit semantic)
  unfolding mnemos_search
  mnemos_search-Shorter (str query) limit semantic =
      Relates-if shorter (strip query =ₛ "") _ _ (done (ok nil))
        (search_text-Shorter query limit semantic)
  mnemos_search-Shorter null limit semantic = done _
  mnemos_search-Shorter (bool _) limit semantic = done _
  mnemos_search-Shorter (num _) limit semantic = done _
  mnemos_search-Shorter (arr _) limit semantic = done _
  mnemos_search-Shorter (obj _) limit semantic = done _

  get_text-Shorter : (id : String) → Relates Shorter (get_text setup.mnemos id)
  get_text-Shorter id = record {
    at = λ x.
        omega (arith, D.sends (get_request setup.mnemos id) x.bus, no_json_status setup.mnemos id);
  }

  mnemos_get-Shorter : (id : Value) → Relates Shorter (mnemos_get setup.mnemos id)
  unfolding mnemos_get
  mnemos_get-Shorter (str id) = Relates-if shorter (id =ₛ "") _ _ (done _) (get_text-Shorter id)
  mnemos_get-Shorter null = done _
  mnemos_get-Shorter (bool _) = done _
  mnemos_get-Shorter (num _) = done _
  mnemos_get-Shorter (arr _) = done _
  mnemos_get-Shorter (obj _) = done _

  add_refs-Shorter :
      (limit : ℕ) (refs : Items) (c : Context) → Relates Shorter (add_refs setup limit refs c)
  unfolding add_refs
  add_refs-Shorter limit nil c = done (ok c)
  add_refs-Shorter limit (cons id ids) c = bind _ _ (mnemos_get-Shorter id) (λ memory.
      bind _ _ (done (add_memory limit memory c)) (λ more. add_refs-Shorter limit ids more))

  searched-Shorter :
      (mode : String) (enough : Bool) (prompt : Value)
      → Relates Shorter (searched setup mode enough prompt)
  searched-Shorter mode enough prompt = Relates-if shorter enough _ _ (done (ok nil)) (
      Relates-if shorter (mode =ₛ "semantic") _ _ (mnemos_search-Shorter prompt context_limit true)
        (Relates-if shorter (mode =ₛ "fts") _ _ (mnemos_search-Shorter prompt context_limit false)
          (done (ok nil))))

  pub build_payload-Shorter : (job : Fields) → Relates Shorter (build_payload setup job)
  unfolding build_payload gather_context
  build_payload-Shorter job = bind _ _ (done (checked_mode setup)) (λ mode.
      bind _ _ (done (refs_of setup mode job)) (λ refs.
        bind _ _ (done (max_context_bytes setup)) (λ limit.
          bind _ _
            (bind _ _ (add_refs-Shorter limit refs ([], 0)) (λ exact.
              bind _ _ (done (exact_ids exact.0)) (λ ids.
                bind _ _ (done (int_env setup "NODE_RELAY_CONTEXT_SKIP_SEARCH_AT_COUNT" "0"))
                  (λ count.
                    bind _ _ (done (int_env setup "NODE_RELAY_CONTEXT_SKIP_SEARCH_AT_BYTES" "0"))
                      (λ bytes.
                        bind _ _
                          (searched-Shorter mode (is_enough setup exact count bytes)
                            (prompt_of setup job))
                          (λ rows. done (add_rows limit ids rows exact)))))))
            (λ context.
              bind _ _ (done (job_id_of setup job))
                (λ id. done (ok (payload_of setup job id context.0)))))))

  pub patch_status-left :
      (job_id status : String) (result : Option Fields) (x : Bridge N)
      → D.left (patch_status job_id status result null null x).1.bus
        ≤ D.left x.bus + (if status =ₛ "queued" then 1 else 0)
  unfolding patch_status patch_status_code
  patch_status-left job_id status result x =
      rw (← requeues-patch x.hive job_id status result)
        (D.sends (patch_request x.hive job_id status result null null) x.bus)
