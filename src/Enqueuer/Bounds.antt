-- ===== src/Enqueuer/Bounds.antt =====
-- How large the context of a payload can be.
use worker_hive_relay.Prelude.{
  ℕ, ◌+◌, ◌≤◌, String, ◌≡◌, refl, sym, subst, ◌∙◌, Bool, true, false, some, List, [], ◌∷◌, ◌++◌,
  ltb, arith, length, utf8, if◌then◌else◌,
}
use worker_hive_relay.Exec.{Result, ok, err, fail, value_error, lift}
use worker_hive_relay.Exec.Yields.{Yields, Yields-pure, Yields-bind, Yields-any}
use worker_hive_relay.Value.{
  Value, null, bool, num, str, arr, obj, Items, nil, cons, Fields, get, get_or, get_null,
}
use worker_hive_relay.Hive.{Bus, Bridge}
use worker_hive_relay.Mnemos.{mnemos_get}
use worker_hive_relay.Enqueuer.Payload.{
  Setup, Context, encoded_size, content_bytes, added, add_memory, add_row, then_rows, row_of,
  hashed, known_id, add_rows, add_refs, searched, is_enough, exact_ids, int_env, gather_context,
  max_context_bytes, context_items, payload_of, prompt_of, checked_mode, refs_of, job_id_of,
  build_payload,
}

-- The bytes of a memory's content.
abbrev pub text_size : Value → ℕ
text_size (str text) = length (utf8 text)
text_size _ = 0

unfoldable pub total_bytes : List Fields → ℕ
total_bytes [] = 0
total_bytes (d ∷ ds) = text_size (get_or "content" (str "") d) + total_bytes ds

total_bytes-append :
    (xs ys : List Fields) → total_bytes (xs ++ ys) ≡ total_bytes xs + total_bytes ys
unfolding total_bytes
total_bytes-append [] ys = omega arith
total_bytes-append (d ∷ ds) ys = omega (arith, total_bytes-append ds ys)

none_counted : total_bytes [] ≡ 0
unfolding total_bytes
none_counted = refl

-- The count is that of the memories, and under the limit.
pub record Sized (limit : ℕ) (c : Context) : Type 0 where
  pub counts : total_bytes c.0 ≡ c.1
  pub below : c.1 ≤ limit

encoded_size-size : (v : Value) (n : ℕ) → encoded_size v ≡ ok n → text_size v ≡ n
encoded_size-size (str text) n h = cc h
encoded_size-size null n h = absurd (cc h)
encoded_size-size (bool _) n h = absurd (cc h)
encoded_size-size (num _) n h = absurd (cc h)
encoded_size-size (arr _) n h = absurd (cc h)
encoded_size-size (obj _) n h = absurd (cc h)

module _ (limit : ℕ) where
  total-add :
      (d : Fields) (c : Context) (n : ℕ)
      → text_size (get_or "content" (str "") d) ≡ n
      → total_bytes c.0 ≡ c.1
      → total_bytes (c.0 ++ (d ∷ [])) ≡ c.1 + n
  unfolding total_bytes
  total-add d c n size counted = omega (arith, total_bytes-append c.0 (d ∷ []))

  added-Sized :
      (d : Fields) (c after : Context) (n : ℕ)
      → text_size (get_or "content" (str "") d) ≡ n
      → Sized limit c
      → added limit d c (ok n) ≡ ok after
      → Sized limit after
  added-Sized d (memories, total) after n size s h = go (ltb limit (total + n)) refl h
    where
      go :
          (b : Bool)
          → ltb limit (total + n) ≡ b
          → (if b
              then fail value_error "MNEMOS context exceeds the limit of UTF-8 bytes"
              else ok (memories ++ (d ∷ []), total + n))
            ≡ ok after
          → Sized limit after
      go true e k = absurd (cc k)
      go false e k =
          let same : Path Context (memories ++ (d ∷ []), total + n) after = cc k in
          subst (Sized limit) same (record {
            counts = total-add d (memories, total) n size s.counts;
            below = ground arith;
          })

  add_memory-Sized :
      (d : Fields) (c after : Context)
      → Sized limit c
      → add_memory limit d c ≡ ok after
      → Sized limit after
  unfolding content_bytes
  add_memory-Sized d c after s h = go (encoded_size (get_or "content" (str "") d)) refl h
    where
      go :
          (r : Result ℕ)
          → encoded_size (get_or "content" (str "") d) ≡ r
          → added limit d c r ≡ ok after
          → Sized limit after
      go (err e) same k = absurd (cc k)
      go (ok n) same k =
          added-Sized d c after n (encoded_size-size (get_or "content" (str "") d) n same) s k

  add_row-Sized :
      (ids : List Value) (d : Fields) (c after : Context) (r : Result Value)
      → Sized limit c
      → add_row limit ids d c r ≡ ok after
      → Sized limit after
  add_row-Sized ids d c after (err e) s h = absurd (cc h)
  add_row-Sized ids d c after (ok id) s h = go (known_id id ids) h
    where
      go : (b : Bool) → (if b then ok c else add_memory limit d c) ≡ ok after → Sized limit after
      go true k = let same : Path Context c after = cc k in subst (Sized limit) same s
      go false k = add_memory-Sized d c after s k

  add_rows-Sized :
      (ids : List Value) (rows : Items) (c after : Context)
      → Sized limit c
      → add_rows limit ids rows c ≡ ok after
      → Sized limit after
  unfolding add_rows
  add_rows-Sized ids nil c after s h =
      let same : Path Context c after = cc h in subst (Sized limit) same s
  add_rows-Sized ids (cons row rows) c after s h =
      go (add_row limit ids (row_of row) c (hashed (get_null "id" (row_of row)))) refl h
        (λ mid t k. add_rows-Sized ids rows mid after t k)
    where
      go :
          (r : Result Context)
          → add_row limit ids (row_of row) c (hashed (get_null "id" (row_of row))) ≡ r
          → then_rows (add_rows limit ids rows) r ≡ ok after
          → ((mid : Context)
              → Sized limit mid
              → add_rows limit ids rows mid ≡ ok after
              → Sized limit after)
          → Sized limit after
      go (err e) same k onwards = absurd (cc k)
      go (ok mid) same k onwards =
          onwards mid
            (add_row-Sized ids (row_of row) c mid (hashed (get_null "id" (row_of row))) s same) k

  module _ (setup : Setup) {N : Bus} where
    add_refs-Sized :
        (refs : Items) (c : Context)
        → Sized limit c
        → Yields {S = Bridge N} (Sized limit) (add_refs setup limit refs c)
    unfolding add_refs
    add_refs-Sized nil c s = Yields-pure c s
    add_refs-Sized (cons id ids) c s =
        Yields-bind _ _ (Yields-any (mnemos_get setup.mnemos id)) (λ memory _.
          Yields-bind _ _ (record { of = λ w after e. add_memory-Sized memory c after s e })
            (λ more t. add_refs-Sized ids more t))

    gather_context-Sized :
        (mode : String) (refs : Items) (prompt : Value)
        → Yields {S = Bridge N} (Sized limit) (gather_context setup mode limit refs prompt)
    unfolding gather_context
    gather_context-Sized mode refs prompt =
        Yields-bind _ _
          (add_refs-Sized refs ([], 0) (record { counts = none_counted; below = omega arith }))
          (λ exact s. Yields-bind _ _ (Yields-any (lift (exact_ids exact.0))) (λ ids _.
            Yields-bind _ _
              (Yields-any (lift (int_env setup "NODE_RELAY_CONTEXT_SKIP_SEARCH_AT_COUNT" "0")))
              (λ count _.
                Yields-bind _ _
                  (Yields-any (lift (int_env setup "NODE_RELAY_CONTEXT_SKIP_SEARCH_AT_BYTES" "0")))
                  (λ bytes _.
                    Yields-bind _ _
                      (Yields-any (searched setup mode (is_enough setup exact count bytes) prompt))
                      (λ rows _. record {
                        of = λ w after e. add_rows-Sized ids rows exact after s e;
                      })))))

context-payload_of :
    (setup : Setup) (job : Fields) (id : Value) (memories : List Fields)
    → get "context" (payload_of setup job id memories) ≡ some (arr (context_items setup memories))
unfolding get
context-payload_of setup job id memories = refl

-- The context of a payload is bounded: where NODE_RELAY_MAX_CONTEXT_BYTES gives a limit, every
-- payload that is built has a list of memories as its context, and the UTF-8 texts of their
-- contents have together at most that many bytes, whatever MNEMOS answers.
pub build_payload-le-limit :
    (setup : Setup) {N : Bus} (job p : Fields) (limit : ℕ) (w : Bridge N)
    → max_context_bytes setup ≡ ok limit
    → (build_payload setup job w).0 ≡ ok p
    → (memories : List Fields) × (get "context" p ≡ some (arr (context_items setup memories)))
      × (total_bytes memories ≤ limit)
unfolding build_payload
build_payload-le-limit setup {N} job p limit w limits h = all_fits.of w p h
  where
    Fits : Fields → Type 0
    Fits q =
        (memories : List Fields) × (get "context" q ≡ some (arr (context_items setup memories)))
        × (total_bytes memories ≤ limit)

    fitting :
        (most : ℕ) (c : Context)
        → max_context_bytes setup ≡ ok most
        → Sized most c
        → total_bytes c.0 ≤ limit
    fitting most c same s =
        let one : Path (Result ℕ) (ok most) (ok limit) = sym same ∙ limits in
        let agree : most ≡ limit = cc one in omega (arith, s.counts, s.below, agree)

    all_fits : Yields {S = Bridge N} Fits (build_payload setup job)
    all_fits = Yields-bind _ _ (Yields-any (lift (checked_mode setup))) (λ mode _.
        Yields-bind _ _ (Yields-any (lift (refs_of setup mode job))) (λ refs _.
          Yields-bind {P = λ most. max_context_bytes setup ≡ ok most} _ _
            (record { of = λ x most e. e })
            (λ most same.
              Yields-bind _ _ (gather_context-Sized most setup mode refs (prompt_of setup job))
                (λ context s. Yields-bind _ _ (Yields-any (lift (job_id_of setup job))) (λ id _.
                  Yields-pure _ (
                    context.0,
                    context-payload_of setup job id context.0,
                    fitting most context same s,
                  ))))))
