-- ===== src/Reconciler/Evidence.antt =====
-- The reconciler deletes nothing that the bus has not acknowledged.
use worker_hive_relay.Prelude.{
  ℕ, String, ◌≡◌, refl, inl, inr, Option-cases, Bool, true, false, Option, none, some, arith,
  if◌then◌else◌, ◌==◌, ◌||◌,
}
use worker_hive_relay.Exec.{Result, ok, err, Exec, pure, lift, ◌>>=◌}
use worker_hive_relay.Value.{Value, Fields, get_null, truthy, equals_str}
use worker_hive_relay.Crypto.{Codec}
use worker_hive_relay.Hive.{
  Bus, Bridge, HiveClient, Response, is_success, accepted, patch_request, patch_status,
  patch_status_code,
}
use worker_hive_relay.Reconciler.{
  Lander, failed_result, reviewed_result, land_patch, after_review_code, report_result,
  report_shrunk, report, shrink_result,
}

-- The last request that the bus took was a PATCH of this job, and the bus answered with a 2xx.
pub record Acknowledged (N : Bus) (uuid : String) (hive : HiveClient) (after : N.State)
    : Type 0 where
  pub status : String
  pub result : Option Fields
  pub claimed_by : Value
  pub token : Value
  pub before : N.State
  pub answer : Response
  pub sent :
      N.send (patch_request hive uuid status result claimed_by token) before ≡ (some answer, after)
  pub success : is_success answer.status_code ≡ true

-- An action that is true only if the bus acknowledged the job.
abbrev pub Acknowledges : {N : Bus} → String → Exec (Bridge N) Bool → Type 0
Acknowledges {N} uuid m =
    (w : Bridge N) → (m w).0 ≡ ok true → Acknowledged N uuid w.hive (m w).1.bus

module _ {N : Bus} (uuid : String) where
  -- A status code in the 2xx range comes from an answer.
  code_acknowledges :
      (status : String) (result : Option Fields) (claimed_by token : Value) (w : Bridge N)
      → let r = patch_status_code uuid status result claimed_by token w in
        (code : Option ℕ)
        → r.0 ≡ ok code
        → accepted code ≡ true
        → Acknowledged N uuid w.hive r.1.bus
  unfolding patch_status_code
  code_acknowledges status result claimed_by token w code h success =
      let r = patch_request w.hive uuid status result claimed_by token in
      elim (Option-cases (N.send r w.bus).0) [
        | inl lost ↦ absurd (ground (arith, h, success, lost))
        | inr (answer, got) ↦ record {
          status = status;
          result = result;
          claimed_by = claimed_by;
          token = token;
          before = w.bus;
          answer = answer;
          sent = ground (arith, got);
          success = ground (arith, h, success, got);
        }
      ]

  patch_status-Acknowledges :
      (status : String) (result : Option Fields) (claimed_by token : Value)
      → Acknowledges {N = N} uuid (patch_status uuid status result claimed_by token)
  unfolding patch_status patch_status_code
  patch_status-Acknowledges status result claimed_by token w h =
      code_acknowledges status result claimed_by token w _ refl (ground (arith, h))

  Acknowledges-if :
      (b : Bool) (m n : Exec (Bridge N) Bool)
      → Acknowledges uuid m
      → Acknowledges uuid n
      → Acknowledges uuid (if b then m else n)
  Acknowledges-if true m n hm hn = hm
  Acknowledges-if false m n hm hn = hn

  Acknowledges-false : Acknowledges {N = N} uuid (pure false)
  Acknowledges-false w h = absurd (cc h)

  accepted_or :
      (b c : Bool) (m : Exec (Bridge N) Bool) (w : Bridge N)
      → (b ≡ true → Acknowledged N uuid w.hive w.bus)
      → Acknowledges uuid m
      → ((if b then pure true else if c then m else pure false) w).0 ≡ ok true
      → Acknowledged N uuid w.hive ((if b then pure true else if c then m else pure false) w).1.bus
  accepted_or true c m w base hm h = base refl
  accepted_or false c m w base hm h = Acknowledges-if c m (pure false) hm Acknowledges-false w h

  after_code :
      (result : Fields) (claimant token : Value) (code : Option ℕ) (w : Bridge N)
      → (accepted code ≡ true → Acknowledged N uuid w.hive w.bus)
      → (after_review_code uuid result claimant token code w).0 ≡ ok true
      → Acknowledged N uuid w.hive (after_review_code uuid result claimant token code w).1.bus
  unfolding after_review_code
  after_code result claimant token none w base h = absurd (cc h)
  after_code result claimant token (some code) w base h =
      accepted_or (is_success code) (code == 400 || code == 422) _ w base
        (patch_status-Acknowledges "done" (some result) claimant token) h

  review-Acknowledges :
      (result : Fields) (claimant token : Value)
      → Acknowledges {N = N} uuid (
          patch_status_code uuid "needs-review" (some result) claimant token
          >>= after_review_code uuid result claimant token)
  unfolding patch_status_code
  review-Acknowledges result claimant token w h =
      after_code result claimant token _ _
        (code_acknowledges "needs-review" (some result) claimant token w _ refl) h

  report_result-Acknowledges :
      (result : Fields) (claimant token : Value)
      → Acknowledges {N = N} uuid (report_result uuid result claimant token)
  unfolding report_result
  report_result-Acknowledges result claimant token =
      Acknowledges-if (truthy (get_null "needs_review" result)) _ _
        (review-Acknowledges result claimant token)
        (patch_status-Acknowledges "done" (some result) claimant token)

  landed-Acknowledges :
      (codec : Codec) (claimant token : Value) (r : Result (Option Fields))
      → Acknowledges {N = N} uuid (lift r >>= report_shrunk codec uuid claimant token)
  unfolding report_shrunk
  landed-Acknowledges codec claimant token (err e) w h = absurd (cc h)
  landed-Acknowledges codec claimant token (ok none) w h = absurd (cc h)
  landed-Acknowledges codec claimant token (ok (some result)) w h =
      report_result-Acknowledges (shrink_result codec result) claimant token w h

  pub report-Acknowledges :
      (codec : Codec) (lander : Lander) (payload : Fields)
      → Acknowledges {N = N} uuid (report codec lander uuid payload)
  unfolding report
  report-Acknowledges codec lander payload =
      let claimant = get_null "claimant_urn" payload in
      let token = get_null "_claimant_token" payload in
      Acknowledges-if (equals_str (get_null "status" payload) "failed") _ _
        (patch_status-Acknowledges "failed" (some (failed_result codec payload)) claimant token)
        (landed-Acknowledges codec claimant token (
          land_patch codec lander payload uuid
            (reviewed_result (equals_str (get_null "status" payload) "needs-review") payload)))
