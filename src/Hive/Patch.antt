-- ===== src/Hive/Patch.antt =====
-- Whose token a PATCH carries.
use worker_hive_relay.Prelude.{String, ◌≡◌, ◌≢◌, refl, Option, =ₛ-false}
use worker_hive_relay.Value.{null, str, Fields}
use worker_hive_relay.Hive.{HiveClient, patch_request, Request}

-- The client's own token never goes out for another claimant: a PATCH for a claimant that is a
-- URN of another agent, with no token of its own, carries no token at all, whatever token the
-- client holds.
pub patch_request-bearer :
    (h : HiveClient) (job_id status claimant : String) (result : Option Fields)
    → claimant ≢ h.urn
    → Request.bearer (patch_request h job_id status result (str claimant) null) ≡ null
patch_request-bearer h job_id status claimant result other = rw (=ₛ-false claimant h.urn other) refl
