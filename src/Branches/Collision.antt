-- ===== src/Branches/Collision.antt =====
-- Jobs that share a review branch.
use worker_hive_relay.Prelude.{
  String, ◌<>◌, ◌≡◌, refl, sym, ap, ◌∙◌, ◌⊎◌, inl, inr, true, false, arith, ◌=ₛ◌, len, Bool-cases,
}
use Prim.Native.String.{slice}
use text.Mathlib.TextLemmas
use text.Mathlib.TextPositions
use text.Mathlib.TextEquality.{eq_iff}
use worker_hive_relay.Exec.{ok}
use worker_hive_relay.Git.{Libs}
use worker_hive_relay.Branches.{sanitize, digest, branch_name, branch_for_job}
use worker_hive_relay.Branches.Plain.{IsDigest, name_of_branch}

-- Texts that end alike in length are cut at the same place.
cut_alike : (s₁ s₂ t₁ t₂ : String) → s₁ <> t₁ ≡ s₂ <> t₂ → len t₁ ≡ len t₂ → t₁ ≡ t₂
cut_alike s₁ s₂ t₁ t₂ e h =
    let long : len s₁ ≡ len s₂ =
      omega (arith, TextPositions.len-append s₁ t₁, TextPositions.len-append s₂ t₂, ap len e) in
    let start : s₁ ≡ s₂ =
      sym (TextPositions.slice-append_left s₁ t₁)
      ∙ ap (λ x. slice x 0 (len s₁)) e
      ∙ ap (λ n. slice (s₂ <> t₂) 0 n) long
      ∙ TextPositions.slice-append_left s₂ t₂ in
    TextLemmas.append_cancel_left s₂ t₁ t₂ (ap (λ x. x <> t₁) (sym start) ∙ e)

module _ (libs : Libs) (D : IsDigest libs) where
  -- The name of an altered job id.
  abbrev pub altered : String → String
  altered raw = sanitize raw <> ("-" <> digest libs 8 raw)

  abbrev pub Alike : (a b : String) → Type 0
  Alike a b = (a ≡ b) ⊎ (digest libs 8 a ≡ digest libs 8 b) ⊎ (a ≡ altered b) ⊎ (b ≡ altered a)

  altered-digest : (a b : String) → altered a ≡ altered b → digest libs 8 a ≡ digest libs 8 b
  altered-digest a b e =
      cut_alike (sanitize a <> "-") (sanitize b <> "-") (digest libs 8 a) (digest libs 8 b)
        (TextLemmas.append_assoc (sanitize a) "-" (digest libs 8 a)
          ∙ e
          ∙ sym (TextLemmas.append_assoc (sanitize b) "-" (digest libs 8 b)))
        (D.len-digest a ∙ sym (D.len-digest b))

  kept_or_altered :
      (raw name : String)
      → branch_for_job libs raw ≡ ok name
      → (name ≡ "hive/node-" <> raw) ⊎ (name ≡ "hive/node-" <> altered raw)
  kept_or_altered raw name h =
      let e = name_of_branch libs raw name h in
      elim (Bool-cases (sanitize raw =ₛ raw)) [
        | inl kept ↦ inl (e ∙ kept_name kept)
        | inr changed ↦ inr (e ∙ altered_name changed)
      ]
    where
      kept_name :
          (sanitize raw =ₛ raw) ≡ true → branch_name libs raw (sanitize raw) ≡ "hive/node-" <> raw
      kept_name k = rw k (ap (λ s. "hive/node-" <> s) ((eq_iff (sanitize raw) raw).0 k))

      altered_name :
          (sanitize raw =ₛ raw) ≡ false
          → branch_name libs raw (sanitize raw) ≡ "hive/node-" <> altered raw
      altered_name k = rw k refl

  -- Review branches are collision resistant: where the digests have eight characters, two job ids
  -- with the same branch are equal, or have the same digest, or one of them is spelled as the
  -- other's sanitized id with the other's digest behind it.
  pub branch_for_job_collision :
      (a b name : String)
      → branch_for_job libs a ≡ ok name
      → branch_for_job libs b ≡ ok name
      → Alike a b
  branch_for_job_collision a b name ha hb =
      meet (kept_or_altered a name ha) (kept_or_altered b name hb)
    where
      cancel : (s t : String) → name ≡ "hive/node-" <> s → name ≡ "hive/node-" <> t → s ≡ t
      cancel s t p q = TextLemmas.append_cancel_left "hive/node-" s t (sym p ∙ q)

      meet :
          (name ≡ "hive/node-" <> a) ⊎ (name ≡ "hive/node-" <> altered a)
          → (name ≡ "hive/node-" <> b) ⊎ (name ≡ "hive/node-" <> altered b)
          → Alike a b
      meet (inl p) (inl q) = inl (cancel a b p q)
      meet (inl p) (inr q) = inr (inr (inl (cancel a (altered b) p q)))
      meet (inr p) (inl q) = inr (inr (inr (cancel b (altered a) q p)))
      meet (inr p) (inr q) = inr (inl (altered-digest a b (cancel (altered a) (altered b) p q)))
