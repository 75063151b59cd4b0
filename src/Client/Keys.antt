-- ===== src/Client/Keys.antt =====
-- The object names of a job are told apart by their kind and by the job.
use text.Mathlib.TextLemmas
use text.Mathlib.TextEquality.{eq_iff}
use worker_hive_relay.Prelude.{
  String, ◌<>◌, ◌≡◌, ◌≢◌, refl, sym, Bool, true, false, ◌&&◌, arith, ◌=ₛ◌, inl, inr, subst,
  Bool-cases, =ₛ-false, prefix_ne, prefix_ne_after,
}
use worker_hive_relay.Client.{Slot, pending, claimant, claimed, terminal, active, key_of, suffix}

abbrev pub same_slot : Slot → Slot → Bool
same_slot pending pending = true
same_slot claimant claimant = true
same_slot claimed claimed = true
same_slot terminal terminal = true
same_slot active active = true
same_slot _ _ = false

framed_injective : (p u v s : String) → p <> (u <> s) ≡ p <> (v <> s) → u ≡ v
framed_injective p u v s h =
    TextLemmas.append_cancel_right u v s (TextLemmas.append_cancel_left p (u <> s) (v <> s) h)

-- One kind: the job is read off the name.
pub key_of-injective : (a : Slot) (u v : String) → key_of a u ≡ key_of a v → u ≡ v
unfolding key_of
key_of-injective pending u v h = framed_injective "pending/" u v suffix h
key_of-injective claimant u v h = framed_injective "claimant/" u v suffix h
key_of-injective claimed u v h = TextLemmas.append_cancel_left "claimed/" u v h
key_of-injective terminal u v h = framed_injective "terminal/" u v suffix h
key_of-injective active u v h = framed_injective "status/active/" u v suffix h

claimant_ne_claimed : (u v : String) → "claimant/" <> u ≢ "claimed/" <> v
claimant_ne_claimed u v =
    prefix_ne_after "claim" "ant/" "ed/" u v (prefix_ne "a" "e" "nt/" "d/" u v (omega arith))

-- Two kinds: the names differ.
key_of_ne : (a b : Slot) (u v : String) → same_slot a b ≡ false → key_of a u ≢ key_of b v
unfolding key_of
key_of_ne pending pending u v h = cc
key_of_ne pending claimant u v h = prefix_ne "p" "c" "ending/" "laimant/" _ _ (omega arith)
key_of_ne pending claimed u v h = prefix_ne "p" "c" "ending/" "laimed/" _ _ (omega arith)
key_of_ne pending terminal u v h = prefix_ne "p" "t" "ending/" "erminal/" _ _ (omega arith)
key_of_ne pending active u v h = prefix_ne "p" "s" "ending/" "tatus/active/" _ _ (omega arith)
key_of_ne claimant pending u v h = prefix_ne "c" "p" "laimant/" "ending/" _ _ (omega arith)
key_of_ne claimant claimant u v h = cc
key_of_ne claimant claimed u v h = claimant_ne_claimed _ _
key_of_ne claimant terminal u v h = prefix_ne "c" "t" "laimant/" "erminal/" _ _ (omega arith)
key_of_ne claimant active u v h = prefix_ne "c" "s" "laimant/" "tatus/active/" _ _ (omega arith)
key_of_ne claimed pending u v h = prefix_ne "c" "p" "laimed/" "ending/" _ _ (omega arith)
key_of_ne claimed claimant u v h = λ e. claimant_ne_claimed _ _ (sym e)
key_of_ne claimed claimed u v h = cc
key_of_ne claimed terminal u v h = prefix_ne "c" "t" "laimed/" "erminal/" _ _ (omega arith)
key_of_ne claimed active u v h = prefix_ne "c" "s" "laimed/" "tatus/active/" _ _ (omega arith)
key_of_ne terminal pending u v h = prefix_ne "t" "p" "erminal/" "ending/" _ _ (omega arith)
key_of_ne terminal claimant u v h = prefix_ne "t" "c" "erminal/" "laimant/" _ _ (omega arith)
key_of_ne terminal claimed u v h = prefix_ne "t" "c" "erminal/" "laimed/" _ _ (omega arith)
key_of_ne terminal terminal u v h = cc
key_of_ne terminal active u v h = prefix_ne "t" "s" "erminal/" "tatus/active/" _ _ (omega arith)
key_of_ne active pending u v h = prefix_ne "s" "p" "tatus/active/" "ending/" _ _ (omega arith)
key_of_ne active claimant u v h = prefix_ne "s" "c" "tatus/active/" "laimant/" _ _ (omega arith)
key_of_ne active claimed u v h = prefix_ne "s" "c" "tatus/active/" "laimed/" _ _ (omega arith)
key_of_ne active terminal u v h = prefix_ne "s" "t" "tatus/active/" "erminal/" _ _ (omega arith)
key_of_ne active active u v h = cc

same_slot-eq : (a b : Slot) → same_slot a b ≡ true → a ≡ b
same_slot-eq pending pending h = refl
same_slot-eq claimant claimant h = refl
same_slot-eq claimed claimed h = refl
same_slot-eq terminal terminal h = refl
same_slot-eq active active h = refl
same_slot-eq _ _ h = ground arith

same_slot_refl : (a : Slot) → same_slot a a ≡ true
same_slot_refl pending = refl
same_slot_refl claimant = refl
same_slot_refl claimed = refl
same_slot_refl terminal = refl
same_slot_refl active = refl

key_of-eq_same : (a : Slot) (u v : String) → (key_of a u =ₛ key_of a v) ≡ (u =ₛ v)
key_of-eq_same a u v =
    ground (arith, eq_iff (key_of a u) (key_of a v), eq_iff u v, key_of-injective a u v)

-- Comparing two names is comparing the kinds and the jobs.
pub key_of-eq :
    (a b : Slot) (u v : String) → (key_of a u =ₛ key_of b v) ≡ (same_slot a b && (u =ₛ v))
key_of-eq a b u v = elim (Bool-cases (same_slot a b)) [
  | inl same ↦
      subst (λ c. (key_of a u =ₛ key_of c v) ≡ (same_slot a c && (u =ₛ v))) (same_slot-eq a b same)
        (rw (key_of-eq_same a u v, same_slot_refl a))
  | inr differ ↦ rw (differ, =ₛ-false _ _ (key_of_ne a b u v differ))
]
