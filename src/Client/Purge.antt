-- ===== src/Client/Purge.antt =====
-- `purge` removes every object of its job and no object of another job.
use text.Mathlib.TextPositions.{eq_refl}
use worker_hive_relay.Prelude.{String, ◌≡◌, refl, true, none, arith, ◌=ₛ◌, if◌then◌else◌}
use worker_hive_relay.Exec.{Result, ok, err, pure, continue, ◌>>=◌}
use worker_hive_relay.Backend.{Backend, IsLawful}
use worker_hive_relay.Client.{World, Slot, pending, claimant, claimed, terminal, active, purge}
use worker_hive_relay.Client.Keys.{key_of-eq}
use worker_hive_relay.Client.Objects.{object}

module _ {B : Backend} {X : Type 0} (L : IsLawful B) where
  -- After `purge` a job has no object of any kind, and every object of every other job is as it was.
  pub object-purge :
      (u v : String) (a : Slot) (w : World B X)
      → ((purge u w).0 ≡ ok tt)
        × (object L (purge u w).1 a v ≡ (if u =ₛ v then none else object L w a v))
  unfolding purge
  object-purge u v pending w =
      (simp L.answer-delete, simp (L.answer-delete, L.view-delete, key_of-eq) (ground arith))
  object-purge u v claimant w =
      (simp L.answer-delete, simp (L.answer-delete, L.view-delete, key_of-eq) (ground arith))
  object-purge u v claimed w =
      (simp L.answer-delete, simp (L.answer-delete, L.view-delete, key_of-eq) (ground arith))
  object-purge u v terminal w =
      (simp L.answer-delete, simp (L.answer-delete, L.view-delete, key_of-eq) (ground arith))
  object-purge u v active w =
      (simp L.answer-delete, simp (L.answer-delete, L.view-delete, key_of-eq) (ground arith))

  purge-rest : (u : String) (w : World B X) → (purge u w).1.rest ≡ w.rest
  unfolding purge
  purge-rest u w = simp L.answer-delete

  then_true :
      (r : Result (Unit {0})) (t : World B X)
      → r ≡ ok tt
      → continue r t (λ _. pure true) ≡ (ok true, t)
  then_true (ok tt) t h = refl
  then_true (err e) t h = absurd (cc h)

  -- `purge` returns, whatever the store holds, and touches nothing but the store.
  pub purge_then :
      (u : String) (w : World B X)
      → let r = (purge u >>= λ _. pure true) w in
        (r.0 ≡ ok true) × (r.1.rest ≡ w.rest) × ((a : Slot) → object L r.1 a u ≡ none)
  purge_then u w =
      rw (then_true (purge u w).0 (purge u w).1 (object-purge u u pending w).0)
        (refl, purge-rest u w, λ a. rw ((object-purge u u a w).1, eq_refl u) refl)
