-- ===== src/Client/Objects.antt =====
-- The objects of a job under the client's operations, over any lawful store.
use text.Mathlib.TextEquality.{eq_iff}
use text.Mathlib.TextPositions.{eq_refl}
use worker_hive_relay.Prelude.{String, ◌≡◌, refl, ap, true, false, Option, none, some, arith, Bytes}
use worker_hive_relay.Exec.{ok, fail, not_found}
use worker_hive_relay.Backend.{Backend, IsLawful}
use worker_hive_relay.Client.Keys.{key_of-eq}
use worker_hive_relay.Client.{
  World, Slot, terminal, active, key_of, put_terminal, put_active, claimed, get_terminal,
  get_active,
}

abbrev pub body_of : {V : Type 0} → Option (Bytes × V) → Option Bytes
body_of none = none
body_of (some (b, _)) = some b

body_of-some :
    {V : Type 0} (o : Option (Bytes × V)) (b : Bytes)
    → body_of o ≡ some b
    → (v : V) × (o ≡ some (b, v))
body_of-some none b h = absurd (ground arith)
body_of-some (some (c, v)) b h = (v, ground arith)

module _ {B : Backend} {X : Type 0} (L : IsLawful B) where
  -- What the store holds for a job, by kind.
  abbrev pub object : World B X → Slot → String → Option (Bytes × B.Version)
  object w a u = L.view w.bucket (key_of a u)

  -- The body alone.
  abbrev pub body : World B X → Slot → String → Option Bytes
  body w a u = body_of (object w a u)

  pub object-body :
      (w : World B X) (a : Slot) (u : String) (b : Bytes)
      → body w a u ≡ some b
      → (v : B.Version) × (object w a u ≡ some (b, v))
  object-body w a u b h = body_of-some (object w a u) b h

  -- The first terminal object of a job stays: the first write is taken, a second one is refused
  -- whatever it brings, changes no object, and the job's terminal object reads as the first.
  pub put_terminal_once :
      (u : String) (first second : Bytes) (w : World B X)
      → object w terminal u ≡ none
      → let w1 = (put_terminal u first w).1 in
        let w2 = (put_terminal u second w1).1 in
        ((put_terminal u first w).0 ≡ ok true)
        × ((put_terminal u second w1).0 ≡ ok false)
        × ((get_terminal u w2).0 ≡ ok first)
        × ((a : Slot) (v : String) → object w2 a v ≡ object w1 a v)
  unfolding put_terminal get_terminal
  put_terminal_once u first second w h =
      let k = key_of terminal u in
      let s1 = (B.create_only k first w.bucket).1 in
      (
        simp (L.answer-create_only, h),
        simp (L.answer-create_only, L.view-create_only, eq_refl, h),
        simp (L.answer-read, L.view-create_only, eq_refl, h),
        λ a v. ground (
          arith,
          h,
          L.view-create_only k second s1 (key_of a v),
          L.view-create_only k first w.bucket k,
          eq_iff k (key_of a v),
          eq_iff k k,
        ),
      )

  -- What a read answers, and that it changes nothing.
  pub get_terminal_reads :
      (u : String) (w : World B X)
      → get_terminal u w ≡ (
        elim (object w terminal u) [
          | none ↦ fail not_found (key_of terminal u)
          | some (b, _) ↦ ok b
        ],
        w,
      )
  unfolding get_terminal
  get_terminal_reads u w = rw L.answer-read refl

  pub get_terminal_still : (u : String) (w : World B X) → (get_terminal u w).1 ≡ w
  get_terminal_still u w = ap (λ r. r.1) (get_terminal_reads u w)

  pub get_active_reads :
      (u : String) (w : World B X)
      → get_active u w ≡ (ok (elim (object w active u) [ none ↦ none | some (b, _) ↦ some b ]), w)
  unfolding get_active
  get_active_reads u w = rw L.answer-read_opt refl

  pub put_active_keeps :
      (u : String) (b : Bytes) (w : World B X)
      → let t = (put_active u b w).1 in
        (t.rest ≡ w.rest)
        × ((v : String) → object t terminal v ≡ object w terminal v)
        × ((v : String) → object t claimed v ≡ object w claimed v)
  unfolding put_active
  put_active_keeps u b w =
      (refl, λ v. rw (L.view-put, key_of-eq) refl, λ v. rw (L.view-put, key_of-eq) refl)

  pub put_active_writes :
      (u : String) (b : Bytes) (w : World B X)
      → ((put_active u b w).0 ≡ ok tt) × (body (put_active u b w).1 active u ≡ some b)
  unfolding put_active
  put_active_writes u b w = (L.answer-put _ _ _, rw (L.view-put, eq_refl) refl)

  pub put_terminal_writes :
      (u : String) (b : Bytes) (w : World B X)
      → object w terminal u ≡ none
      → ((put_terminal u b w).0 ≡ ok true) × (body (put_terminal u b w).1 terminal u ≡ some b)
  unfolding put_terminal
  put_terminal_writes u b w h =
      (simp (L.answer-create_only, h), simp (L.view-create_only, eq_refl, h))
