-- ===== src/Client/Fairness.antt =====
-- Fairness of the bounded sweeps: a rotation from any cursor skips nothing.
use mathlib.Core.List.{append-nil}
use worker_hive_relay.Prelude.{
  ℕ, ◌≤◌, String, ◌≡◌, refl, ap, ◌∙◌, inl, inr, true, Option, none, some, List, [], ◌∷◌, ◌++◌,
  arith, length, length-append, str_lt, Bool-cases, str_lt_trans, ◌||◌,
}
use worker_hive_relay.Exec.{ok}
use worker_hive_relay.Backend.{Backend, IsLawful, after, contains, IsAscending}
use worker_hive_relay.Client.{World, cursor_of}
use worker_hive_relay.Client.Sweep.{collect, iter_uuids}
use worker_hive_relay.Client.Rotation.{uuids, up_to, rotation, take_all, iter_uuids_yields}

-- The keys of an ascending listing come again in a rotation, each as often.
after_all :
    (c : String) (ks : List String)
    → IsAscending ks
    → (elim ks [ [] ↦ true | k ∷ _ ↦ str_lt c k ]) ≡ true
    → after c ks ≡ ks
unfolding after
after_all c [] h e = refl
after_all c (k ∷ []) h e = rw e
after_all c (k ∷ j ∷ ks) h e =
    rw e (ap (λ js. k ∷ js) (after_all c (j ∷ ks) h.1 (str_lt_trans c k j e h.0)))

contains-append :
    (k : String) (xs ys : List String) → contains k (xs ++ ys) ≡ (contains k xs || contains k ys)
unfolding contains
contains-append k [] ys = refl
contains-append k (x ∷ xs) ys = ground (arith, contains-append k xs ys)

IsAscending-tail : (k : String) (ks : List String) → IsAscending (k ∷ ks) → IsAscending ks
IsAscending-tail k [] h = tt
IsAscending-tail k (j ∷ ks) h = h.1

head_later :
    (c j : String) (ks : List String)
    → IsAscending (j ∷ ks)
    → str_lt c j ≡ true
    → (elim ks [ [] ↦ true | k ∷ _ ↦ str_lt c k ]) ≡ true
head_later c j [] h e = refl
head_later c j (k ∷ ks) h e = str_lt_trans c j k e h.0

-- A rotation from any cursor has every key of the listing, no other one, and none twice.
rotation_covers :
    (c k : String) (ks : List String)
    → IsAscending ks
    → (contains k (rotation (some c) ks) ≡ contains k ks)
      × (length (rotation (some c) ks) ≡ length ks)
unfolding after up_to contains
rotation_covers c k [] h = (refl, refl)
rotation_covers c k (j ∷ ks) h = elim (Bool-cases (str_lt c j)) [
  | inl later ↦
      rw (later, append-nil (after c ks))
        (rw (after_all c ks (IsAscending-tail j ks h) (head_later c j ks h later)) (refl, refl))
  | inr early ↦
      let (covers, size) = rotation_covers c k ks (IsAscending-tail j ks h) in
      rw early (
        ground (
          arith,
          covers,
          size,
          contains-append k (after c ks) (j ∷ up_to (some c) ks),
          contains-append k (after c ks) (up_to (some c) ks),
          length-append (after c ks) (j ∷ up_to (some c) ks),
          length-append (after c ks) (up_to (some c) ks),
        ))
]

covers_any :
    (cursor : Option String) (k : String) (ks : List String)
    → IsAscending ks
    → (contains k (rotation cursor ks) ≡ contains k ks) × (length (rotation cursor ks) ≡ length ks)
covers_any none k ks h = (refl, refl)
covers_any (some c) k ks h = rotation_covers c k ks h

length-uuids : (p : String) (ks : List String) → length (uuids p ks) ≤ length ks
unfolding uuids
length-uuids p [] = omega arith
length-uuids p (k ∷ ks) = ground (arith, length-uuids p ks)

module _ {B : Backend} {X : Type 0} (L : IsLawful B) where
  -- No job starves: a sweep with room for the whole listing yields the uuids of a list of keys
  -- that has every key of the listing, no other one, and the listing's length, wherever the
  -- cursor of the sweep before was left.
  pub iter_uuids_covers :
      (p : String) (n : ℕ) (w : World B X)
      → length (L.listing w.bucket p) ≤ n
      → (keys : List String) × (((iter_uuids p (some n) true collect [] w).0 ≡ ok (uuids p keys))
          × ((length keys ≡ length (L.listing w.bucket p))
              × ((k : String) → contains k keys ≡ contains k (L.listing w.bucket p))))
  iter_uuids_covers p n w room =
      let ks = L.listing w.bucket p in
      let c = cursor_of p w.cursors in
      let h = L.listing-IsAscending w.bucket p in
      let bound : length (uuids p (rotation c ks)) ≤ n =
        ground (arith, length-uuids p (rotation c ks), (covers_any c "" ks h).1) in
      (
        rotation c ks,
        (
          iter_uuids_yields L p n w ∙ ap ok (take_all n (uuids p (rotation c ks)) bound),
          ((covers_any c "" ks h).1, λ k. (covers_any c k ks h).0),
        ),
      )
