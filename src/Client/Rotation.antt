-- ===== src/Client/Rotation.antt =====
-- Bounded sweeps: what `iter_pending` and `iter_terminal` yield, and that rotation skips nothing.
use mathlib.Core.List.{append-nil, append_assoc}
use worker_hive_relay.Prelude.{
  ℕ, zero, suc, ◌+◌, ◌-◌, ◌≤◌, ◌<◌, String, ◌≡◌, refl, sym, ap, ◌∙◌, inl, inr, Bool, true, false,
  Option, none, some, List, [], ◌∷◌, ◌++◌, arith, length, take, leb, if◌then◌else◌, ends_with, len,
  cut, Bool-cases,
}
use worker_hive_relay.Exec.{ok}
use worker_hive_relay.Backend.{Backend, IsLawful, after, start_from}
use worker_hive_relay.Client.{World, cursor_of, suffix}
use worker_hive_relay.Client.Sweep.{
  Swept, next, closed, beyond, collect, set_cursor, swept_value, sweep_range, iter_uuids, range_of,
  ranges,
}

-- The uuids of the sealed objects among the keys of a listing.
unfoldable pub uuids : String → List String → List String
uuids p [] = []
uuids p (k ∷ ks) =
    let rest = uuids p ks in if ends_with k suffix then cut k (len p) (len suffix) ∷ rest else rest

-- The keys before the first one beyond the stop.
unfoldable pub up_to : Option String → List String → List String
up_to stop [] = []
up_to stop (k ∷ ks) = let rest = up_to stop ks in if beyond stop k then [] else k ∷ rest

-- The order of a sweep: what comes after the cursor, then what comes up to it.
abbrev pub rotation : Option String → List String → List String
rotation none ks = ks
rotation (some c) ks = after c ks ++ up_to (some c) ks

abbrev outcome : ℕ → ℕ → List String → List String → Swept (List String)
outcome m y us seen =
    if leb m (y + length us)
    then closed (seen ++ take (m - y) us)
    else next (y + length us) (seen ++ us)

outcome-nil : (m y : ℕ) (seen : List String) → y < m → outcome m y [] seen ≡ next y seen
outcome-nil m y seen h = ground (arith, append-nil seen)

outcome-last :
    (m y : ℕ) (u : String) (us seen : List String)
    → y < m
    → leb m (y + 1) ≡ true
    → outcome m y (u ∷ us) seen ≡ closed (seen ++ u ∷ [])
outcome-last m y u us seen h last = let e : m - y ≡ 1 = ground arith in rw e (ground arith)

outcome-more :
    (m y : ℕ) (u : String) (us seen : List String)
    → leb m (y + 1) ≡ false
    → outcome m y (u ∷ us) seen ≡ outcome m (y + 1) us (seen ++ u ∷ [])
outcome-more m y u us seen more =
    let e : m - y ≡ suc (m - (y + 1)) = ground arith in
    rw e (
      ground
        (arith, append_assoc seen (u ∷ []) us, append_assoc seen (u ∷ []) (take (m - (y + 1)) us)))

module _ {B : Backend} {X : Type 0} where
  bucket_kept :
      (rotate : Bool) (p k : String) (w : World B X)
      → (if rotate then record w { cursors = set_cursor p k w.cursors } else w).bucket ≡ w.bucket
  bucket_kept true p k w = refl
  bucket_kept false p k w = refl

  sweep_range-collect :
      (p : String) (m : ℕ) (rotate : Bool) (stop : Option String) (ks : List String) (y : ℕ)
      (seen : List String) (w : World B X)
      → y < m
      → let r = sweep_range p (some m) rotate collect stop ks y seen w in
        (r.0 ≡ ok (outcome m y (uuids p (up_to stop ks)) seen)) × (r.1.bucket ≡ w.bucket)
  unfolding sweep_range uuids up_to
  sweep_range-collect p m rotate stop [] y seen w h = (ap ok (sym (outcome-nil m y seen h)), refl)
  sweep_range-collect p m rotate stop (k ∷ ks) y seen w h =
      let u = cut k (len p) (len suffix) in
      let us = uuids p (up_to stop ks) in
      let w' = if rotate then record w { cursors = set_cursor p k w.cursors } else w in
      let same : w'.bucket ≡ w.bucket = bucket_kept rotate p k w in
      elim (Bool-cases (beyond stop k)) [
        | inl out ↦ rw out (ap ok (sym (outcome-nil m y seen h)), refl)
        | inr inside ↦ elim (Bool-cases (ends_with k suffix)) [
          | inr foreign ↦ rw (inside, foreign) (sweep_range-collect p m rotate stop ks y seen w h)
          | inl sealed ↦ elim (Bool-cases (leb m (y + 1))) [
            | inl last ↦
                rw (inside, sealed, last) (ap ok (sym (outcome-last m y u us seen h last)), same)
            | inr more ↦
                let ih =
                  sweep_range-collect p m rotate stop ks (y + 1) (seen ++ u ∷ []) w'
                    (ground arith) in
                rw (inside, sealed, more)
                  (ih.0 ∙ ap ok (sym (outcome-more m y u us seen more)), ih.1 ∙ same)
          ]
        ]
      ]

sub_zero : (m : ℕ) → m - 0 ≡ m
sub_zero m = omega arith

take-append_lem :
    {A : Type 0} (m : ℕ) (xs ys : List A) → take m (xs ++ ys) ≡ take m xs ++ take (m - length xs) ys
take-append_lem zero [] ys = refl
take-append_lem (suc m) [] ys = rw (sub_zero (suc m)) refl
take-append_lem zero (x ∷ xs) ys = let e : 0 - suc (length xs) ≡ 0 = omega arith in rw e refl
take-append_lem (suc m) (x ∷ xs) ys =
    let e : suc m - suc (length xs) ≡ m - length xs = omega arith in
    rw e (ap (λ zs. x ∷ zs) (take-append_lem m xs ys))

pub take_all : {A : Type 0} (m : ℕ) (xs : List A) → length xs ≤ m → take m xs ≡ xs
take_all zero [] h = refl
take_all (suc m) [] h = refl
take_all zero (x ∷ xs) h = absurd (omega arith)
take_all (suc m) (x ∷ xs) h = ap (λ zs. x ∷ zs) (take_all m xs (omega arith))

uuids-append : (p : String) (xs ys : List String) → uuids p (xs ++ ys) ≡ uuids p xs ++ uuids p ys
unfolding uuids
uuids-append p [] ys = refl
uuids-append p (k ∷ xs) ys = ground (arith, uuids-append p xs ys)

up_to-none : (ks : List String) → up_to none ks ≡ ks
unfolding up_to
up_to-none [] = refl
up_to-none (k ∷ ks) = ap (λ js. k ∷ js) (up_to-none ks)

value-outcome :
    (m y : ℕ) (us seen : List String)
    → y < m
    → swept_value (outcome m y us seen) ≡ seen ++ take (m - y) us
value-outcome m y us seen h = elim (Bool-cases (leb m (y + length us))) [
  | inl full ↦ rw full
  | inr short ↦ rw (short, take_all (m - y) us (ground arith))
]

module _ {B : Backend} {X : Type 0} (L : IsLawful B) where
  range_of-collect :
      (p : String) (m : ℕ) (start stop : Option String) (y : ℕ) (seen : List String) (w : World B X)
      → y < m
      → let r = range_of p (some m) true collect start stop y seen w in
        (r.0
          ≡ ok (outcome m y (uuids p (up_to stop (start_from start (L.listing w.bucket p)))) seen))
        × (r.1.bucket ≡ w.bucket)
  range_of-collect p m start stop y seen w h =
      rw (L.answer-iter_keys p start w.bucket)
        (sweep_range-collect p m true stop (start_from start (L.listing w.bucket p)) y seen w h)

  two_ranges-collect :
      (p : String) (m : ℕ) (c : String) (w : World B X) (us : List String)
      → us ≡ uuids p (after c (L.listing w.bucket p))
      → length us < m
      → (ranges p (some m) true collect (some c) [] w).0
        ≡ ok (outcome m (length us) (uuids p (up_to (some c) (L.listing w.bucket p))) us)
  two_ranges-collect p m c w us e h =
      let first = range_of-collect p m (some c) none 0 [] w (omega arith) in
      let w1 = (range_of p (some m) true collect (some c) none 0 [] w).1 in
      let second = range_of-collect p m none (some c) (length us) us w1 h in
      let left : (range_of p (some m) true collect (some c) none 0 [] w).0
          ≡ ok (next (length us) us) =
        first.0 ∙ rw (up_to-none (after c (L.listing w.bucket p)), ← e) (ground arith) in
      rw (left, second.0, first.1)

  one_range-closed :
      (p : String) (m : ℕ) (c : String) (w : World B X)
      → 0 < m
      → leb m (length (uuids p (after c (L.listing w.bucket p)))) ≡ true
      → (ranges p (some m) true collect (some c) [] w).0
        ≡ ok (closed (take (m - 0) (uuids p (after c (L.listing w.bucket p)))))
  one_range-closed p m c w pos full =
      let ks = after c (L.listing w.bucket p) in
      let first = range_of-collect p m (some c) none 0 [] w pos in
      let left : (range_of p (some m) true collect (some c) none 0 [] w).0
          ≡ ok (closed (take (m - 0) (uuids p ks))) =
        first.0 ∙ rw (up_to-none ks) (ground arith) in
      rw left

  ranges-collect :
      (p : String) (m : ℕ) (c : Option String) (w : World B X)
      → 0 < m
      → (swept : Swept (List String)) × ((ranges p (some m) true collect c [] w).0 ≡ ok swept)
        × (swept_value swept ≡ take m (uuids p (rotation c (L.listing w.bucket p))))
  ranges-collect p m none w h =
      let ks = L.listing w.bucket p in
      (
        _,
        (range_of-collect p m none none 0 [] w h).0,
        value-outcome m 0 (uuids p (up_to none ks)) [] h ∙ rw (up_to-none ks, sub_zero m) refl,
      )
  ranges-collect p m (some c) w h =
      let ks = L.listing w.bucket p in
      let us = uuids p (after c ks) in
      let vs = uuids p (up_to (some c) ks) in
      elim (Bool-cases (leb m (length us))) [
        | inl full ↦
            let spent : m - length us ≡ 0 = ground arith in
            (
              closed (take (m - 0) us),
              one_range-closed p m c w h full,
              rw
                  (
                    uuids-append p (after c ks) (up_to (some c) ks),
                    take-append_lem m us vs,
                    spent,
                    sub_zero m,
                  )
                  (sym (append-nil (take m us))),
            )
        | inr short ↦ (
          _,
          two_ranges-collect p m c w us refl (ground arith),
          value-outcome m (length us) vs us (ground arith)
              ∙ rw
                  (
                    uuids-append p (after c ks) (up_to (some c) ks),
                    take-append_lem m us vs,
                    take_all m us (ground arith),
                  )
                  refl,
        )
      ]

  -- A bounded sweep yields, in this order, the first `n` sealed objects after the prefix's cursor,
  -- and past the end of the listing those up to the cursor.
  pub iter_uuids_yields :
      (p : String) (n : ℕ) (w : World B X)
      → (iter_uuids p (some n) true collect [] w).0
        ≡ ok (take n (uuids p (rotation (cursor_of p w.cursors) (L.listing w.bucket p))))
  unfolding iter_uuids
  iter_uuids_yields p zero w = refl
  iter_uuids_yields p (suc n) w =
      let (swept, e, v) = ranges-collect p (suc n) (cursor_of p w.cursors) w (omega arith) in
      let room : leb (suc n) 0 ≡ false = ground arith in rw room (rw (e, v))
