-- ===== src/PatchLander/Listing.antt =====
-- A line of `git ls-remote`: a commit, a tab and the name of a reference.
use text.Mathlib.TextLemmas
use text.Mathlib.TextEquality.{eq_iff}
use Prim.Native.Char.{Char, code}
use worker_hive_relay.Prelude.{
  ℕ, String, ◌<>◌, ◌≡◌, ◌≢◌, refl, sym, ap, ◌∙◌, inl, inr, Bool-cases, Bool, true, false, not, ◌&&◌,
  some, ◌==◌, split_once, arith,
}
use worker_hive_relay.Git.{is_set}

-- No character of the text is `c`.
unfoldable pub lacks : ℕ → String → Bool
lacks c String.[] = true
lacks c (String.◌∷◌ d s) = let rest = lacks c s in not (code d == c) && rest

-- The text `s` is what stands in a line before the first `c`, or all of a line that has none.
pub data IsFirst (c : ℕ) (s line : String) : Type 0 where
  whole : lacks c s ≡ true → line ≡ s → IsFirst c s line
  before :
      (d : Char) (rest : String)
      → lacks c s ≡ true
      → code d ≡ c
      → line ≡ s <> String.◌∷◌ d rest
      → IsFirst c s line

IsFirst-cons :
    (c : ℕ) (d : Char) (s line : String)
    → (code d == c) ≡ false
    → IsFirst c s line
    → IsFirst c (String.◌∷◌ d s) (String.◌∷◌ d line)
unfolding lacks
IsFirst-cons c d s line differ (whole l e) = whole (rw (differ, l) refl) (ap (String.◌∷◌ d) e)
IsFirst-cons c d s line differ (before x rest l x_is_c e) =
    before x rest (rw (differ, l) refl) x_is_c
      (ap (String.◌∷◌ d) e ∙ sym (TextLemmas.cons-append d s (String.◌∷◌ x rest)))

pub split_once-IsFirst : (c : ℕ) (line : String) → IsFirst c (split_once c line).0 line
unfolding split_once lacks
split_once-IsFirst c String.[] = whole refl refl
split_once-IsFirst c (String.◌∷◌ d s) = elim (Bool-cases (code d == c)) [
  | inl here ↦
      rw here
        (before d s refl (ground (arith, here)) (sym (TextLemmas.nil-append (String.◌∷◌ d s))))
  | inr further ↦
      rw further (IsFirst-cons c d (split_once c s).0 s further (split_once-IsFirst c s))
]

-- What stands before the first `c` of a text that begins with a text without one.
pub split_once-first :
    (c : ℕ) (d : Char) (rest s : String)
    → code d ≡ c
    → lacks c s ≡ true
    → (split_once c (s <> (String.◌∷◌ d "" <> rest))).0 ≡ s
unfolding split_once lacks
split_once-first c d rest String.[] same h =
    rw (TextLemmas.nil-append, TextLemmas.cons-append) (ground (arith, same))
split_once-first c d rest (String.◌∷◌ x s) same h = elim (Bool-cases (code x == c)) [
  | inl here ↦ absurd (ground (arith, here, h))
  | inr further ↦
      let others : lacks c s ≡ true = ground (arith, further, h) in
      rw (TextLemmas.cons-append, further)
        (ap (String.◌∷◌ x) (split_once-first c d rest s same others))
]

pub is_set-ne : (s : String) → is_set (some s) ≡ true → s ≢ ""
is_set-ne s h e = absurd (ground (arith, h, eq_iff s "", e))

pub append-ne : (s t : String) → s ≢ "" → (s <> t) ≢ ""
append-ne String.[] t h e = absurd (h refl)
append-ne (String.◌∷◌ x s) t h e =
    let clash : String.◌∷◌ x (s <> t) ≡ "" = sym (TextLemmas.cons-append x s t) ∙ e in
    absurd (cc clash)
