-- ===== src/Prelude/Order.antt =====
-- The order of texts is a strict linear order.
use Prim.Native.Nat.{ℕ, compare as compare_ℕ, Ordering}
use Prim.Native.Char.{Char, code}
use Prim.Native.String.{String, compare, then as first_of_two}
use Prim.Native.String.compare
use mathlib.Core.Path.{◌≡◌, ◌∙◌, ap, ap₂}
use mathlib.Core.Bool.{true, false}
use native.Mathlib.Omega.{arith}
use text.Mathlib.Text.{is_lt}
use text.Mathlib.TextEquality.{eq_iff, Char-path}
use worker_hive_relay.Prelude.Tests.{str_lt, ◌=ₛ◌, ltb, ◌==◌, if◌then◌else◌}

cons_eq : (c d : Char) (s t : String) → code c ≡ code d → s ≡ t → String.◌∷◌ c s ≡ String.◌∷◌ d t
cons_eq c d s t e h = ap₂ String.◌∷◌ (Char-path c d e) h

lt-then :
    (m n : ℕ) (o : Ordering)
    → is_lt (first_of_two (compare_ℕ m n) o)
      ≡ (if ltb m n then true else if m == n then is_lt o else false)
lt-then m n o = ground arith

lt-cons :
    (c d : Char) (s t : String)
    → str_lt (String.◌∷◌ c s) (String.◌∷◌ d t)
      ≡ (if ltb (code c) (code d) then true else if code c == code d then str_lt s t else false)
lt-cons c d s t = ap is_lt (compare.cons-cons c d s t) ∙ lt-then (code c) (code d) (compare s t)

nil-lt : (d : Char) (t : String) → str_lt String.[] (String.◌∷◌ d t) ≡ true
nil-lt d t = ap is_lt (compare.nil-cons d t)

not-lt-nil : (s : String) → str_lt s String.[] ≡ false
not-lt-nil String.[] = ap is_lt compare.nil-nil
not-lt-nil (String.◌∷◌ c s) = ap is_lt (compare.cons-nil c s)

pub str_lt_trans : (s t u : String) → str_lt s t ≡ true → str_lt t u ≡ true → str_lt s u ≡ true
str_lt_trans s t String.[] h k = absurd (ground (arith, not-lt-nil t))
str_lt_trans s String.[] (String.◌∷◌ e u) h k = absurd (ground (arith, not-lt-nil s))
str_lt_trans String.[] (String.◌∷◌ d t) (String.◌∷◌ e u) h k = nil-lt e u
str_lt_trans (String.◌∷◌ c s) (String.◌∷◌ d t) (String.◌∷◌ e u) h k =
    ground (arith, lt-cons c d s t, lt-cons d e t u, lt-cons c e s u, str_lt_trans s t u)

pub str_lt_irrefl : (s : String) → str_lt s s ≡ false
str_lt_irrefl String.[] = not-lt-nil ""
str_lt_irrefl (String.◌∷◌ c s) = ground (arith, lt-cons c c s s, str_lt_irrefl s)

pub str_lt_total : (s t : String) → str_lt s t ≡ false → (s =ₛ t) ≡ false → str_lt t s ≡ true
str_lt_total String.[] String.[] h k = ground (arith, eq_iff "" "")
str_lt_total String.[] (String.◌∷◌ d t) h k = ground (arith, nil-lt d t)
str_lt_total (String.◌∷◌ c s) String.[] h k = nil-lt c s
str_lt_total (String.◌∷◌ c s) (String.◌∷◌ d t) h k = ground (
  arith,
  lt-cons c d s t,
  lt-cons d c t s,
  str_lt_total s t,
  eq_iff s t,
  eq_iff (String.◌∷◌ c s) (String.◌∷◌ d t),
  cons_eq c d s t,
)
