-- ===== src/Prelude/Texts.antt =====
-- Texts: what tells two texts apart, and Python's `strip`, `lower`, `endswith` and `encode`.
use Prim.Native.Nat.{ℕ, ◌+◌, ◌-◌, ◌/◌, ◌%◌}
use Prim.Native.Char.{Char, code}
use Prim.Native.String.{String, ◌++◌ as ◌<>◌, len, slice, char_at}
use mathlib.Core.Path.{◌≡◌, refl, sym, ap, ap₂, ◌∙◌}
use mathlib.Core.Logic.{◌≢◌}
use mathlib.Core.Bool.{Bool, false, ◌&&◌, ◌||◌}
use mathlib.Core.List.{[], ◌∷◌, ◌++◌, append_assoc}
use native.Mathlib.Omega.{arith}
use text.Mathlib.TextEquality.{eq_iff, Char-path}
use text.Mathlib.TextLemmas
use worker_hive_relay.Prelude.Tests.{ltb, leb, ◌==◌, ◌=ₛ◌, if◌then◌else◌}
use worker_hive_relay.Prelude.Lists.{Bytes}

-- Texts whose first characters differ.
pub head_ne : (c d : Char) (p q : String) → code c ≢ code d → String.◌∷◌ c p ≢ String.◌∷◌ d q
head_ne c d p q differ h = differ (ap code (TextLemmas.head-eq_of_cons-eq h))

pub prefix_ne :
    (c d : Char) (p q u v : String)
    → code c ≢ code d
    → (String.◌∷◌ c p <> u) ≢ (String.◌∷◌ d q <> v)
prefix_ne c d p q u v differ h =
    head_ne c d (p <> u) (q <> v) differ
      (sym (TextLemmas.cons-append c p u) ∙ h ∙ TextLemmas.cons-append d q v)

-- A common beginning does not hide a difference.
pub prefix_ne_after : (s p q u v : String) → (p <> u) ≢ (q <> v) → ((s <> p) <> u) ≢ ((s <> q) <> v)
prefix_ne_after s p q u v differ h = differ (
    TextLemmas.append_cancel_left s (p <> u) (q <> v)
      (sym (TextLemmas.append_assoc s p u) ∙ h ∙ TextLemmas.append_assoc s q v))

pub =ₛ-false : (s t : String) → s ≢ t → (s =ₛ t) ≡ false
=ₛ-false s t h = ground (arith, eq_iff s t)

-- `s.endswith(t)`.
pub ends_with : String → String → Bool
ends_with s t = leb (len t) (len s) && (slice s (len s - len t) (len s) =ₛ t)

-- The bytes of one code point in UTF-8.
unfoldable pub utf8_char : ℕ → Bytes
utf8_char c =
    if ltb c 0x80
    then c ∷ []
    else if ltb c 0x800
    then (0xc0 + c / 64) ∷ (0x80 + c % 64) ∷ []
    else if ltb c 0x10000
    then (0xe0 + c / 4096) ∷ (0x80 + c / 64 % 64) ∷ (0x80 + c % 64) ∷ []
    else (0xf0 + c / 262144) ∷ (0x80 + c / 4096 % 64) ∷ (0x80 + c / 64 % 64) ∷ (0x80 + c % 64) ∷ []

-- `s.encode("utf-8")`.
unfoldable pub utf8 : String → Bytes
unfolding utf8_char
utf8 String.[] = []
utf8 (String.◌∷◌ c s) = utf8_char (code c) ++ utf8 s

pub utf8_char-injective :
    (c d : ℕ) (x y : Bytes) → utf8_char c ++ x ≡ utf8_char d ++ y → (c ≡ d) × (x ≡ y)
unfolding utf8_char
utf8_char-injective c d x y h = ground arith

utf8_char-ne-nil : (c : ℕ) (x : Bytes) → utf8_char c ++ x ≢ []
unfolding utf8_char
utf8_char-ne-nil c x h = ground arith

-- Different texts have different encodings.
pub utf8-injective : (s t : String) → utf8 s ≡ utf8 t → s ≡ t
unfolding utf8
utf8-injective String.[] String.[] h = refl
utf8-injective String.[] (String.◌∷◌ d t) h = absurd (utf8_char-ne-nil (code d) (utf8 t) (sym h))
utf8-injective (String.◌∷◌ c s) String.[] h = absurd (utf8_char-ne-nil (code c) (utf8 s) h)
utf8-injective (String.◌∷◌ c s) (String.◌∷◌ d t) h =
    let (e, r) = utf8_char-injective (code c) (code d) (utf8 s) (utf8 t) h in
    ap₂ String.◌∷◌ (Char-path c d e) (utf8-injective s t r)

pub utf8-append : (s t : String) → utf8 (s <> t) ≡ utf8 s ++ utf8 t
unfolding utf8
utf8-append String.[] t = ap utf8 (TextLemmas.nil-append t)
utf8-append (String.◌∷◌ c s) t =
    rw TextLemmas.cons-append
      (rw (utf8-append s t) (sym (append_assoc (utf8_char (code c)) (utf8 s) (utf8 t))))

-- The characters that `str.isspace` accepts.
abbrev is_space : ℕ → Bool
is_space c =
    (leb 9 c && leb c 13)
    || (leb 28 c && leb c 32)
    || c == 133
    || c == 160
    || c == 5760
    || (leb 8192 c && leb c 8202)
    || c == 8232
    || c == 8233
    || c == 8239
    || c == 8287
    || c == 12288

left_strip : String → String
left_strip String.[] = ""
left_strip (String.◌∷◌ c s) =
    let rest = left_strip s in if is_space (code c) then rest else String.◌∷◌ c s

right_strip : String → String
right_strip String.[] = ""
right_strip (String.◌∷◌ c s) =
    let rest = right_strip s in if (rest =ₛ "") && is_space (code c) then "" else String.◌∷◌ c rest

-- `s.strip()`.
unfoldable pub strip : String → String
unfolding left_strip right_strip
strip s = right_strip (left_strip s)

-- `s.lower()`, on ASCII letters; the code compares the result with ASCII words only.
unfoldable pub lower : String → String
lower String.[] = ""
lower (String.◌∷◌ c s) =
    String.◌∷◌
      (if leb 65 (code c) && leb (code c) 90
        then char_at "abcdefghijklmnopqrstuvwxyz" (code c - 65)
        else c)
      (lower s)

-- `s[a:-b]` for a start `a` and a positive `b`, both counted in ASCII characters.
pub cut : String → ℕ → ℕ → String
cut s a b = slice s a (len s - b)

-- `s[:n]`.
abbrev pub clip : String → ℕ → String
clip s n = slice s 0 n
