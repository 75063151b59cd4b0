-- ===== src/Prelude/Parts.antt =====
-- Texts taken apart: Python's `split`, `in`, `rfind` and `join`.
use Prim.Native.Nat.{ℕ, zero, suc, ◌-◌}
use Prim.Native.Char.{code}
use Prim.Native.String.{String, ◌++◌ as ◌<>◌}
use mathlib.Core.Bool.{Bool, ◌&&◌, ◌||◌}
use mathlib.Core.Option.{Option, none, some}
use mathlib.Core.List.{List, [], ◌∷◌}
use text.Mathlib.Text.{starts_with}
use worker_hive_relay.Prelude.Tests.{◌==◌, ◌=ₛ◌, if◌then◌else◌}

-- `s.split(c)`, as its first part and the others.
unfoldable pub split_parts : ℕ → String → String × List String
split_parts c String.[] = ("", [])
split_parts c (String.◌∷◌ d s) =
    let (part, parts) = split_parts c s in
    if code d == c then ("", part ∷ parts) else (String.◌∷◌ d part, parts)

-- `s.split(c, 1)`: what stands before the first `c`, and what comes after it, if there is one.
unfoldable pub split_once : ℕ → String → String × Option String
split_once c String.[] = ("", none)
split_once c (String.◌∷◌ d s) =
    let (before, rest) = split_once c s in
    if code d == c then ("", some s) else (String.◌∷◌ d before, rest)

-- `p in s`.
unfoldable pub contains_text : String → String → Bool
contains_text p String.[] = p =ₛ ""
contains_text p (String.◌∷◌ c s) = starts_with (String.◌∷◌ c s) p || contains_text p s

-- What stands before the last `c` of a text and what comes after it, if there is one.
unfoldable pub split_last : ℕ → String → Option (String × String)
split_last c String.[] = none
split_last c (String.◌∷◌ d s) = elim (split_last c s) [
  | some (before, rest) ↦ some (String.◌∷◌ d before, rest)
  | none ↦ if code d == c then some ("", s) else none
]

-- `s.lstrip(c)` and `s.rstrip(c)` for one character.
unfoldable pub left_trim : ℕ → String → String
left_trim c String.[] = ""
left_trim c (String.◌∷◌ d s) =
    let rest = left_trim c s in if code d == c then rest else String.◌∷◌ d s

unfoldable pub right_trim : ℕ → String → String
right_trim c String.[] = ""
right_trim c (String.◌∷◌ d s) =
    let rest = right_trim c s in if (rest =ₛ "") && code d == c then "" else String.◌∷◌ d rest

-- `" ".join(words)`.
unfoldable pub join_words : List String → String
join_words [] = ""
join_words (w ∷ []) = w
join_words (w ∷ v ∷ ws) = w <> (" " <> join_words (v ∷ ws))

-- `s[-n:]` for a positive `n`.
unfoldable pub char_count : String → ℕ
char_count String.[] = 0
char_count (String.◌∷◌ c s) = suc (char_count s)

unfoldable pub drop_chars : ℕ → String → String
drop_chars zero s = s
drop_chars (suc n) String.[] = ""
drop_chars (suc n) (String.◌∷◌ c s) = drop_chars n s

unfoldable pub last_chars : ℕ → String → String
unfolding char_count drop_chars
last_chars n s = drop_chars (char_count s - n) s
