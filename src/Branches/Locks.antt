-- ===== src/Branches/Locks.antt =====
-- The lock files of the cache of node_relay/lander.py, for a clone and for the directory in which
-- it is made.
use worker_hive_relay.Prelude.{
  ℕ, String, ◌<>◌, ◌≡◌, refl, sym, ap, ◌∙◌, ◌≢◌, ◌↔◌, Option, none, some, if◌then◌else◌, ◌=ₛ◌, ◌==◌,
  split_last, =ₛ-false, ◌||◌,
}
use Prim.Native.Char.{Char, code}
use text.Mathlib.TextLemmas
use worker_hive_relay.Branches.{stem, lock_name, tmp_name}

abbrev consed : Char → ℕ → String → Option (String × String) → Option (String × String)
consed d c s o = elim o [
  | some (before, rest) ↦ some (String.◌∷◌ d before, rest)
  | none ↦ if code d == c then some ("", s) else none
]

dot_tmp : split_last b'.' ".tmp" ≡ some ("", "tmp")
unfolding split_last
dot_tmp = refl

split_last-tmp : (s : String) → split_last b'.' (s <> ".tmp") ≡ some (s, "tmp")
unfolding split_last
split_last-tmp String.[] = ap (split_last b'.') (TextLemmas.nil-append ".tmp") ∙ dot_tmp
split_last-tmp (String.◌∷◌ d s) =
    ap (split_last b'.') (TextLemmas.cons-append d s ".tmp")
    ∙ ap (consed d b'.' (s <> ".tmp")) (split_last-tmp s)

abbrev stemmed : String → Option (String × String) → String
stemmed name o = elim o [
  | none ↦ name
  | some (before, rest) ↦ if (before =ₛ "") || (rest =ₛ "") then name else before
]

tmp_stem : (name : String) → name ≢ "" → stem (tmp_name name) ≡ name
unfolding stem
tmp_stem name h = ap (stemmed (tmp_name name)) (split_last-tmp name) ∙ rw (=ₛ-false name "" h) refl

-- The lock of the temporary directory is that of the clone only for some names: for a name that is
-- not empty, they are the same file if and only if pathlib finds no suffix in the clone's name.
pub lock_name-tmp_name :
    (name : String) → name ≢ "" → (lock_name (tmp_name name) ≡ lock_name name) ↔ (stem name ≡ name)
unfolding lock_name
lock_name-tmp_name name h = (
  λ e. sym (TextLemmas.append_cancel_right name (stem name) ".lock" (sym tmp_lock ∙ e)),
  λ e. tmp_lock ∙ ap (λ s. s <> ".lock") (sym e),
)
  where
    tmp_lock : lock_name (tmp_name name) ≡ name <> ".lock"
    tmp_lock = ap (λ s. s <> ".lock") (tmp_stem name h)
