-- ===== src/Value.antt =====
-- Values of a JSON document, and the dictionaries that the code passes as payloads.
-- Numbers are natural: the code's numbers are times, sizes and counts, in whole units. They stand
-- for numbers below 2 ** 1023, which a float reaches: of a much greater one `float` is an error.
use text.Mathlib.TextEquality.{eq_iff}
use worker_hive_relay.Prelude.{
  ℕ, String, ◌≡◌, refl, Bool, true, false, not, Option, none, some, arith, ◌==◌, ◌=ₛ◌,
  if◌then◌else◌,
}

-- What `int(text)` gives.
pub data ℤ : Type 0 where
  pos : ℕ → ℤ
  negsuc : ℕ → ℤ

mutual
  pub data Value : Type 0 where
    null : Value
    bool : Bool → Value
    num : ℕ → Value
    str : String → Value
    arr : Items → Value
    obj : Fields → Value

  pub data Items : Type 0 where
    nil : Items
    cons : Value → Items → Items

  -- A dictionary, in insertion order.
  pub data Fields : Type 0 where
    empty : Fields
    field : String → Value → Fields → Fields

-- `d.get(k)`, with the absent key told apart from a null.
unfoldable pub get : String → Fields → Option Value
get k empty = none
get k (field j v d) = if j =ₛ k then some v else get k d

-- `d[k] = v`.
unfoldable pub put : String → Value → Fields → Fields
put k v empty = field k v empty
put k v (field j w d) = let rest = put k v d in if j =ₛ k then field j v d else field j w rest

-- `del d[k]`, `d.pop(k, None)`.
unfoldable pub remove : String → Fields → Fields
remove k empty = empty
remove k (field j v d) = let rest = remove k d in if j =ₛ k then rest else field j v rest

pub get-put :
    (j k : String) (v : Value) (d : Fields)
    → get j (put k v d) ≡ (if k =ₛ j then some v else get j d)
unfolding get put
get-put j k v empty = refl
get-put j k v (field i w d) = ground (arith, eq_iff k j, eq_iff i k, eq_iff i j, get-put j k v d)

pub get-remove :
    (j k : String) (d : Fields) → get j (remove k d) ≡ (if k =ₛ j then none else get j d)
unfolding get remove
get-remove j k empty = ground arith
get-remove j k (field i w d) = ground (arith, eq_iff k j, eq_iff i k, eq_iff i j, get-remove j k d)

-- `k in d`.
abbrev pub has : String → Fields → Bool
has k d = elim (get k d) [ none ↦ false | some _ ↦ true ]

-- `d.get(k, default)`.
abbrev pub get_or : String → Value → Fields → Value
get_or k v d = elim (get k d) [ none ↦ v | some w ↦ w ]

-- `d.get(k)`, where an absent key and a null are the same.
abbrev pub get_null : String → Fields → Value
get_null k d = get_or k null d

-- `d.setdefault(k, v)`.
abbrev pub set_default : String → Value → Fields → Fields
set_default k v d = if has k d then d else put k v d

-- `{**d, **e}` and `d.update(e)`.
pub update : Fields → Fields → Fields
update d empty = d
update d (field k v e) = update (put k v d) e

-- `bool(v)`.
abbrev pub truthy : Value → Bool
truthy null = false
truthy (bool b) = b
truthy (num n) = not (n == 0)
truthy (str s) = not (s =ₛ "")
truthy (arr nil) = false
truthy (arr (cons _ _)) = true
truthy (obj empty) = false
truthy (obj (field _ _ _)) = true

-- `v == s` for a text `s`.
abbrev pub equals_str : Value → String → Bool
equals_str (str t) s = t =ₛ s
equals_str null s = false
equals_str (bool _) s = false
equals_str (num _) s = false
equals_str (arr _) s = false
equals_str (obj _) s = false

-- `v if isinstance(v, str) and v else None`.
abbrev pub nonempty_str : Value → Option String
nonempty_str (str t) = if t =ₛ "" then none else some t
nonempty_str null = none
nonempty_str (bool _) = none
nonempty_str (num _) = none
nonempty_str (arr _) = none
nonempty_str (obj _) = none

abbrev pub str_or_null : Option String → Value
str_or_null none = null
str_or_null (some s) = str s
