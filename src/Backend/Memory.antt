-- ===== src/Backend/Memory.antt =====
-- `InMemoryBackend` of tests/node_relay/test_relay_flow.py, the store that the repository's own
-- tests use, and the proof that it is a lawful one.
use text.Mathlib.TextEquality.{eq_iff}
use worker_hive_relay.Prelude.{
  ℕ, ◌+◌, String, ◌≡◌, refl, inl, inr, Bool, true, false, ◌&&◌, Option, none, some, List, [], ◌∷◌,
  arith, Bytes, ◌==◌, ◌=ₛ◌, if◌then◌else◌, starts_with, str_lt, str_lt_total, Bool-cases,
}
use worker_hive_relay.Exec.{ok, fail, not_found, Exec}
use worker_hive_relay.Backend.Interface.{
  Backend, IsLawful, is_none, not_none, after, start_from, contains, IsAscending,
}

abbrev pub Table : Type 0
Table = List (String × Bytes × ℕ)

-- `self.objs`, the table of bodies and versions by key, and `self._seq`.
pub record Store : Type 0 where
  pub objs : Table
  pub seq : ℕ

unfoldable pub lookup : String → Table → Option (Bytes × ℕ)
lookup k [] = none
lookup k ((j, b, v) ∷ t) = if j =ₛ k then some (b, v) else lookup k t

pub insert : String → Bytes → ℕ → Table → Table
insert k b v [] = (k, b, v) ∷ []
insert k b v ((j, c, u) ∷ t) =
    let rest = insert k b v t in if j =ₛ k then (k, b, v) ∷ t else (j, c, u) ∷ rest

unfoldable pub erase : String → Table → Table
erase k [] = []
erase k ((j, c, u) ∷ t) = let rest = erase k t in if j =ₛ k then rest else (j, c, u) ∷ rest

pub lookup-insert :
    (k j : String) (b : Bytes) (v : ℕ) (t : Table)
    → lookup j (insert k b v t) ≡ (if k =ₛ j then some (b, v) else lookup j t)
unfolding lookup insert
lookup-insert k j b v [] = refl
lookup-insert k j b v ((i, c, u) ∷ t) =
    ground (arith, eq_iff k j, eq_iff i k, eq_iff i j, lookup-insert k j b v t)

pub lookup-erase :
    (k j : String) (t : Table) → lookup j (erase k t) ≡ (if k =ₛ j then none else lookup j t)
unfolding lookup erase
lookup-erase k j [] = ground arith
lookup-erase k j ((i, c, u) ∷ t) =
    ground (arith, eq_iff k j, eq_iff i k, eq_iff i j, lookup-erase k j t)

-- `sorted` of distinct keys.
unfoldable pub insert_key : String → List String → List String
insert_key k [] = k ∷ []
insert_key k (j ∷ ks) =
    let rest = insert_key k ks in
    if k =ₛ j then j ∷ ks else if str_lt k j then k ∷ j ∷ ks else j ∷ rest

-- `[k for k in self.objs if k.startswith(prefix)]`, sorted.
unfoldable pub keys_under : String → Table → List String
unfolding insert_key
keys_under p [] = []
keys_under p ((j, _, _) ∷ t) =
    let rest = keys_under p t in if starts_with j p then insert_key j rest else rest

contains-insert_key :
    (k j : String) (ks : List String)
    → contains k (insert_key j ks) ≡ (if j =ₛ k then true else contains k ks)
unfolding contains insert_key
contains-insert_key k j [] = refl
contains-insert_key k j (i ∷ ks) =
    ground (arith, eq_iff j i, eq_iff j k, eq_iff i k, contains-insert_key k j ks)

pub contains-keys_under :
    (p k : String) (t : Table)
    → contains k (keys_under p t) ≡ (starts_with k p && not_none (lookup k t))
unfolding contains keys_under lookup
contains-keys_under p k [] = ground arith
contains-keys_under p k ((j, b, v) ∷ t) =
    ground (arith, contains-insert_key k j (keys_under p t), contains-keys_under p k t, eq_iff j k)

IsAscending-cons :
    (j : String) (ks : List String)
    → IsAscending ks
    → (elim ks [ [] ↦ true | i ∷ _ ↦ str_lt j i ]) ≡ true
    → IsAscending (j ∷ ks)
IsAscending-cons j [] h e = tt
IsAscending-cons j (i ∷ ks) h e = (e, h)

insert_key-IsAscending :
    (k : String) (ks : List String) → IsAscending ks → IsAscending (insert_key k ks)
unfolding insert_key
insert_key-IsAscending k [] h = tt
insert_key-IsAscending k (j ∷ []) h = ground (arith, eq_iff k j, str_lt_total k j)
insert_key-IsAscending k (j ∷ i ∷ ks) h = ground (
  arith,
  eq_iff k j,
  eq_iff k i,
  str_lt_total k j,
  str_lt_total k i,
  insert_key-IsAscending k (i ∷ ks) h.1,
)

pub keys_under-IsAscending : (p : String) (t : Table) → IsAscending (keys_under p t)
unfolding keys_under
keys_under-IsAscending p [] = tt
keys_under-IsAscending p ((j, b, v) ∷ t) = elim (Bool-cases (starts_with j p)) [
  | inl under ↦ rw under (insert_key-IsAscending j (keys_under p t) (keys_under-IsAscending p t))
  | inr not_under ↦ rw not_under (keys_under-IsAscending p t)
]

-- `self.objs[key] = (body, self._next())`.
write : String → Bytes → Store → Store
write k b s = record { objs = insert k b (s.seq + 1) s.objs; seq = s.seq + 1 }

pub create_only : String → Bytes → Exec Store Bool
unfolding lookup insert write
create_only k b s = if not_none (lookup k s.objs) then (ok false, s) else (ok true, write k b s)

pub cas_write : String → Bytes → ℕ → Exec Store Bool
unfolding lookup insert write
cas_write k b v s = elim (lookup k s.objs) [
  | none ↦ (ok false, s)
  | some (_, u) ↦ if u == v then (ok true, write k b s) else (ok false, s)
]

unfoldable pub read : String → Exec Store Bytes
unfolding lookup
read k s = (elim (lookup k s.objs) [ none ↦ fail not_found k | some (b, _) ↦ ok b ], s)

pub read_opt : String → Exec Store (Option Bytes)
unfolding lookup
read_opt k s = (ok (elim (lookup k s.objs) [ none ↦ none | some (b, _) ↦ some b ]), s)

pub read_with_version : String → Exec Store (Option (Bytes × ℕ))
unfolding lookup
read_with_version k s = (ok (lookup k s.objs), s)

unfoldable pub put : String → Bytes → Exec Store (Unit {0})
unfolding insert write
put k b s = (ok tt, write k b s)

unfoldable pub delete : String → Exec Store (Unit {0})
unfolding erase
delete k s = (ok tt, record s { objs = erase k s.objs })

-- `_Backend.iter_keys` over `list_keys`.
pub iter_keys : String → Option String → Exec Store (List String)
unfolding keys_under insert_key after
iter_keys p from s = (ok (start_from from (keys_under p s.objs)), s)

abbrev pub memory : Backend
memory = record {
  State = Store;
  Version = ℕ;
  create_only = create_only;
  cas_write = cas_write;
  read = read;
  read_opt = read_opt;
  read_with_version = read_with_version;
  put = put;
  iter_keys = iter_keys;
  delete = delete;
}

pub version_refl : (v : ℕ) → (v == v) ≡ true
version_refl v = ground arith

pub answer-create_only :
    (k : String) (b : Bytes) (s : Store) → (create_only k b s).0 ≡ ok (is_none (lookup k s.objs))
unfolding create_only
answer-create_only k b s = ground arith

pub view-create_only :
    (k : String) (b : Bytes) (s : Store) (j : String)
    → lookup j (create_only k b s).1.objs ≡ (
        if k =ₛ j
        then elim (lookup k s.objs) [ none ↦ some (b, s.seq + 1) | some o ↦ some o ]
        else lookup j s.objs)
unfolding create_only
view-create_only k b s j = ground (arith, lookup-insert k j b (s.seq + 1) s.objs, eq_iff k j)

pub answer-cas_write :
    (k : String) (b : Bytes) (v : ℕ) (s : Store)
    → (cas_write k b v s).0 ≡ ok (elim (lookup k s.objs) [ none ↦ false | some (_, w) ↦ w == v ])
unfolding cas_write
answer-cas_write k b v s = ground arith

pub view-cas_write :
    (k : String) (b : Bytes) (v : ℕ) (s : Store) (j : String)
    → lookup j (cas_write k b v s).1.objs ≡ (
        if k =ₛ j
        then elim (lookup k s.objs) [
          | none ↦ none
          | some (c, w) ↦ if w == v then some (b, s.seq + 1) else some (c, w)
        ]
        else lookup j s.objs)
unfolding cas_write
view-cas_write k b v s j = ground (arith, lookup-insert k j b (s.seq + 1) s.objs, eq_iff k j)

-- The in-memory store keeps the laws of the interface; a version is the count of the writes.
unfoldable pub memory-IsLawful : IsLawful memory
unfolding read read_opt read_with_version put delete iter_keys lookup
memory-IsLawful = record {
  view = λ s k. lookup k s.objs;
  same = λ u v. u == v;
  same_refl = version_refl;
  stamp = λ s k b. s.seq + 1;
  listing = λ s p. keys_under p s.objs;
  answer-create_only = answer-create_only;
  view-create_only = view-create_only;
  answer-cas_write = answer-cas_write;
  view-cas_write = view-cas_write;
  answer-read = λ k s. refl;
  answer-read_opt = λ k s. refl;
  answer-read_with_version = λ k s. refl;
  answer-put = λ k b s. refl;
  view-put = λ k b s j. lookup-insert k j b (s.seq + 1) s.objs;
  answer-delete = λ k s. refl;
  view-delete = λ k s j. lookup-erase k j s.objs;
  answer-iter_keys = λ p from s. refl;
  listing-exact = λ s p k. contains-keys_under p k s.objs;
  listing-IsAscending = λ s p. keys_under-IsAscending p s.objs;
}
