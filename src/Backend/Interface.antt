-- ===== src/Backend/Interface.antt =====
-- The object-store primitives of node_relay/relay_client.py (`_Backend`), as an interface with
-- the laws that the queue relies on: conditional create, compare-and-swap, idempotent delete.
use worker_hive_relay.Prelude.{
  String, ◌≡◌, Bool, true, false, ◌&&◌, Option, none, some, List, [], ◌∷◌, Bytes, ◌=ₛ◌,
  if◌then◌else◌, starts_with, str_lt,
}
use worker_hive_relay.Exec.{Exec, ok, fail, not_found}

pub record Backend : Type 1 where
  pub State : Type 0
  pub Version : Type 0
  pub create_only : String → Bytes → Exec State Bool
  pub cas_write : String → Bytes → Version → Exec State Bool
  pub read : String → Exec State Bytes
  pub read_opt : String → Exec State (Option Bytes)
  pub read_with_version : String → Exec State (Option (Bytes × Version))
  pub put : String → Bytes → Exec State (Unit {0})
  pub iter_keys : String → Option String → Exec State (List String)
  pub delete : String → Exec State (Unit {0})

abbrev pub is_none {ℓ} : {A : Type ℓ} → Option A → Bool
is_none none = true
is_none (some _) = false

abbrev pub not_none {ℓ} : {A : Type ℓ} → Option A → Bool
not_none none = false
not_none (some _) = true

-- The keys after a given one, in the order of a listing.
unfoldable pub after : String → List String → List String
after c [] = []
after c (k ∷ ks) = let rest = after c ks in if str_lt c k then k ∷ rest else rest

abbrev pub start_from : Option String → List String → List String
start_from none ks = ks
start_from (some c) ks = after c ks

unfoldable pub contains : String → List String → Bool
contains k [] = false
contains k (j ∷ ks) = let rest = contains k ks in if j =ₛ k then true else rest

-- The keys of a listing ascend strictly.
abbrev pub IsAscending : List String → Type 0
IsAscending [] = Unit
IsAscending (k ∷ []) = Unit
IsAscending (k ∷ j ∷ ks) = (str_lt k j ≡ true) × IsAscending (j ∷ ks)

-- What the documentation of both stores promises of a request that is answered, over what a
-- state holds at each key: a body and the version that its write was given.
pub record IsLawful (B : Backend) : Type 0 where
  pub view : B.State → String → Option (Bytes × B.Version)
  pub same : B.Version → B.Version → Bool
  pub same_refl : (v : B.Version) → same v v ≡ true
  pub stamp : B.State → String → Bytes → B.Version
  pub listing : B.State → String → List String
  pub answer-create_only :
      (k : String) (b : Bytes) (s : B.State) → (B.create_only k b s).0 ≡ ok (is_none (view s k))
  pub view-create_only :
      (k : String) (b : Bytes) (s : B.State) (j : String)
      → view (B.create_only k b s).1 j ≡ (
          if k =ₛ j
          then elim (view s k) [ none ↦ some (b, stamp s k b) | some o ↦ some o ]
          else view s j)
  pub answer-cas_write :
      (k : String) (b : Bytes) (v : B.Version) (s : B.State)
      → (B.cas_write k b v s).0 ≡ ok (elim (view s k) [ none ↦ false | some (_, w) ↦ same w v ])
  pub view-cas_write :
      (k : String) (b : Bytes) (v : B.Version) (s : B.State) (j : String)
      → view (B.cas_write k b v s).1 j ≡ (
          if k =ₛ j
          then elim (view s k) [
            | none ↦ none
            | some (c, w) ↦ if same w v then some (b, stamp s k b) else some (c, w)
          ]
          else view s j)
  pub answer-read :
      (k : String) (s : B.State)
      → B.read k s ≡ (elim (view s k) [ none ↦ fail not_found k | some (b, _) ↦ ok b ], s)
  pub answer-read_opt :
      (k : String) (s : B.State)
      → B.read_opt k s ≡ (ok (elim (view s k) [ none ↦ none | some (b, _) ↦ some b ]), s)
  pub answer-read_with_version :
      (k : String) (s : B.State) → B.read_with_version k s ≡ (ok (view s k), s)
  pub answer-put : (k : String) (b : Bytes) (s : B.State) → (B.put k b s).0 ≡ ok tt
  pub view-put :
      (k : String) (b : Bytes) (s : B.State) (j : String)
      → view (B.put k b s).1 j ≡ (if k =ₛ j then some (b, stamp s k b) else view s j)
  pub answer-delete : (k : String) (s : B.State) → (B.delete k s).0 ≡ ok tt
  pub view-delete :
      (k : String) (s : B.State) (j : String)
      → view (B.delete k s).1 j ≡ (if k =ₛ j then none else view s j)
  pub answer-iter_keys :
      (p : String) (from : Option String) (s : B.State)
      → B.iter_keys p from s ≡ (ok (start_from from (listing s p)), s)
  pub listing-exact :
      (s : B.State) (p k : String)
      → contains k (listing s p) ≡ (starts_with k p && not_none (view s k))
  pub listing-IsAscending : (s : B.State) (p : String) → IsAscending (listing s p)
