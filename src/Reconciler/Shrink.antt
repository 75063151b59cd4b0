-- ===== src/Reconciler/Shrink.antt =====
-- The size cap of the reconciler: what `_shrink_result` keeps of a result that is too large.
use text.Mathlib.TextEquality.{eq_iff}
use worker_hive_relay.Prelude.{
  String, ◌<>◌, ◌≡◌, ◌≢◌, refl, sym, ap, ◌∙◌, ◌⊎◌, inl, inr, Bool-cases, true, false, none, some,
  List, [], ◌∷◌, arith, ◌=ₛ◌, if◌then◌else◌, =ₛ-false,
}
use worker_hive_relay.Value.{str, Fields, get, has, get-put, get-remove}
use worker_hive_relay.Crypto.{Codec}
use worker_hive_relay.Backend.{contains}
use worker_hive_relay.Reconciler.{
  kept_fields, dropped_fields, restrict, drop_field, fits, drop_fields, shrink_result,
}

get-restrict :
    (k : String) (names : List String) (result : Fields)
    → get k (restrict names result) ≡ (if contains k names then get k result else none)
unfolding restrict contains get
get-restrict k [] result = refl
get-restrict k (n ∷ ns) result = ground (arith, eq_iff n k, get-restrict k ns result)

-- A name that the cap drops, with its `_dropped` note, is none of the metadata.
abbrev IsOther : String → Type 0
IsOther n = contains n kept_fields ≡ false

abbrev AllOther : List String → Type 0
AllOther [] = Unit
AllOther (n ∷ ns) = IsOther n × (IsOther (n <> "_dropped") × AllOther ns)

other_ne : (n k : String) → IsOther n → contains k kept_fields ≡ true → n ≢ k
other_ne n k other kept e =
    let clash : false ≡ true = sym other ∙ (ap (λ x. contains x kept_fields) e ∙ kept) in
    absurd (cc clash)

get-drop_field :
    (n k : String) (result : Fields)
    → IsOther n
    → IsOther (n <> "_dropped")
    → contains k kept_fields ≡ true
    → get k (drop_field n result) ≡ get k result
get-drop_field n k result other noted kept = elim (Bool-cases (has n result)) [
  | inl there ↦
      rw
        (
          there,
          get-remove,
          =ₛ-false n k (other_ne n k other kept),
          get-put,
          =ₛ-false (n <> "_dropped") k (other_ne (n <> "_dropped") k noted kept),
        )
        refl
  | inr absent ↦ rw absent refl
]

module _ (codec : Codec) where
  get-drop_fields :
      (names : List String) (k : String) (result : Fields)
      → AllOther names
      → contains k kept_fields ≡ true
      → get k (drop_fields codec names result) ≡ get k result
  unfolding drop_fields
  get-drop_fields [] k result all kept = refl
  get-drop_fields (n ∷ ns) k result (other, (noted, all)) kept =
      elim (Bool-cases (fits codec result)) [
        | inl small ↦ rw small refl
        | inr large ↦
            rw (large, get-drop_fields ns k (drop_field n result) all kept)
              (get-drop_field n k result other noted kept)
      ]

  all_other : AllOther dropped_fields
  unfolding contains
  all_other = (refl, (refl, (refl, (refl, (refl, (refl, (refl, (refl, tt))))))))

  error-IsOther : IsOther "error"
  unfolding contains
  error-IsOther = refl

  -- The cap never touches the routing and review metadata: the review flag, the commits and what
  -- came of the landing read the same in the result that is sent as in the one that was too large.
  pub get-shrink_result :
      (k : String) (result : Fields)
      → contains k kept_fields ≡ true
      → get k (shrink_result codec result) ≡ get k result
  unfolding shrink_result
  get-shrink_result k result kept =
      let dropped = drop_fields codec dropped_fields result in
      let same = get-drop_fields dropped_fields k result all_other kept in
      elim (Bool-cases (fits codec dropped)) [
        | inl small ↦ rw small same
        | inr large ↦
            rw
              (
                large,
                get-put,
                =ₛ-false "error" k (other_ne "error" k error-IsOther kept),
                get-restrict,
                kept,
              )
              same
      ]

  -- A result under the cap is sent as it is.
  pub shrink_result_small :
      (result : Fields) → fits codec result ≡ true → shrink_result codec result ≡ result
  unfolding shrink_result drop_fields
  shrink_result_small result small = simp small

  -- What is sent is under the cap, or it is nothing but the metadata of the original result and
  -- the note `payload_too_large`.
  pub shrink_result_cases :
      (result : Fields)
      → (fits codec (shrink_result codec result) ≡ true)
        ⊎ ((k : String)
            → get k (shrink_result codec result) ≡ (
                if "error" =ₛ k
                then some (str "payload_too_large")
                else if contains k kept_fields
                then get k result
                else none))
  unfolding shrink_result
  shrink_result_cases result =
      let dropped = drop_fields codec dropped_fields result in
      elim (Bool-cases (fits codec dropped)) [
        | inl small ↦ inl (rw (small, small) refl)
        | inr large ↦ inr (λ k. rw (large, get-put, get-restrict) (metadata k))
      ]
    where
      metadata :
          (k : String)
          → (if "error" =ₛ k
              then some (str "payload_too_large")
              else if contains k kept_fields
              then get k (drop_fields codec dropped_fields result)
              else none)
            ≡ (if "error" =ₛ k
                then some (str "payload_too_large")
                else if contains k kept_fields
                then get k result
                else none)
      metadata k = elim (Bool-cases (contains k kept_fields)) [
        | inl kept ↦ rw (kept, get-drop_fields dropped_fields k result all_other kept) refl
        | inr other ↦ rw other refl
      ]
