-- ===== src/Exec.antt =====
-- Methods that change state and may raise. What was written before an exception stays written,
-- so the state comes back beside the error too.
pub mod Relates
pub mod Yields
use worker_hive_relay.Prelude.{String}

-- The exceptions that the code raises or tells apart; `other` is any exception of a library.
pub data Kind : Type 0 where
  invalid_tag crypto_error not_found value_error type_error attribute_error key_error : Kind
  hive_claim_error hive_registration_error mnemos_search_error : Kind
  transient_landing permanent_landing : Kind
  runtime_error system_exit other : Kind

pub record Error : Type 0 where
  pub kind : Kind
  pub message : String

pub data Result {ℓ} (A : Type ℓ) : Type ℓ where
  ok : A → Result A
  err : Error → Result A

abbrev pub fail {ℓ} : {A : Type ℓ} → Kind → String → Result A
fail k m = err (record { kind = k; message = m })

abbrev pub Exec {ℓ κ} : Type ℓ → Type κ → Type (ℓ ⊔ κ)
Exec S A = S → Result A × S

module _ {ℓ κ} {S : Type ℓ} {A : Type κ} where
  abbrev pub pure : A → Exec S A
  pure a s = (ok a, s)

  abbrev pub lift : Result A → Exec S A
  lift r s = (r, s)

  abbrev pub raise : Kind → String → Exec S A
  raise k m s = (fail k m, s)

  abbrev pub gets : (S → A) → Exec S A
  gets f s = (ok (f s), s)

  -- `try: ... except`: the outcome as a value, for the handlers that follow.
  abbrev pub attempt : Exec S A → Exec S (Result A)
  attempt m s = (ok (m s).0, (m s).1)

module _ {ℓ κ μ} {S : Type ℓ} {A : Type κ} {B : Type μ} where
  abbrev pub continue : Result A → S → (A → Exec S B) → Result B × S
  continue (ok a) s f = f a s
  continue (err e) s f = (err e, s)

  infixl 5 ◌>>=◌ ◌>>◌
  abbrev pub ◌>>=◌ : Exec S A → (A → Exec S B) → Exec S B
  ◌>>=◌ m f s = continue (m s).0 (m s).1 f

  abbrev pub ◌>>◌ : Exec S A → Exec S B → Exec S B
  m >> k = m >>= λ _. k
