-- ===== src/Exec/Yields.antt =====
-- What holds of the value that an action returns, if it returns one.
use worker_hive_relay.Prelude.{◌≡◌, refl, Bool, true, false, if◌then◌else◌}
use worker_hive_relay.Exec.{Result, ok, err, Exec, pure, continue, ◌>>=◌}

pub record Yields {S A : Type 0} (P : A → Type 0) (m : Exec S A) : Type 0 where
  pub of : (s : S) (a : A) → (m s).0 ≡ ok a → P a

module _ {S A : Type 0} {P : A → Type 0} where
  pub Yields-pure : (a : A) → P a → Yields P (pure {S = S} a)
  Yields-pure a h = record { of = λ s b e. let same : a ≡ b = cc e in rw (← same) h }

  pub Yields-if :
      (b : Bool) (m n : Exec S A)
      → (b ≡ true → Yields P m)
      → (b ≡ false → Yields P n)
      → Yields P (if b then m else n)
  Yields-if true m n hm hn = hm refl
  Yields-if false m n hm hn = hn refl

module _ {S A B : Type 0} {Q : B → Type 0} where
  Yields-after :
      (r : Result A) (s : S) (f : A → Exec S B)
      → ((a : A) → r ≡ ok a → Yields Q (f a))
      → (b : B) → (continue r s f).0 ≡ ok b
      → Q b
  Yields-after (ok a) s f h b e = (h a refl).of s b e
  Yields-after (err x) s f h b e = absurd (cc e)

  pub Yields-bind :
      {P : A → Type 0} (m : Exec S A) (f : A → Exec S B)
      → Yields P m
      → ((a : A) → P a → Yields Q (f a))
      → Yields Q (m >>= f)
  Yields-bind m f hm hf = record {
    of = λ s. Yields-after (m s).0 (m s).1 f (λ a e. hf a (hm.of s a e));
  }

-- Nothing is known of the value.
pub Yields-any : {S A : Type 0} (m : Exec S A) → Yields (λ _. Unit {0}) m
Yields-any m = record { of = λ s a e. tt }
