-- ===== src/Exec/Relates.antt =====
-- Relations between the world before and after an action, one rule for each way to build one.
use worker_hive_relay.Prelude.{◌≡◌, refl, Bool, true, false, if◌then◌else◌}
use worker_hive_relay.Exec.{Result, ok, err, Exec, pure, lift, attempt, continue, ◌>>=◌}
use worker_hive_relay.Exec.Yields.{Yields}

-- A relation that holds of no change and of two changes in a row.
pub record IsPreorder {S : Type 0} (R : S → S → Type 0) : Type 0 where
  pub refl_at : (s : S) → R s s
  pub trans_at : (s t u : S) → R s t → R t u → R s u

-- Whatever comes of `m`, the world after it is related to the world before.
pub record Relates {S A : Type 0} (R : S → S → Type 0) (m : Exec S A) : Type 0 where
  pub at : (s : S) → R s (m s).1

module _ {S : Type 0} {R : S → S → Type 0} (P : IsPreorder R) where
  pub Relates-still : {A : Type 0} (m : Exec S A) → ((s : S) → (m s).1 ≡ s) → Relates R m
  Relates-still m h = record { at = λ s. rw h (P.refl_at s) }

  pub Relates-pure : {A : Type 0} (a : A) → Relates R (pure {S = S} a)
  Relates-pure a = record { at = λ s. P.refl_at s }

  pub Relates-lift : {A : Type 0} (r : Result A) → Relates R (lift {S = S} r)
  Relates-lift r = record { at = λ s. P.refl_at s }

  pub Relates-bind :
      {A B : Type 0} (m : Exec S A) (f : A → Exec S B)
      → Relates R m
      → ((a : A) → Relates R (f a))
      → Relates R (m >>= f)
  Relates-bind {A} m f hm hf = record { at = λ s. after_bind (m s).0 (m s).1 s (hm.at s) }
    where
      after_bind : (r : Result A) (t s : S) → R s t → R s (continue r t f).1
      after_bind (ok a) t s h = P.trans_at s t (f a t).1 h ((hf a).at t)
      after_bind (err e) t s h = h

  -- The same, where it is known what the first action returns.
  pub Relates-knowing :
      {A B : Type 0} (Q : A → Type 0) (m : Exec S A) (f : A → Exec S B)
      → Relates R m
      → Yields Q m
      → ((a : A) → Q a → Relates R (f a))
      → Relates R (m >>= f)
  Relates-knowing {A} Q m f hm hy hf = record {
    at = λ s. after_known (m s).0 (m s).1 s (λ a e. hy.of s a e) (hm.at s);
  }
    where
      after_known :
          (r : Result A) (t s : S) → ((a : A) → r ≡ ok a → Q a) → R s t → R s (continue r t f).1
      after_known (ok a) t s known h = P.trans_at s t (f a t).1 h ((hf a (known a refl)).at t)
      after_known (err e) t s known h = h

  pub Relates-attempt : {A : Type 0} (m : Exec S A) → Relates R m → Relates R (attempt m)
  Relates-attempt m h = record { at = λ s. h.at s }

  pub Relates-if :
      {A : Type 0} (b : Bool) (m n : Exec S A)
      → Relates R m
      → Relates R n
      → Relates R (if b then m else n)
  Relates-if true m n hm hn = hm
  Relates-if false m n hm hn = hn
