-- ===== src/Reconciler/Untouched.antt =====
-- `_reconcile_one` on a store that may fail: nothing is deleted that the bus has not acknowledged.
use worker_hive_relay.Prelude.{
  String, ◌≡◌, ◌≢◌, refl, sym, ap, subst, ◌∙◌, ◌⊎◌, inl, inr, Bool, true, false, some, Bytes,
}
use worker_hive_relay.Exec.{Result, ok, err, Exec, pure, lift, continue, ◌>>=◌}
use worker_hive_relay.Exec.Relates.{IsPreorder, Relates, Relates-bind}
use worker_hive_relay.Value.{Fields, get_null}
use worker_hive_relay.Crypto.{aad_for, open_blob}
use worker_hive_relay.Backend.{Backend}
use worker_hive_relay.Client.{
  Host, World, Slot, pending, claimant, claimed, terminal, active, key_of, as_dict, request,
  get_terminal, purge,
}
use worker_hive_relay.Hive.{Bus, Bridge}
use worker_hive_relay.Reconciler.{
  Lander, report, known_status, conclude, report_known, reconcile_one,
}
use worker_hive_relay.Reconciler.Evidence.{Acknowledged, report-Acknowledges}

-- What is known of a store whose requests may raise at any time: a read writes nothing.
pub record ReadsOnly (B : Backend) : Type 0 where
  pub same_after_read : (k : String) (s : B.State) → (B.read k s).1 ≡ s

-- An action leaves the bucket as it is, or the bus acknowledged the job and the action does not
-- return False.
abbrev pub Guards : {B : Backend} {N : Bus} → String → Exec (World B (Bridge N)) Bool → Type 0
Guards {B = B} {N = N} uuid m =
    (w : World B (Bridge N))
    → ((m w).1.bucket ≡ w.bucket)
      ⊎ (((m w).0 ≢ ok false) × Acknowledged N uuid w.rest.hive (m w).1.rest.bus)

module _ {B : Backend} {X : Type 0} where
  abbrev KeepsRest : (w t : World B X) → Type 0
  KeepsRest w t = t.rest ≡ w.rest

  rests : IsPreorder KeepsRest
  rests = record { refl_at = λ s. refl; trans_at = λ s t u e f. f ∙ e }

  -- A purge, however it ends, touches nothing but the store.
  purge-KeepsRest : (uuid : String) → Relates KeepsRest (purge {X = X} uuid)
  unfolding purge
  purge-KeepsRest uuid =
      deletes pending _
        (deletes claimant _ (deletes claimed _ (deletes terminal _ (removal active))))
    where
      removal : (a : Slot) → Relates KeepsRest (request {X = X} (B.delete (key_of a uuid)))
      removal a = record { at = λ w. refl }

      deletes :
          (a : Slot) (m : Exec (World B X) (Unit {0}))
          → Relates KeepsRest m
          → Relates KeepsRest (request (B.delete (key_of a uuid)) >>= λ _. m)
      deletes a m h = Relates-bind rests _ (λ _. m) (removal a) (λ _. h)

module _ {B : Backend} {N : Bus} (uuid : String) where
  Guards-lift :
      {A : Type 0} (r : Result A) (f : A → Exec (World B (Bridge N)) Bool)
      → ((a : A) → Guards uuid (f a))
      → Guards uuid (lift r >>= f)
  Guards-lift (ok a) f hf = hf a
  Guards-lift (err e) f hf = λ w. inl refl

  Guards-quiet :
      {A : Type 0} (m : Exec (World B (Bridge N)) A) (f : A → Exec (World B (Bridge N)) Bool)
      → ((w : World B (Bridge N)) → (m w).1 ≡ w)
      → ((a : A) → Guards uuid (f a))
      → Guards uuid (m >>= f)
  Guards-quiet {A} m f quiet hf w = go (m w).0 (m w).1 (quiet w)
    where
      go :
          (r : Result A) (t : World B (Bridge N))
          → t ≡ w
          → ((continue r t f).1.bucket ≡ w.bucket)
            ⊎ (((continue r t f).0 ≢ ok false)
                × Acknowledged N uuid w.rest.hive (continue r t f).1.rest.bus)
      go (ok a) t e =
          subst
            (λ x.
              ((f a t).1.bucket ≡ x.bucket)
              ⊎ (((f a t).0 ≢ ok false) × Acknowledged N uuid x.rest.hive (f a t).1.rest.bus))
            e (hf a t)
      go (err x) t e = inl (ap (λ y. y.bucket) e)

module _ (host : Host) (key : Bytes) (lander : Lander) {B : Backend} {N : Bus} (uuid : String) where
  never_false :
      (r : Result (Unit {0})) (t : World B (Bridge N))
      → (continue r t (λ _. pure true)).0 ≢ ok false
  never_false (ok tt) t e = absurd (cc e)
  never_false (err x) t e = absurd (cc e)

  same_world :
      (r : Result (Unit {0})) (t : World B (Bridge N)) → (continue r t (λ _. pure true)).1 ≡ t
  same_world (ok tt) t = refl
  same_world (err x) t = refl

  report_known-Guards :
      (payload : Fields) (known : Bool)
      → Guards {B = B} {N = N} uuid (report_known host key lander uuid payload known)
  report_known-Guards payload false = λ w. inl refl
  report_known-Guards payload true = λ w.
      go w (report host.codec lander uuid payload w.rest).0
        (report-Acknowledges uuid host.codec lander payload w.rest)
    where
      go :
          (w : World B (Bridge N)) (r : Result Bool)
          → (r ≡ ok true
              → Acknowledged N uuid w.rest.hive
                  (report host.codec lander uuid payload w.rest).1.bus)
          → let t = record w { rest = (report host.codec lander uuid payload w.rest).1 } in
            let z = continue r t (conclude host key lander uuid) in
            (z.1.bucket ≡ w.bucket)
            ⊎ ((z.0 ≢ ok false) × Acknowledged N uuid w.rest.hive z.1.rest.bus)
      go w (err e) acknowledged = inl refl
      go w (ok false) acknowledged = inl refl
      go w (ok true) acknowledged =
          let t = record w { rest = (report host.codec lander uuid payload w.rest).1 } in
          let p = purge uuid t in
          let rest = ap (λ x. x.rest) (same_world p.0 p.1) ∙ (purge-KeepsRest uuid).at t in
          inr (
            never_false p.0 p.1,
            subst (λ x. Acknowledged N uuid w.rest.hive x.bus) (sym rest) (acknowledged refl),
          )

  -- Nothing is deleted that the bus has not acknowledged, on a store whose requests may raise at
  -- any time, those of the purge included: reconciling a job leaves the bucket as it was, or the
  -- last request that the bus took was a PATCH of this job which it answered with a 2xx, and the
  -- reconciliation returned True or raised. Reads of the store are taken to write nothing.
  pub reconcile_one_untouched :
      (reads : ReadsOnly B) (w : World B (Bridge N))
      → let r = reconcile_one host key lander uuid w in
        (r.1.bucket ≡ w.bucket) ⊎ ((r.0 ≢ ok false) × Acknowledged N uuid w.rest.hive r.1.rest.bus)
  unfolding reconcile_one get_terminal
  reconcile_one_untouched reads =
      Guards-quiet uuid (get_terminal uuid) _
        (λ w. ap (λ b. record w { bucket = b }) (reads.same_after_read _ w.bucket))
        (λ raw.
          Guards-lift uuid (open_blob host.codec raw key (some (aad_for "terminal" uuid))) _
            (λ opened. Guards-lift uuid (as_dict opened) _ (λ payload.
              Guards-lift uuid (known_status (get_null "status" payload)) _
                (report_known-Guards payload))))
