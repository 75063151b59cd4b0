-- ===== src/Reconciler/Settled.antt =====
-- `_reconcile_one`: the purge stands behind the acknowledgement.
use worker_hive_relay.Prelude.{String, ◌≡◌, refl, sym, subst, Bool, true, false, none, some, Bytes}
use worker_hive_relay.Exec.{Result, ok, err, Exec, pure, lift, continue, ◌>>=◌}
use worker_hive_relay.Value.{Fields, get_null}
use worker_hive_relay.Crypto.{aad_for, open_blob}
use worker_hive_relay.Backend.{Backend, IsLawful}
use worker_hive_relay.Client.{Host, World, Slot, as_dict, get_terminal}
use worker_hive_relay.Client.Objects.{object, get_terminal_still}
use worker_hive_relay.Client.Purge.{purge_then}
use worker_hive_relay.Hive.{Bus, Bridge}
use worker_hive_relay.Reconciler.{
  Lander, report, known_status, conclude, report_known, reconcile_one,
}
use worker_hive_relay.Reconciler.Evidence.{Acknowledged, report-Acknowledges}

-- An action on a job's terminal object: true only behind an acknowledgement and with the job's
-- objects gone.
record Settles {B : Backend} {N : Bus} (L : IsLawful B) (uuid : String)
    (m : Exec (World B (Bridge N)) Bool) : Type 0 where
  settled :
      (w : World B (Bridge N))
      → (m w).0 ≡ ok true
      → Acknowledged N uuid w.rest.hive (m w).1.rest.bus
        × ((a : Slot) → object L (m w).1 a uuid ≡ none)

module _ {B : Backend} {N : Bus} (L : IsLawful B) (uuid : String) where
  Settles-false : Settles L uuid (pure {S = World B (Bridge N)} false)
  Settles-false = record { settled = λ w h. absurd (cc h) }

  Settles-lift :
      {A : Type 0} (r : Result A) (f : A → Exec (World B (Bridge N)) Bool)
      → ((a : A) → Settles L uuid (f a))
      → Settles L uuid (lift r >>= f)
  Settles-lift (ok a) f hf = record { settled = λ w. (hf a).settled w }
  Settles-lift (err e) f hf = record { settled = λ w h. absurd (cc h) }

  Settles-quiet :
      {A : Type 0} (m : Exec (World B (Bridge N)) A) (f : A → Exec (World B (Bridge N)) Bool)
      → ((w : World B (Bridge N)) → (m w).1 ≡ w)
      → ((a : A) → Settles L uuid (f a))
      → Settles L uuid (m >>= f)
  Settles-quiet {A} m f quiet hf = record {
    settled = λ w. settled_after (m w).0 (m w).1 w (quiet w);
  }
    where
      settled_after :
          (r : Result A) (t w : World B (Bridge N))
          → t ≡ w
          → (continue r t f).0 ≡ ok true
          → Acknowledged N uuid w.rest.hive (continue r t f).1.rest.bus
            × ((a : Slot) → object L (continue r t f).1 a uuid ≡ none)
      settled_after (ok a) t w e h =
          subst
            (λ x.
              Acknowledged N uuid x.rest.hive (f a t).1.rest.bus
              × ((k : Slot) → object L (f a t).1 k uuid ≡ none))
            e ((hf a).settled t h)
      settled_after (err x) t w e h = absurd (cc h)

module _ (host : Host) (key : Bytes) (lander : Lander) {B : Backend} {N : Bus} (L : IsLawful B)
    (uuid : String) where
  -- The report and the end: a purge after an acknowledgement, and nothing otherwise.
  report_known-Settles :
      (payload : Fields) (known : Bool)
      → Settles {N = N} L uuid (report_known host key lander uuid payload known)
  report_known-Settles payload false = Settles-false L uuid
  report_known-Settles payload true = record {
    settled = λ w.
        settled_by (report host.codec lander uuid payload w.rest).0 w
          (report-Acknowledges uuid host.codec lander payload w.rest);
  }
    where
      settled_by :
          (r : Result Bool) (w : World B (Bridge N))
          → (r ≡ ok true
              → Acknowledged N uuid w.rest.hive
                  (report host.codec lander uuid payload w.rest).1.bus)
          → let t = record w { rest = (report host.codec lander uuid payload w.rest).1 } in
            (continue r t (conclude host key lander uuid)).0 ≡ ok true
            → Acknowledged N uuid w.rest.hive
                (continue r t (conclude host key lander uuid)).1.rest.bus
              × ((a : Slot)
                  → object L (continue r t (conclude host key lander uuid)).1 a uuid ≡ none)
      settled_by (ok true) w acknowledged h =
          let t = record w { rest = (report host.codec lander uuid payload w.rest).1 } in
          let (_, same, gone) = purge_then L uuid t in
          (subst (λ x. Acknowledged N uuid w.rest.hive x.bus) (sym same) (acknowledged refl), gone)
      settled_by (ok false) w acknowledged h = absurd (cc h)
      settled_by (err e) w acknowledged h = absurd (cc h)

  reconcile_one-Settles : Settles {N = N} L uuid (reconcile_one host key lander uuid)
  unfolding reconcile_one
  reconcile_one-Settles =
      Settles-quiet L uuid (get_terminal uuid) _ (get_terminal_still L uuid) (λ raw.
        Settles-lift L uuid (open_blob host.codec raw key (some (aad_for "terminal" uuid))) _
          (λ opened. Settles-lift L uuid (as_dict opened) _ (λ payload.
            Settles-lift L uuid (known_status (get_null "status" payload)) _
              (report_known-Settles payload))))

  -- If reconciling a job returns True then the last request that the bus took was a PATCH of this
  -- job which it answered with a 2xx, and no object of the job is left in the bucket.
  pub reconcile_one-Acknowledged :
      (w : World B (Bridge N))
      → (reconcile_one host key lander uuid w).0 ≡ ok true
      → let t = (reconcile_one host key lander uuid w).1 in
        Acknowledged N uuid w.rest.hive t.rest.bus × ((a : Slot) → object L t a uuid ≡ none)
  reconcile_one-Acknowledged = reconcile_one-Settles.settled
