-- ===== src/Client/Frame.antt =====
-- What the node-side operations of the client leave alone: terminal objects that stand, and the home side's objects.
use text.Mathlib.TextEquality.{eq_iff}
use worker_hive_relay.Prelude.{
  ℕ, ◌+◌, ltb, List, [], ◌∷◌, not, ends_with, cut, len, String, ◌≡◌, refl, ◌∙◌, Bool, true, false,
  Option, none, some, arith, Bytes, if◌then◌else◌,
}
use worker_hive_relay.Exec.{Exec, gets}
use worker_hive_relay.Exec.Relates.{
  IsPreorder, Relates, Relates-still, Relates-pure, Relates-lift, Relates-bind, Relates-if,
}
use worker_hive_relay.Backend.{Backend, IsLawful}
use worker_hive_relay.Client.{
  Host, World, cursor_of, pending_prefix, suffix, pending, claimant, claimed, terminal, key_of,
  marker, on_bad_value, claimed_at, request, take_over, claim, renew_claim, renew_existing,
  now_or_clock, put_active, put_terminal, get_pending, get_claimant,
}
use worker_hive_relay.Client.Keys.{key_of-eq}
use worker_hive_relay.Client.Objects.{object}
use worker_hive_relay.Client.Sweep.{
  Turn, go, break, Swept, next, closed, beyond, reached, note_cursor, after_yield, sweep_range,
  range_of, second_range, swept_value, ranges, iter_uuids, for_pending,
}

module _ {B : Backend} (L : IsLawful B) {X : Type 0} where
  -- Terminal objects that stand are the same afterwards, and so are all pending objects and all
  -- claimant envelopes.
  pub record Respects (w t : World B X) : Type 0 where
    pub terminals :
        (v : String) (o : Bytes × B.Version)
        → object L w terminal v ≡ some o
        → object L t terminal v ≡ some o
    pub pendings : (v : String) → object L t pending v ≡ object L w pending v
    pub claimants : (v : String) → object L t claimant v ≡ object L w claimant v

  pub Respects-preorder : IsPreorder Respects
  Respects-preorder = record {
    refl_at = λ s. record { terminals = λ v o h. h; pendings = λ v. refl; claimants = λ v. refl };
    trans_at = λ s t u p q. record {
      terminals = λ v o h. q.terminals v o (p.terminals v o h);
      pendings = λ v. q.pendings v ∙ p.pendings v;
      claimants = λ v. q.claimants v ∙ p.claimants v;
    };
  }

  create-Respects :
      (u : String) (b : Bytes) → Relates Respects (request (B.create_only (key_of claimed u) b))
  create-Respects u b = record {
    at = λ w. record {
      terminals = λ v o h. rw (L.view-create_only, key_of-eq) h;
      pendings = λ v. rw (L.view-create_only, key_of-eq);
      claimants = λ v. rw (L.view-create_only, key_of-eq);
    };
  }

  cas-Respects :
      (u : String) (b : Bytes) (x : B.Version)
      → Relates Respects (request (B.cas_write (key_of claimed u) b x))
  cas-Respects u b x = record {
    at = λ w. record {
      terminals = λ v o h. rw (L.view-cas_write, key_of-eq) h;
      pendings = λ v. rw (L.view-cas_write, key_of-eq);
      claimants = λ v. rw (L.view-cas_write, key_of-eq);
    };
  }

  pub put_active-Respects : (u : String) (b : Bytes) → Relates Respects (put_active u b)
  unfolding put_active
  put_active-Respects u b = record {
    at = λ w. record {
      terminals = λ v o h. rw (L.view-put, key_of-eq) h;
      pendings = λ v. rw (L.view-put, key_of-eq);
      claimants = λ v. rw (L.view-put, key_of-eq);
    };
  }

  pub put_terminal-Respects : (u : String) (b : Bytes) → Relates Respects (put_terminal u b)
  unfolding put_terminal
  put_terminal-Respects u b = record {
    at = λ w. record {
      terminals = λ v o h. ground (
        arith,
        L.view-create_only (key_of terminal u) b w.bucket (key_of terminal v),
        h,
        eq_iff (key_of terminal u) (key_of terminal v),
      );
      pendings = λ v. rw (L.view-create_only, key_of-eq);
      claimants = λ v. rw (L.view-create_only, key_of-eq);
    };
  }

  read-Respects : (k : String) → Relates Respects (request (B.read k))
  read-Respects k = Relates-still Respects-preorder _ (λ w. rw L.answer-read)

  read_version-Respects : (k : String) → Relates Respects (request (B.read_with_version k))
  read_version-Respects k = Relates-still Respects-preorder _ (λ w. rw L.answer-read_with_version)

  take_over-Respects :
      (host : Host) (u : String) (b : Bytes) (now lease : ℕ) (o : Option (Bytes × B.Version))
      → Relates Respects (take_over host u b now lease o)
  unfolding take_over
  take_over-Respects host u b now lease none = Relates-pure Respects-preorder false
  take_over-Respects host u b now lease (some (raw, x)) =
      Relates-bind Respects-preorder {A = ℕ} _ _
        (Relates-lift Respects-preorder (on_bad_value 0 (claimed_at host raw)))
        (λ since.
          Relates-if Respects-preorder (ltb now (since + lease)) _ _
            (Relates-pure Respects-preorder false) (cas-Respects u b x))

  clock-Respects : (host : Host) (now : Option ℕ) → Relates Respects (now_or_clock host now)
  clock-Respects host none = record {
    at = λ w. record { terminals = λ v o h. h; pendings = λ v. refl; claimants = λ v. refl };
  }
  clock-Respects host (some t) = Relates-pure Respects-preorder t

  pub claim-Respects :
      (host : Host) (u o : String) (lease : ℕ) (now : Option ℕ)
      → Relates Respects (claim host u o lease now)
  unfolding claim
  claim-Respects host u o lease now =
      Relates-bind Respects-preorder _ _ (clock-Respects host now) (λ t.
        Relates-bind Respects-preorder _ _ (create-Respects u (marker host o t)) (λ created.
          Relates-if Respects-preorder created _ _ (Relates-pure Respects-preorder true) (
            Relates-bind Respects-preorder _ _ (read_version-Respects (key_of claimed u))
              (take_over-Respects host u (marker host o t) t lease))))

  renew_existing-Respects :
      (host : Host) (u o : String) (now : ℕ) (e : Option (Bytes × B.Version))
      → Relates Respects (renew_existing host u o now e)
  unfolding renew_existing
  renew_existing-Respects host u o now none = Relates-pure Respects-preorder false
  renew_existing-Respects host u o now (some (raw, x)) =
      Relates-bind Respects-preorder _ _ (Relates-lift Respects-preorder _) (λ mine.
        Relates-if Respects-preorder mine _ _ (cas-Respects u (marker host o now) x)
          (Relates-pure Respects-preorder false))

  pub renew_claim-Respects :
      (host : Host) (u o : String) (now : Option ℕ) → Relates Respects (renew_claim host u o now)
  unfolding renew_claim
  renew_claim-Respects host u o now =
      Relates-bind Respects-preorder _ _ (clock-Respects host now) (λ t.
        Relates-bind Respects-preorder _ _ (read_version-Respects (key_of claimed u))
          (renew_existing-Respects host u o t))

  pub get_pending-Respects : (u : String) → Relates Respects (get_pending u)
  unfolding get_pending
  get_pending-Respects u = read-Respects (key_of pending u)

  pub get_claimant-Respects : (u : String) → Relates Respects (get_claimant u)
  unfolding get_claimant
  get_claimant-Respects u = read-Respects (key_of claimant u)

  -- A change to the readings and to the rest alone.
  pub local-Respects :
      {A : Type 0} (m : Exec (World B X) A)
      → ((w : World B X) → (m w).1.bucket ≡ w.bucket)
      → Relates Respects m
  local-Respects m h = record {
    at = λ w. record { terminals = λ v o e. rw h e; pendings = λ v. rw h; claimants = λ v. rw h };
  }

  note_cursor-Respects : (rotate : Bool) (p k : String) → Relates Respects (note_cursor rotate p k)
  note_cursor-Respects true p k = local-Respects _ (λ w. refl)
  note_cursor-Respects false p k = local-Respects _ (λ w. refl)

  iter_keys-Respects :
      (p : String) (c : Option String) → Relates Respects (request (B.iter_keys p c))
  iter_keys-Respects p c = Relates-still Respects-preorder _ (λ w. rw L.answer-iter_keys)

  -- A sweep respects what each step of its consumer respects.
  module _ {A : Type 0} (body : String → A → Exec (World B X) (Turn A))
      (step : (u : String) (a : A) → Relates Respects (body u a)) where
    sweep_range-Respects :
        (p : String) (m : Option ℕ) (rotate : Bool) (stop : Option String) (ks : List String)
        (y : ℕ) (a : A)
        → Relates Respects (sweep_range p m rotate body stop ks y a)
    unfolding sweep_range
    sweep_range-Respects p m rotate stop [] y a = Relates-pure Respects-preorder (next y a)
    sweep_range-Respects p m rotate stop (k ∷ ks) y a =
        Relates-if Respects-preorder (beyond stop k) _ _ (Relates-pure Respects-preorder (next y a))
          (Relates-if Respects-preorder (not (ends_with k suffix)) _ _
            (sweep_range-Respects p m rotate stop ks y a)
            (Relates-bind Respects-preorder _ _ (note_cursor-Respects rotate p k) (λ _.
              Relates-bind Respects-preorder _ _ (step (cut k (len p) (len suffix)) a) (
                turned (sweep_range p m rotate body stop ks)
                  (sweep_range-Respects p m rotate stop ks)))))
      where
        turned :
            (rest : ℕ → A → Exec (World B X) (Swept A))
            → ((n : ℕ) (b : A) → Relates Respects (rest n b))
            → (t : Turn A) → Relates Respects (after_yield m y rest t)
        turned rest h (break b) = Relates-pure Respects-preorder (closed b)
        turned rest h (go b) =
            Relates-if Respects-preorder (reached m (y + 1)) _ _
              (Relates-pure Respects-preorder (closed b)) (h (y + 1) b)

    range_of-Respects :
        (p : String) (m : Option ℕ) (rotate : Bool) (start stop : Option String) (y : ℕ) (a : A)
        → Relates Respects (range_of p m rotate body start stop y a)
    range_of-Respects p m rotate start stop y a =
        Relates-bind Respects-preorder _ _ (iter_keys-Respects p start)
          (λ ks. sweep_range-Respects p m rotate stop ks y a)

    ranges-Respects :
        (p : String) (m : Option ℕ) (rotate : Bool) (c : Option String) (a : A)
        → Relates Respects (ranges p m rotate body c a)
    ranges-Respects p m rotate none a = range_of-Respects p m rotate none none 0 a
    ranges-Respects p m rotate (some c) a =
        Relates-bind Respects-preorder _ _ (range_of-Respects p m rotate (some c) none 0 a) second
      where
        second : (s : Swept A) → Relates Respects (second_range p m rotate body c s)
        second (closed b) = Relates-pure Respects-preorder (closed b)
        second (next y b) = range_of-Respects p m rotate none (some c) y b

    pub iter_uuids-Respects :
        (p : String) (m : Option ℕ) (rotate : Bool) (a : A)
        → Relates Respects (iter_uuids p m rotate body a)
    unfolding iter_uuids
    iter_uuids-Respects p m rotate a =
        Relates-if Respects-preorder (reached m 0) _ _ (Relates-pure Respects-preorder a) (
          Relates-bind Respects-preorder
            (gets (λ (w : World B X). if rotate then cursor_of p w.cursors else none)) _
            (local-Respects _ (λ w. refl))
            (λ c.
              Relates-bind Respects-preorder _ _ (ranges-Respects p m rotate c a)
                (λ s. Relates-pure Respects-preorder (swept_value s))))

    pub for_pending-Respects : (n : ℕ) (a : A) → Relates Respects (for_pending n body a)
    unfolding for_pending
    for_pending-Respects n a = iter_uuids-Respects pending_prefix (some n) true a
