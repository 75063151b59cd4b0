-- ===== src/Client/Sweep.antt =====
-- `RelayClient._iter_uuids` and the sweeps built on it. The generator and the loop that consumes
-- it are one loop here: `body` is the consumer's step, run at each `yield`.
use worker_hive_relay.Prelude.{
  ℕ, ◌+◌, String, Bool, true, false, not, Option, none, some, List, [], ◌∷◌, ◌++◌, leb, ◌=ₛ◌,
  if◌then◌else◌, str_lt, ends_with, len, cut,
}
use worker_hive_relay.Exec.{ok, Exec, pure, gets, ◌>>=◌, ◌>>◌}
use worker_hive_relay.Backend.{Backend}
use worker_hive_relay.Client.{World, cursor_of, request, pending_prefix, terminal_prefix, suffix}

-- What the consumer does after a uuid: it goes on, or breaks out of its loop.
pub data Turn (A : Type 0) : Type 0 where
  go : A → Turn A
  break : A → Turn A

-- What a range leaves: the count so far, or a generator that is closed.
pub data Swept (A : Type 0) : Type 0 where
  next : ℕ → A → Swept A
  closed : A → Swept A

abbrev pub set_cursor : String → String → List (String × String) → List (String × String)
set_cursor p k [] = (p, k) ∷ []
set_cursor p k ((q, c) ∷ more) =
    let rest = set_cursor p k more in if q =ₛ p then (q, k) ∷ more else (q, c) ∷ rest

abbrev pub beyond : Option String → String → Bool
beyond none key = false
beyond (some c) key = str_lt c key

abbrev pub reached : Option ℕ → ℕ → Bool
reached none n = false
reached (some m) n = leb m n

abbrev pub swept_value : {A : Type 0} → Swept A → A
swept_value (next _ a) = a
swept_value (closed a) = a

module _ {B : Backend} {X : Type 0} where
  -- `if rotate: self._scan_cursors[prefix] = key`.
  abbrev pub note_cursor : Bool → String → String → Exec (World B X) (Unit {0})
  note_cursor rotate p key w =
      (ok tt, if rotate then record w { cursors = set_cursor p key w.cursors } else w)

module _ {B : Backend} {X : Type 0} {A : Type 0} where
  -- After the consumer's step: `yielded += 1`, and the test of `max_items`.
  abbrev pub after_yield :
      Option ℕ → ℕ → (ℕ → A → Exec (World B X) (Swept A)) → Turn A → Exec (World B X) (Swept A)
  after_yield max_items yielded rest (break a) = pure (closed a)
  after_yield max_items yielded rest (go a) =
      if reached max_items (yielded + 1) then pure (closed a) else rest (yielded + 1) a

  -- The inner loop, over the keys of one range.
  unfoldable pub sweep_range :
      String
      → Option ℕ
      → Bool
      → (String → A → Exec (World B X) (Turn A))
      → Option String
      → List String
      → ℕ
      → A
      → Exec (World B X) (Swept A)
  sweep_range p max_items rotate body stop_at [] yielded a = pure (next yielded a)
  sweep_range p max_items rotate body stop_at (key ∷ keys) yielded a =
      let rest = sweep_range p max_items rotate body stop_at keys in
      if beyond stop_at key
      then pure (next yielded a)
      else if not (ends_with key suffix)
      then rest yielded a
      else do
        note_cursor rotate p key
        turn ← body (cut key (len p) (len suffix)) a
        after_yield max_items yielded rest turn

  abbrev pub range_of :
      String
      → Option ℕ
      → Bool
      → (String → A → Exec (World B X) (Turn A))
      → (start_after stop_at : Option String) → ℕ
      → A
      → Exec (World B X) (Swept A)
  range_of p max_items rotate body start_after stop_at yielded a = do
    keys ← request (B.iter_keys p start_after)
    sweep_range p max_items rotate body stop_at keys yielded a

  abbrev pub second_range :
      String
      → Option ℕ
      → Bool
      → (String → A → Exec (World B X) (Turn A))
      → String
      → Swept A
      → Exec (World B X) (Swept A)
  second_range p max_items rotate body c (closed a) = pure (closed a)
  second_range p max_items rotate body c (next yielded a) =
      range_of p max_items rotate body none (some c) yielded a

  abbrev pub ranges :
      String
      → Option ℕ
      → Bool
      → (String → A → Exec (World B X) (Turn A))
      → Option String
      → A
      → Exec (World B X) (Swept A)
  ranges p max_items rotate body none a = range_of p max_items rotate body none none 0 a
  ranges p max_items rotate body (some c) a = do
    swept ← range_of p max_items rotate body (some c) none 0 a
    second_range p max_items rotate body c swept

  -- `_iter_uuids(prefix, max_items, rotate)` under a loop with the given body.
  unfoldable pub iter_uuids :
      String → Option ℕ → Bool → (String → A → Exec (World B X) (Turn A)) → A → Exec (World B X) A
  unfolding sweep_range
  iter_uuids p max_items rotate body a = if reached max_items 0 then pure a else do
    cursor ← gets (λ (w : World B X). if rotate then cursor_of p w.cursors else none)
    swept ← ranges p max_items rotate body cursor a
    pure (swept_value swept)

module _ {B : Backend} {X : Type 0} where
  -- `list(...)` of a generator.
  abbrev pub collect : String → List String → Exec (World B X) (Turn (List String))
  collect uuid seen = pure (go (seen ++ uuid ∷ []))

  unfoldable pub list_pending : Exec (World B X) (List String)
  unfolding iter_uuids
  list_pending = iter_uuids pending_prefix none false collect []

  unfoldable pub list_terminal : Exec (World B X) (List String)
  unfolding iter_uuids
  list_terminal = iter_uuids terminal_prefix none false collect []

module _ {B : Backend} {X : Type 0} {A : Type 0} where
  -- `for uuid in iter_pending(max_items=...)`.
  unfoldable pub for_pending : ℕ → (String → A → Exec (World B X) (Turn A)) → A → Exec (World B X) A
  for_pending max_items = iter_uuids pending_prefix (some max_items) true

  unfoldable pub for_terminal :
      ℕ → (String → A → Exec (World B X) (Turn A)) → A → Exec (World B X) A
  for_terminal max_items = iter_uuids terminal_prefix (some max_items) true
