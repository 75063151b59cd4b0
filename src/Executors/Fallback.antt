-- ===== src/Executors/Fallback.antt =====
-- The chain of `FallbackExecutor` within one job.
use worker_hive_relay.Prelude.{
  String, ◌≡◌, refl, Bool, true, false, List, [], ◌∷◌, ◌++◌, if◌then◌else◌, arith,
}
use worker_hive_relay.Exec.{Result, ok, err, Exec}
use worker_hive_relay.Value.{Value}
use worker_hive_relay.Executors.{
  Question, ChatBackend, has_failed, after_try, try_chain, complete_fallback,
}

module _ {S : Type 0} (b : ChatBackend S) (other : Question → Exec S Value)
    (post : List (ChatBackend S)) where
  -- The backend, with another way to answer.
  abbrev pub replaced : ChatBackend S
  replaced = record b { complete = other }

  still_failed :
      (n : String) (failed : List String)
      → has_failed b.name failed ≡ true
      → has_failed b.name (n ∷ failed) ≡ true
  unfolding has_failed
  still_failed n failed h = ground arith

  try_chain-replaced :
      (pre : List (ChatBackend S)) (q : Question) (errors failed : List String) (s : S)
      → has_failed b.name failed ≡ true
      → try_chain (pre ++ (b ∷ post)) q errors failed s
        ≡ try_chain (pre ++ (replaced ∷ post)) q errors failed s
  unfolding try_chain
  try_chain-replaced [] q errors failed s h = rw h refl
  try_chain-replaced (p ∷ ps) q errors failed s h =
      go (has_failed p.name failed) (p.complete q s).0 (p.complete q s).1
        (try_chain-replaced ps q errors failed s h)
        (λ more.
          try_chain-replaced ps q more (p.name ∷ failed) (p.complete q s).1
            (still_failed p.name failed h))
    where
      go :
          (c : Bool) (r : Result Value) (t : S)
          → try_chain (ps ++ (b ∷ post)) q errors failed s
            ≡ try_chain (ps ++ (replaced ∷ post)) q errors failed s
          → ((more : List String)
              → try_chain (ps ++ (b ∷ post)) q more (p.name ∷ failed) t
                ≡ try_chain (ps ++ (replaced ∷ post)) q more (p.name ∷ failed) t)
          → (if c
              then try_chain (ps ++ (b ∷ post)) q errors failed s
              else after_try p.name errors (try_chain (ps ++ (b ∷ post)) q) failed r t)
            ≡ (if c
                then try_chain (ps ++ (replaced ∷ post)) q errors failed s
                else after_try p.name errors (try_chain (ps ++ (replaced ∷ post)) q) failed r t)
      go true r t same onwards = same
      go false (ok v) t same onwards = refl
      go false (err e) t same onwards = onwards _

  -- A backend that failed in a job is not asked again in it: wherever the backend stands in the
  -- chain, if its name is among those that failed, the answer, the state and the failed names
  -- after `complete` are the same whatever the backend would answer now.
  pub complete_fallback-replaced :
      (pre : List (ChatBackend S)) (q : Question) (s : S) (failed : List String)
      → has_failed b.name failed ≡ true
      → complete_fallback (pre ++ (b ∷ post)) q (s, failed)
        ≡ complete_fallback (pre ++ (replaced ∷ post)) q (s, failed)
  unfolding complete_fallback
  complete_fallback-replaced pre q s failed h = try_chain-replaced pre q [] failed s h
