-- ===== src/Git/Recorded.antt =====
-- A system that keeps the git commands it was given, the last one first.
use worker_hive_relay.Prelude.{All, String, List, ◌∷◌}
use worker_hive_relay.Exec.{Exec}
use worker_hive_relay.Exec.Relates.{IsPreorder, Relates}
use worker_hive_relay.Git.{System, Command, run_git}

-- An action of the disk, which runs no command.
abbrev pub on_disk : {S A : Type 0} → Exec S A → Exec (List Command × S) A
on_disk m (log, s) = let (r, t) = m s in (r, (log, t))

abbrev pub recorded : System → System
recorded sys = record {
  State = List Command × sys.State;
  run = λ c x. let (r, t) = sys.run c x.1 in (r, (c ∷ x.0, t));
  is_dir = λ p x. sys.is_dir p x.1;
  exists = λ p x. sys.exists p x.1;
  iterdir = λ p. on_disk (sys.iterdir p);
  walk = λ p. on_disk (sys.walk p);
  file_size = λ p. on_disk (sys.file_size p);
  mtime = λ p. on_disk (sys.mtime p);
  rmtree = λ p. on_disk (sys.rmtree p);
  rename = λ p q. on_disk (sys.rename p q);
  utime = λ p. on_disk (sys.utime p);
  unlink_missing_ok = λ p. on_disk (sys.unlink_missing_ok p);
  unlink = λ p. on_disk (sys.unlink p);
  write_temp = λ text. on_disk (sys.write_temp text);
  write_private = λ p text. on_disk (sys.write_private p text);
  lock = λ p. on_disk (sys.lock p);
  try_lock = λ p. on_disk (sys.try_lock p);
  unlock = λ p. on_disk (sys.unlock p);
  mkdir = λ p. on_disk (sys.mkdir p);
  chmod = λ p mode. on_disk (sys.chmod p mode);
  write_text = λ p text. on_disk (sys.write_text p text);
}

module _ (sys : System) (P : Command → Type 0) where
  -- A log that satisfies `P` still does afterwards.
  abbrev pub Logs : (x y : (recorded sys).State) → Type 0
  Logs x y = All P x.0 → All P y.0

  pub Logs-IsPreorder : IsPreorder Logs
  Logs-IsPreorder = record { refl_at = λ x h. h; trans_at = λ x y z f g h. g (f h) }

  pub Logs-on_disk : {A : Type 0} (m : Exec sys.State A) → Relates Logs (on_disk m)
  Logs-on_disk m = record { at = λ x h. h }

  pub Logs-run_git :
      (c : Command) (message : String) → P c → Relates Logs (run_git (recorded sys) c message)
  unfolding run_git
  Logs-run_git c message p = record { at = λ x h. (p, h) }
