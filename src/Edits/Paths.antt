-- ===== src/Edits/Paths.antt =====
-- Which paths of a model's answer are rejected.
use text.Mathlib.TextLemmas
use worker_hive_relay.Exec.{Exec, ◌>>=◌}
