-- ===== src/Hive/Recorded.antt =====
-- A bus that keeps the requests it was sent, the last one first.
use worker_hive_relay.Prelude.{List, [], ◌∷◌}
use worker_hive_relay.Hive.{Request, Bus, Bridge}

abbrev pub recording : Bus → Bus
recording N = record {
  State = List Request × N.State;
  send = λ r x. let (answer, t) = N.send r x.1 in (answer, (r ∷ x.0, t));
}

-- The client in front of a recording bus that was sent nothing yet.
abbrev pub unsent : {N : Bus} → Bridge N → Bridge (recording N)
unsent x = record { hive = x.hive; bus = ([], x.bus) }
