-- ===== src/Outbox/Tests.antt =====
-- The theorems on the outbox at a small table.
use hire_flow.Prelude.{ℕ, refl, List, [], ◌∷◌, some, none, false, arith}
use hire_flow.Prelude.Database.{durable}
use hire_flow.Outbox.{Entry, BatchEnv, acked, unsent, run}
use hire_flow.Outbox.Drain.{Works}
use mathlib.Core.List.{Memᴰ}
use hire_flow.Outbox.Arrival.{run_delivers}

abbrev entry : ℕ → ℕ → Entry ℕ ℕ
entry id at = record {
  id = id;
  aggregate_id = 1;
  event_type = 0;
  payload = 0;
  created_at = at;
  published_at = none;
}

-- three rows, the second of which was published
abbrev rows : List (Entry ℕ ℕ)
rows = entry 3 30 ∷ record (entry 2 20) { published_at = some 21 } ∷ entry 1 10 ∷ []

abbrev good : BatchEnv
good = record {
  begin_fails = false;
  fetch_fails = false;
  mark_fails = false;
  sending = λ id. acked;
  commit = durable;
  now = 40;
}

-- the broker cannot be reached
abbrev bad : BatchEnv
bad = record good { sending = λ id. unsent }

good-Works : Works good
good-Works = record {
  begins = refl;
  fetches = refl;
  marks = refl;
  sends = λ id. refl;
  commits = refl;
}

-- the oldest row arrives
run_delivers_example : Memᴰ (entry 1 10) (run (good ∷ []) rows).1
run_delivers_example =
    run_delivers (good ∷ []) rows (entry 1 10) (ground arith) (good-Works, tt) (ground arith)
      (Memᴰ.tail (Memᴰ.tail (Memᴰ.head refl))) refl
