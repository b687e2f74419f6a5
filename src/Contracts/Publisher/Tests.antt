-- ===== src/Contracts/Publisher/Tests.antt =====
-- The theorems on the outbox of the contracts service and on its list at a small database.
use mathlib.Core.List.Permᴰ
use hire_flow.Prelude.{ℕ, zero, suc, ◌≡◌, refl, [], ◌∷◌, some, false, arith}
use mathlib.Core.List.{Memᴰ}
use hire_flow.Prelude.Int.{pos}
use hire_flow.Prelude.Table.{length}
use hire_flow.Prelude.Paging.{IsScan, reverse, reverse-Permᴰ, newest, page}
use hire_flow.Outbox.{BatchEnv, acked}
use hire_flow.Outbox.Drain.{Works}
use hire_flow.Contracts.Types.{Contract, Db, active, contract_accepted, durable}
use hire_flow.Contracts.Saga.{event_row, accept_contract, move, emit}
use hire_flow.Contracts.Stores.{find_contract, get_by_id, update_status, insert_entry, run_tx}
use hire_flow.Contracts.Publisher.{run_publisher}
use hire_flow.Contracts.Publisher.Announcement.{accept_contract-Announced}
use hire_flow.Contracts.Listing.{Scan, created_at, number, listed, list_contracts}
use hire_flow.Contracts.Listing.Pages.{asked, walk_contracts, list_contracts_covers}
use hire_flow.Contracts.Tests.{start, waiting, env}

abbrev batch_env : BatchEnv
batch_env = record {
  begin_fails = false;
  fetch_fails = false;
  mark_fails = false;
  sending = λ id. acked;
  commit = durable;
  now = 70;
}

batch_env-Works : Works batch_env
batch_env-Works = record {
  begins = refl;
  fetches = refl;
  marks = refl;
  sends = λ id. refl;
  commits = refl;
}

accept_contract-Announced_example :
    let after = (accept_contract (env 0) 50 start).1 in
    (c : Contract) × (find_contract 50 after.contracts ≡ some c)
    × (c.status ≡ active)
    × (after.outbox ≡ event_row (env 0) 50 contract_accepted c ∷ [])
    × Memᴰ (event_row (env 0) 50 contract_accepted c) (run_publisher (batch_env ∷ []) after).1
unfolding accept_contract move get_by_id update_status emit insert_entry run_tx
accept_contract-Announced_example =
    accept_contract-Announced (env 0) 50 start (batch_env ∷ []) refl (batch_env-Works, tt)
      (ground arith)

-- two contracts of one client, made at different times
abbrev dated : Db
dated = record start { contracts = waiting ∷ record waiting { id = 49; created_at = 1 } ∷ [] }

-- the first query of two has the rows in reverse
abbrev scans : ℕ → Scan
scans zero rows = rows
scans (suc i) rows = reverse rows

scans-IsScan : (i : ℕ) → IsScan (scans i)
scans-IsScan zero rows = Permᴰ.refl rows
scans-IsScan (suc i) rows = reverse-Permᴰ rows

list_contracts_covers_example :
    (walk_contracts scans 11 0 1 dated 2 0 ≡ newest created_at (asked 11 0 dated))
    × (list_contracts false false (scans 1) 11 0 (number (pos 1)) (number (pos 1)) dated
        ≡ listed (page 1 1 (newest created_at (asked 11 0 dated))) (length (asked 11 0 dated)))
list_contracts_covers_example =
    list_contracts_covers scans 11 0 1 dated 2 1 1 scans-IsScan (ground arith) (ground arith)
      (ground arith) (ground arith)
