-- ===== src/Contracts/Listing/Pages.antt =====
-- What ListContracts answers.
use hire_flow.Prelude.{
  ℕ, zero, suc, ◌+◌, ◌*◌, ◌≤◌, ◌<◌, ◌≡◌, refl, ◌∙◌, false, List, [], ◌++◌, arith, ap,
}
use hire_flow.Prelude.Int.{pos}
use hire_flow.Prelude.Table.{length, filter, Keyed}
use hire_flow.Prelude.Paging.{IsScan, newest-scan, newest, page, pages, pages_cover, length-newest}
use hire_flow.Contracts.Types.{Uuid, Contract, Db}
use hire_flow.Contracts.Listing.{Scan, matches, created_at, number, Listed, listed, list_contracts}

-- the contracts that a filter by the two parties leaves
abbrev pub asked : Uuid → Uuid → Db → List Contract
asked client freelancer db =
    filter
      (matches
        (record { client_id = client; freelancer_id = freelancer; limit = pos 0; offset = pos 0 }))
      db.contracts

abbrev pub items_of : Listed → List Contract
items_of (listed items total) = items
items_of _ = []

module _ (client freelancer : Uuid) (limit : ℕ) (db : Db) (low : 0 < limit) (high : limit ≤ 100)
    (distinct : Keyed created_at (asked client freelancer db)) where
  -- one answer
  answer-page :
      (scan : Scan) (offset : ℕ)
      → IsScan scan
      → list_contracts false false scan client freelancer
          (number (pos limit))
          (number (pos offset))
          db
        ≡ listed
            (page limit offset (newest created_at (asked client freelancer db)))
            (length (asked client freelancer db))
  unfolding list_contracts
  answer-page scan offset complete =
      ground (arith, newest-scan created_at scan (asked client freelancer db) complete distinct)

-- the contracts on `k` answers in a row, each with its own scan
pub walk_contracts : (ℕ → Scan) → Uuid → Uuid → ℕ → Db → ℕ → ℕ → List Contract
walk_contracts scans client freelancer limit db zero offset = []
walk_contracts scans client freelancer limit db (suc k) offset =
    items_of (
      list_contracts false false (scans k) client freelancer (number (pos limit))
        (number (pos offset)) db)
    ++ walk_contracts scans client freelancer limit db k (offset + limit)

walk-pages :
    (scans : ℕ → Scan) (client freelancer : Uuid) (limit : ℕ) (db : Db) (k offset : ℕ)
    → ((i : ℕ) → IsScan (scans i))
    → 0 < limit
    → limit ≤ 100
    → Keyed created_at (asked client freelancer db)
    → walk_contracts scans client freelancer limit db k offset
      ≡ pages k limit offset (newest created_at (asked client freelancer db))
unfolding walk_contracts
walk-pages scans client freelancer limit db zero offset complete low high distinct = refl
walk-pages scans client freelancer limit db (suc k) offset complete low high distinct =
    rw (answer-page client freelancer limit db low high distinct (scans k) offset (complete k)) (
      ap (λ rest. page limit offset (newest created_at (asked client freelancer db)) ++ rest)
        (walk-pages scans client freelancer limit db k (offset + limit) complete low high distinct))

-- If its queries work, whatever order the database has the rows in for each of them, and if no two
-- contracts of the given parties have the same time of creation, ListContracts with a limit from 1
-- to 100 tells on each page how many of them there are, and the pages in a row show each of them
-- once, the latest first, as soon as they have room for all.
pub list_contracts_covers :
    (scans : ℕ → Scan) (client freelancer : Uuid) (limit : ℕ) (db : Db) (k i offset : ℕ)
    → ((n : ℕ) → IsScan (scans n))
    → 0 < limit
    → limit ≤ 100
    → Keyed created_at (asked client freelancer db)
    → length (asked client freelancer db) ≤ limit * k
    → (walk_contracts scans client freelancer limit db k 0
        ≡ newest created_at (asked client freelancer db))
      × (list_contracts false false
            (scans i)
            client
            freelancer
            (number (pos limit))
            (number (pos offset))
            db
          ≡ listed
              (page limit offset (newest created_at (asked client freelancer db)))
              (length (asked client freelancer db)))
list_contracts_covers scans client freelancer limit db k i offset complete low high distinct room =
    (
      walk-pages scans client freelancer limit db k 0 complete low high distinct
          ∙ pages_cover k limit 0 (newest created_at (asked client freelancer db))
              (omega (arith, length-newest created_at (asked client freelancer db))),
      answer-page client freelancer limit db low high distinct (scans i) offset (complete i),
    )
