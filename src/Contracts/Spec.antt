-- ===== src/Contracts/Spec.antt =====
-- What the contracts service promises of its rows: the life of a contract as a graph, and the four
-- ways in which a transaction moves the database. Contracts/Refinement
-- compares the saga with it.
use hire_flow.Prelude.{ℕ, ◌≡◌, none, some, ◌∷◌}
use hire_flow.Prelude.Table.{update}
use hire_flow.Contracts.Types.{
  Uuid, Status, pending, hold_pending, awaiting_accept, active, completing, completed, declining,
  declined, cancelled, Contract, Db,
}
use hire_flow.Contracts.Stores.{contract_key, find_contract, set_status, set_hold}

-- the diagram of contract.go
pub data Drawn : Status → Status → Type 0 where
  hold_placed : Drawn pending hold_pending
  payment_held : Drawn hold_pending awaiting_accept
  payment_failed : Drawn hold_pending cancelled
  accept : Drawn awaiting_accept active
  cancel : Drawn awaiting_accept declining
  release : Drawn declining declined
  complete : Drawn active completing
  transfer : Drawn completing completed

-- The changes of status that the saga makes: those of the diagram, and one that the diagram does not
-- have, which CreateContract makes when HoldFunds fails.
infix 40 ◌⟶◌ ◌⟶*◌
pub data ◌⟶◌ : Status → Status → Type 0 where
  drawn : {a b : Status} → Drawn a b → a ⟶ b
  hold_refused : pending ⟶ cancelled

pub data ◌⟶*◌ : Status → Status → Type 0 where
  here : {a : Status} → a ⟶* a
  then : {a b c : Status} → a ⟶* b → b ⟶ c → a ⟶* c

-- Between the two databases a contract was inserted, pending and without a hold, under an id that
-- no contract had.
pub record Inserted (row : Contract) (db after : Db) : Type 0 where
  pub fresh : find_contract row.id db.contracts ≡ none
  pub new : row.status ≡ pending
  pub bare : row.hold_id ≡ none
  pub rows : after.contracts ≡ row ∷ db.contracts
  pub events : after.outbox ≡ db.outbox

-- Contract `id` has gone from one status to another, and events may have been written.
pub record Advanced (id : Uuid) (from to : Status) (db after : Db) : Type 0 where
  pub row : Contract
  pub at : ℕ
  pub found : find_contract id db.contracts ≡ some row
  pub here : row.status ≡ from
  pub rows : after.contracts ≡ update contract_key id (set_status to at) db.contracts
  pub others : after.milestones ≡ db.milestones

-- Contract `id`, which was pending, has got its hold, and events may have been written.
pub record Confirmed (id hold_id : Uuid) (db after : Db) : Type 0 where
  pub row : Contract
  pub at : ℕ
  pub found : find_contract id db.contracts ≡ some row
  pub here : row.status ≡ pending
  pub rows :
      after.contracts
      ≡ update contract_key id
          (set_hold hold_id at)
          (update contract_key id (set_status hold_pending at) db.contracts)
  pub others : after.milestones ≡ db.milestones

-- What one transaction of the service may do.
pub data Effect (db after : Db) : Type 0 where
  inserts : (row : Contract) → Inserted row db after → Effect db after
  advances :
      (id : Uuid) (from to : Status) → from ⟶ to → Advanced id from to db after → Effect db after
  confirms : (id hold_id : Uuid) → Confirmed id hold_id db after → Effect db after
  -- events alone are written
  notes : after.contracts ≡ db.contracts → after.milestones ≡ db.milestones → Effect db after

pub data Effects (db : Db) : Db → Type 0 where
  done : Effects db db
  more : {mid after : Db} → Effects db mid → Effect mid after → Effects db after
