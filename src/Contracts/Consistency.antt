-- ===== src/Contracts/Consistency.antt =====
-- How the status of a contract (contract.go) and the state of its hold are to agree.
pub mod Effects
pub mod Settlement
pub mod Methods
pub mod Creation
use hire_flow.Prelude.{ℕ, ◌≡◌, Bool, true, false, ◌||◌, Option, none, some}
use hire_flow.Prelude.Table.{Keyed}
use hire_flow.Contracts.Types.{
  Uuid, Status, pending, hold_pending, awaiting_accept, active, completing, completed, declining,
  declined, cancelled, Contract, Db,
}
use hire_flow.Contracts.Stores.{contract_key, find_contract}
use hire_flow.Contracts.Escrow.{HoldState, held, paid, returned, Escrow}

-- the statuses that a hold stands behind
abbrev pub needs_hold : Status → Bool
needs_hold pending = false
needs_hold cancelled = false
needs_hold _ = true

-- In these states the hold of a contract may be.
abbrev pub allows : Status → HoldState → Bool
allows completed paid = true
allows completed _ = false
allows declined returned = true
allows declined _ = false
allows completing returned = false
allows completing _ = true
allows declining paid = false
allows declining _ = true
allows _ held = true
allows _ _ = false

-- The hold `e` was made for the terms of contract `c`.
pub record Matches (c : Contract) (e : Escrow) : Type 0 where
  pub contract : e.contract_id ≡ c.id
  pub wallet : e.wallet_id ≡ c.client_wallet_id
  pub amount : e.amount ≡ c.amount

module _ {S : Type 0} (view : S → Uuid → Option Escrow) where
  pub record Backed (s : S) (c : Contract) : Type 0 where
    pub hold : Uuid
    pub escrow : Escrow
    pub has : c.hold_id ≡ some hold
    pub seen : view s hold ≡ some escrow
    pub match : Matches c escrow
    pub allowed : allows c.status escrow.state ≡ true

  -- A contract whose status needs a hold has one, made for it, in a state that the status allows.
  abbrev pub IsConsistent : S → Db → Type 0
  IsConsistent s db =
      (id : Uuid) (c : Contract)
      → find_contract id db.contracts ≡ some c
      → needs_hold c.status ≡ true
      → Backed s c
