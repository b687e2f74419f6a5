-- ===== src/Contracts/Types.antt =====
-- The tables of the contracts database with the Go structs of the service, the results of the saga,
-- and the interface of the payments service that the saga uses (contract.go, milestone.go,
-- outbox.go, events.go, payments_client.go, `PaymentsService` of saga.go).
use hire_flow.Prelude.{ℕ, String, Bool, Option, List, ◌==◌}
use hire_flow.Prelude.Int.{ℤ}
pub use hire_flow.Prelude.Database.{Commit, durable, refused, unacknowledged}
use hire_flow.Outbox

-- The ids are UUIDs kept as text, which is only compared; the empty text is 0.
abbrev pub Uuid : Type 0
Uuid = ℕ

pub data Status : Type 0 where
  pending hold_pending awaiting_accept active completing completed : Status
  declining declined cancelled : Status

-- The constants are different texts.
abbrev pub rank : Status → ℕ
rank pending = 0
rank hold_pending = 1
rank awaiting_accept = 2
rank active = 3
rank completing = 4
rank completed = 5
rank declining = 6
rank declined = 7
rank cancelled = 8

abbrev pub same_status : Status → Status → Bool
same_status a b = rank a == rank b

-- A row of `contracts`, and the struct `Contract`; the column `amount` is a BIGINT with
-- CHECK (amount > 0), and `currency` is always "USD".
pub record Contract : Type 0 where
  pub id : Uuid
  pub client_id : Uuid
  pub freelancer_id : Uuid
  pub title : String
  pub description : String
  pub amount : ℤ
  pub currency : String
  pub status : Status
  pub client_wallet_id : Uuid
  pub freelancer_wallet_id : Uuid
  pub hold_id : Option Uuid
  pub created_at : ℕ
  pub updated_at : ℕ

-- A row of `milestones`, whose status is always "PENDING".
pub record Milestone : Type 0 where
  pub id : Uuid
  pub contract_id : Uuid
  pub title : String
  pub description : String
  pub amount : ℤ
  pub position : ℤ

pub record MilestoneSpec : Type 0 where
  pub title : String
  pub description : String
  pub amount : ℤ
  pub position : ℤ

pub data EventType : Type 0 where
  contract_created contract_accepted contract_completed contract_cancelled : EventType
  contract_declined : EventType

-- A row of `outbox`; its `aggregate_type` is always "contract", its payload the JSON of a contract.
abbrev pub Entry : Type 0
Entry = Outbox.Entry EventType Contract

pub record Db : Type 0 where
  pub contracts : List Contract
  pub milestones : List Milestone
  pub outbox : List Entry

-- The errors that the handlers tell apart: `ErrContractNotFound`, `ErrStatusConflict`, any other.
pub data SagaError : Type 0 where
  contract_not_found status_conflict other_error : SagaError

pub data Result {ℓ} (A : Type ℓ) : Type ℓ where
  ok : A → Result A
  err : SagaError → Result A

-- the calls that can fail for a reason outside the program, within one transaction or by itself
pub data Site : Type 0 where
  get_contract begin create_contract create_milestone update_status set_hold_id marshal : Site
  insert_outbox : Site

-- the transactions and the statements outside of one, in a run of one saga method
pub data Phase : Type 0 where
  creating compensating confirming entering leaving : Phase

-- What the world decides in the course of one call of the saga.
pub record Env : Type 0 where
  pub fails : Phase → Site → Bool
  -- how the commit of a transaction ends, or of a statement by itself
  pub commit : Phase → Commit
  pub now : ℕ
  -- the values of `uuid.New()`
  pub new_contract : Uuid
  pub new_milestone : ℕ → Uuid
  pub new_entry : Uuid

pub record HoldRequest : Type 0 where
  pub wallet_id : Uuid
  pub amount : ℤ
  pub contract_id : Uuid

-- `PaymentsService`, over what it keeps on its side. The saga uses the id of a `HoldResponse`;
-- `none` and `false` are errors.
pub record PaymentsService (S : Type 0) : Type 0 where
  pub hold_funds : HoldRequest → S → Option Uuid × S
  pub release_funds : Uuid → S → Bool × S
  pub transfer_funds : Uuid → Uuid → S → Bool × S
