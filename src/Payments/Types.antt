-- ===== src/Payments/Types.antt =====
-- The tables of the payments database with the Go structs that are read from them, the requests,
-- and the responses of the HTTP handlers (wallet.go, hold.go, transaction.go, events.go).
use hire_flow.Prelude.{ℕ, String, Bool, Option, List}
use hire_flow.Prelude.Int.{ℤ}
pub use hire_flow.Prelude.Database.{Commit, durable, refused, unacknowledged}
use hire_flow.Outbox

-- A `uuid.UUID`; `uuid.Nil` is 0.
abbrev pub Uuid : Type 0
Uuid = ℕ

-- A row of `wallets`. The column `balance` is a BIGINT with CHECK (balance >= 0).
pub record WalletRow : Type 0 where
  pub id : Uuid
  pub user_id : Uuid
  pub balance : ℕ
  pub currency : String
  pub created_at : ℕ
  pub updated_at : ℕ

-- The struct `Wallet`: a row with the balance that no active hold takes up.
pub record Wallet : Type 0 where
  pub row : WalletRow
  pub open row use *
  pub available_balance : ℤ

pub data HoldStatus : Type 0 where
  active released transferred : HoldStatus

-- A row of `holds`, and the struct `Hold`. The column `amount` is a BIGINT with CHECK (amount > 0).
pub record Hold : Type 0 where
  pub id : Uuid
  pub wallet_id : Uuid
  pub amount : ℕ
  pub status : HoldStatus
  pub contract_id : Uuid
  pub created_at : ℕ
  pub expires_at : Option ℕ

pub data TransactionType : Type 0 where
  hold hold_failed release transfer_debit transfer_credit : TransactionType

-- A row of `transactions`, and the struct `Transaction`.
pub record Transaction : Type 0 where
  pub id : Uuid
  pub wallet_id : Uuid
  pub amount : ℤ
  pub type : TransactionType
  pub hold_id : Option Uuid
  pub reference_id : Option Uuid
  pub created_at : ℕ

-- The constants of events.go.
pub data EventType : Type 0 where
  payment_held payment_released payment_transferred payment_failed : EventType

-- What `json.Marshal` is given for an event.
pub data Payload : Type 0 where
  hold_payload : Hold → Payload
  -- wallet_id, amount, contract_id, with the reason "insufficient funds"
  failed_payload : Uuid → ℤ → Uuid → Payload
  -- hold_id, source_wallet_id, recipient_wallet_id, amount, contract_id
  transfer_payload : Uuid → Uuid → Uuid → ℕ → Uuid → Payload

-- A row of `outbox`; its `aggregate_type` is always "payment".
abbrev pub Entry : Type 0
Entry = Outbox.Entry EventType Payload

-- The database; new rows come first.
pub record Db : Type 0 where
  pub wallets : List WalletRow
  pub holds : List Hold
  pub transactions : List Transaction
  pub outbox : List Entry

pub record HoldRequest : Type 0 where
  pub wallet_id : Uuid
  pub amount : ℤ
  pub contract_id : Uuid

pub record ReleaseRequest : Type 0 where
  pub hold_id : Uuid

pub record TransferRequest : Type 0 where
  pub hold_id : Uuid
  pub recipient_wallet_id : Uuid

pub data ErrorMessage : Type 0 where
  invalid_request_body wallet_id_required amount_not_positive contract_id_required : ErrorMessage
  hold_id_required recipient_wallet_id_required wallet_not_found hold_not_found : ErrorMessage
  recipient_not_found hold_not_active source_is_recipient insufficient_funds : ErrorMessage
  invalid_user_id invalid_limit invalid_offset internal_server_error : ErrorMessage

pub data Body : Type 0 where
  error : ErrorMessage → Body
  hold_json : Hold → Body
  -- hold_id, source_wallet_id, recipient_wallet_id, amount, with the status "transferred"
  transfer_json : Uuid → Uuid → Uuid → ℕ → Body
  wallet_json : Wallet → Body
  -- items, total
  wallets_json : List Wallet → ℕ → Body

pub record Response : Type 0 where
  pub status : ℕ
  pub body : Body

-- The calls of a handler that can fail for a reason outside the program.
pub data Site : Type 0 where
  begin lock_wallet lock_hold lock_source lock_recipient create_hold debit credit : Site
  update_status create_tx create_credit_tx marshal insert_outbox read_wallet list_wallets : Site
  count_wallets : Site

-- What the world decides in the course of one request: which calls fail, how the commit ends, the
-- clock, and the values of `gen_random_uuid()`.
pub record Env : Type 0 where
  pub fails : Site → Bool
  pub commit : Commit
  pub now : ℕ
  pub new_hold : Uuid
  pub new_tx : Uuid
  pub new_credit_tx : Uuid
  pub new_entry : Uuid
