-- ===== src/Contracts/Api.antt =====
-- The HTTP handlers of the contracts service (handler.go), and the consumer of payment events
-- (runPaymentsConsumer of main.go).
pub mod Changes
pub mod Reports
pub mod Creating
pub mod Events
mod Tests
use Prim.Native.String.{String, len}
use hire_flow.Prelude.{
  ℕ, Bool, true, false, ◌||◌, Option, none, some, List, [], ◌∷◌, ◌==◌, if◌then◌else◌,
}
use hire_flow.Prelude.Int.{ℤ, pos, leb_ℤ}
use hire_flow.Contracts.Types.{
  Uuid, pending, Contract, MilestoneSpec, Db, SagaError, contract_not_found, status_conflict,
  other_error, Result, ok, err, Env, PaymentsService,
}
use hire_flow.Contracts.Stores.{get_by_id}
use hire_flow.Contracts.Saga.{
  Created, created, hold_failed, create_failed, create_contract, accept_contract, complete_contract,
  cancel_contract, handle_payment_held, handle_payment_failed,
}

pub record CreateContractRequest : Type 0 where
  pub client_id : Uuid
  pub freelancer_id : Uuid
  pub title : String
  pub description : String
  pub amount : ℤ
  pub client_wallet_id : Uuid
  pub freelancer_wallet_id : Uuid
  pub milestones : List MilestoneSpec

-- the texts of the errors; the last one has the three forms "contract cannot be … in current status"
pub data Message : Type 0 where
  invalid_request_body fields_required payment_hold_failed internal_server_error : Message
  contract_missing payment_service_unavailable not_in_current_status : Message

pub data Body : Type 0 where
  contract_json : Contract → Body
  error : Message → Body

pub record Answer : Type 0 where
  pub status : ℕ
  pub body : Body

abbrev pub fail : ℕ → Message → Answer
fail status m = record { status = status; body = error m }

abbrev show : Contract → Answer
show c = record { status = 200; body = contract_json c }

-- whether the two queries of a handler around its saga method fail
pub record Reads : Type 0 where
  pub first_fails : Bool
  pub second_fails : Bool

abbrev incomplete : CreateContractRequest → Bool
incomplete req =
    req.client_id == 0
    || req.freelancer_id == 0
    || len req.title == 0
    || leb_ℤ req.amount (pos 0)
    || req.client_wallet_id == 0
    || req.freelancer_wallet_id == 0

-- the struct that the handler gives to the saga, whose other fields are empty
abbrev contract_of : CreateContractRequest → Contract
contract_of req = record {
  id = 0;
  client_id = req.client_id;
  freelancer_id = req.freelancer_id;
  title = req.title;
  description = req.description;
  amount = req.amount;
  currency = "";
  status = pending;
  client_wallet_id = req.client_wallet_id;
  freelancer_wallet_id = req.freelancer_wallet_id;
  hold_id = none;
  created_at = 0;
  updated_at = 0;
}

abbrev created_answer : Created → Answer
created_answer (created c) = record { status = 201; body = contract_json c }
created_answer (hold_failed c) = fail 422 payment_hold_failed
created_answer create_failed = fail 500 internal_server_error

-- the answer to a method that failed: the statuses differ in the last case
abbrev error_answer : Answer → SagaError → Answer
error_answer other status_conflict = fail 409 not_in_current_status
error_answer other _ = other

abbrev refetched : Result (Contract × Db) → Answer
refetched (ok (c, _)) = show c
refetched (err e) = fail 500 internal_server_error

-- the query of GetContract, and the first one of the handlers that follow
abbrev missing_answer : SagaError → Answer
missing_answer contract_not_found = fail 404 contract_missing
missing_answer _ = fail 500 internal_server_error

unfoldable pub get_contract : Reads → Uuid → Db → Answer
unfolding get_by_id
get_contract reads id db = elim (get_by_id reads.first_fails id db) [
  | ok (c, _) ↦ show c
  | err e ↦ missing_answer e
]

module _ {S : Type 0} where
  unfoldable pub create :
      Env → PaymentsService S → Option CreateContractRequest → S → Db → Answer × S × Db
  create env svc none s db = (fail 400 invalid_request_body, s, db)
  create env svc (some req) s db =
      if incomplete req
      then (fail 400 fields_required, s, db)
      else let (r, s', db') = create_contract env svc (contract_of req) req.milestones s db in
        (created_answer r, s', db')

  -- after a saga method
  abbrev pub answered : Reads → Uuid → Answer → Result (Unit {0}) × S × Db → Answer × S × Db
  answered reads id other (ok _, s, db) = (refetched (get_by_id reads.second_fails id db), s, db)
  answered reads id other (err e, s, db) = (error_answer other e, s, db)

  -- the saga method, if the first query found the contract
  abbrev pub looked_up :
      Reads
      → Uuid
      → Answer
      → (S → Db → Result (Unit {0}) × S × Db)
      → Result (Contract × Db)
      → S
      → Db
      → Answer × S × Db
  looked_up reads id other method (ok _) s db = answered reads id other (method s db)
  looked_up reads id other method (err e) s db = (missing_answer e, s, db)

  -- the course of AcceptContract, CompleteContract and CancelContract
  unfoldable pub change :
      Reads → Uuid → Answer → (S → Db → Result (Unit {0}) × S × Db) → S → Db → Answer × S × Db
  change reads id other method s db =
      looked_up reads id other method (get_by_id reads.first_fails id db) s db

  unfoldable pub accept : Env → Reads → Uuid → S → Db → Answer × S × Db
  accept env reads id =
      change reads id (fail 500 internal_server_error)
        (λ s db. let (r, db') = accept_contract env id db in (r, s, db'))

  unfoldable pub complete : Env → PaymentsService S → Reads → Uuid → S → Db → Answer × S × Db
  complete env svc reads id =
      change reads id (fail 502 payment_service_unavailable) (complete_contract env svc id)

  unfoldable pub cancel : Env → PaymentsService S → Reads → Uuid → S → Db → Answer × S × Db
  cancel env svc reads id =
      change reads id (fail 502 payment_service_unavailable) (cancel_contract env svc id)

-- what the consumer reads of a message: the subject, and the field `contract_id` of its data, which
-- is `none` if the data is not JSON and 0 if it has no such field
pub data Subject : Type 0 where
  held failed other : Subject

pub record Delivery : Type 0 where
  pub subject : Subject
  pub contract_id : Option Uuid

-- how the consumer disposes of a message: done with, to be delivered again, or given up
pub data Disposal : Type 0 where
  ack nak term : Disposal

abbrev disposal : Result (Unit {0}) × Db → Disposal × Db
disposal (ok _, db) = (ack, db)
disposal (err e, db) = (nak, db)

abbrev handled : Env → Subject → Uuid → Db → Result (Unit {0}) × Db
handled env held id db = handle_payment_held env id db
handled env failed id db = handle_payment_failed env id db
handled env other id db = (ok tt, db)

-- one round of the loop over the messages
unfoldable pub consume : Env → Delivery → Db → Disposal × Db
consume env msg db = elim msg.contract_id [
  | none ↦ (nak, db)
  | some id ↦ if id == 0 then (term, db) else disposal (handled env msg.subject id db)
]
