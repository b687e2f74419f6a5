-- ===== src/Contracts/Working/Tests.antt =====
-- The course of a contract without failures, over the real payments service.
use hire_flow.Prelude.{ℕ, ◌≡◌, refl, [], ◌∷◌, some, true, arith}
use hire_flow.Prelude.Int.{◌-ℤ◌, sub_int64, add_int64}
use hire_flow.Payments.Types as Payments
use hire_flow.Payments.Handlers
use hire_flow.Payments.Handlers.{transfer_tx, move_funds}
use hire_flow.Payments.Stores
use hire_flow.Payments.Stores.{
  get_wallet_for_update, get_hold_for_update, update_balance, set_hold_status, create_transaction,
}
use hire_flow.Payments.Tx
use hire_flow.Contracts.Types.{
  Contract, Db, ok, hold_pending, active, completed, contract_accepted, contract_completed,
}
use hire_flow.Contracts.Stores.{find_contract, set_status}
use hire_flow.Contracts.Saga.{event_row, accept_contract, complete_contract}
use hire_flow.Contracts.Client
use hire_flow.Contracts.Client.{answered, client}
use hire_flow.Contracts.Api.{ack, consume}
use hire_flow.Contracts.Working.{Works}
use hire_flow.Contracts.Working.Course.{sent_held, contract_completes}
use hire_flow.Contracts.Tests.{waiting, start, money, env, payments_env}

abbrev held_contract : Contract
held_contract = record waiting { status = hold_pending }

abbrev contracts : Db
contracts = record start { contracts = held_contract ∷ [] }

env-Works : (n : ℕ) → Works (env n)
env-Works n = record { calls = λ p s. refl; commits = λ p. refl }

-- the money after the transfer
abbrev money_moved : Payments.Db
money_moved = (Client.transfer_funds answered (payments_env 0) 7 2 money).1

paid_run : Client.transfer_funds answered (payments_env 0) 7 2 money ≡ (true, money_moved)
unfolding Client.transfer_funds Handlers.transfer_funds transfer_tx move_funds Handlers.emit
    Stores.insert_entry get_wallet_for_update get_hold_for_update update_balance set_hold_status
    create_transaction Tx.run_tx ◌-ℤ◌ sub_int64 add_int64
paid_run = refl

contract_completes_example :
    let (disposed, db1) = consume (env 1) (sent_held 50) contracts in
    let (agreed, db2) = accept_contract (env 2) 50 db1 in
    let (closed, t, db3) =
      complete_contract (env 3) (client answered (payments_env 0)) 50 money db2 in
    (disposed ≡ ack)
    × (agreed ≡ ok tt)
    × (closed ≡ ok tt)
    × (t ≡ money_moved)
    × (find_contract 50 db3.contracts ≡ some (set_status completed 12 held_contract))
    × (db3.outbox
        ≡ event_row
            (env 3)
            50
            contract_completed
            (record held_contract { status = completed; updated_at = 11 })
          ∷ event_row
              (env 2)
              50
              contract_accepted
              (record held_contract { status = active; updated_at = 11 })
          ∷ [])
unfolding client
contract_completes_example =
    contract_completes (env 1) (env 2) (env 3) (env-Works 1) (env-Works 2) (env-Works 3)
      held_contract 7 money money_moved contracts (client answered (payments_env 0)) (ground arith)
      refl refl refl refl refl (ground arith) paid_run
