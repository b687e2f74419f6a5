-- ===== src/Contracts/Retry.antt =====
-- The retries of `CompleteContract` and `CancelContract`, over the real payments service.
use hire_flow.Prelude.{◌≡◌, ◌≢◌, false, some, arith}
use hire_flow.Payments.Types as Payments
use hire_flow.Payments.Stores.{find_hold}
use hire_flow.Payments.Handlers.{release_tx, transfer_tx}
use hire_flow.Payments.Handlers
use hire_flow.Payments.Tx as Tx
use hire_flow.Contracts.Types.{Uuid, completing, declining, other_error, Contract, Db, err, Env}
use hire_flow.Contracts.Stores.{find_contract, get_by_id}
use hire_flow.Contracts.Saga.{settle, complete_contract, cancel_contract}
use hire_flow.Contracts.Client.{Network, client, release_funds, transfer_funds}

module _ (net : Network) (env : Payments.Env) (h : Uuid) (x : Payments.Hold) (money : Payments.Db)
    (found : find_hold h money.holds ≡ some x) (ended : x.status ≢ Payments.active) where
  transfer_refused : (recipient : Uuid) → transfer_funds net env h recipient money ≡ (false, money)
  unfolding transfer_funds Handlers.transfer_funds transfer_tx Tx.run_tx
  transfer_refused recipient = ground arith

  release_refused : release_funds net env h money ≡ (false, money)
  unfolding release_funds Handlers.release_funds release_tx Tx.run_tx
  release_refused = ground arith

  module _ (contracts_env : Env) (id : Uuid) (c : Contract) (db : Db)
      (here : find_contract id db.contracts ≡ some c) (has : c.hold_id ≡ some h) where
    -- A contract in COMPLETING whose hold has been paid out, as after a transfer whose answer was
    -- lost, stays there: whatever happens in a retry, it fails and changes neither database.
    pub complete_stuck :
        c.status ≡ completing
        → complete_contract contracts_env (client net env) id money db
          ≡ (err other_error, money, db)
    unfolding complete_contract settle get_by_id client
    complete_stuck at = ground (arith, transfer_refused c.freelancer_wallet_id)

    -- A contract in DECLINING whose hold has been released, as after a release whose answer was
    -- lost, stays there: whatever happens in a retry, it fails and changes neither database.
    pub cancel_stuck :
        c.status ≡ declining
        → cancel_contract contracts_env (client net env) id money db ≡ (err other_error, money, db)
    unfolding cancel_contract settle get_by_id client
    cancel_stuck at = ground (arith, release_refused)
