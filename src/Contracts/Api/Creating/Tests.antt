-- ===== src/Contracts/Api/Creating/Tests.antt =====
-- A contract is created over the real payments service.
use hire_flow.Prelude.{◌≡◌, refl, [], ◌∷◌, some}
use hire_flow.Prelude.Int.{pos, ◌-ℤ◌}
use hire_flow.Payments.Invariant.{IsSound}
use hire_flow.Payments.Handlers
use hire_flow.Payments.Handlers.{hold_tx, place_hold}
use hire_flow.Payments.Stores
use hire_flow.Payments.Stores.{
  get_wallet_for_update, create_hold_row, create_transaction, sum_active_by_wallet,
}
use hire_flow.Payments.Tx
use hire_flow.Contracts.Types.{Db}
use hire_flow.Contracts.Stores.{
  create_contract_row, create_batch, create_milestone_row, update_status, set_hold_id, insert_entry,
  run_tx,
}
use hire_flow.Contracts.Saga.{create_contract, insert_new, confirm, emit}
use hire_flow.Contracts.Consistency.{IsConsistent}
use hire_flow.Contracts.Client
use hire_flow.Contracts.Client.{answered, client}
use hire_flow.Contracts.Client.View.{view}
use hire_flow.Contracts.Client.Laws.{client-EscrowLaws}
use hire_flow.Contracts.Api.{CreateContractRequest, create}
use hire_flow.Contracts.Api.Creating.{IsFunded, create-IsFunded}
use hire_flow.Contracts.Tests.{money, env, payments_env, money-IsSound}

abbrev empty : Db
empty = record { contracts = []; milestones = []; outbox = [] }

empty-IsConsistent : IsConsistent view money empty
empty-IsConsistent id c found need = cc

abbrev request : CreateContractRequest
request = record {
  client_id = 11;
  freelancer_id = 12;
  title = "site";
  description = "";
  amount = pos 40;
  client_wallet_id = 1;
  freelancer_wallet_id = 2;
  milestones = record { title = "all"; description = ""; amount = pos 40; position = pos 0 } ∷ [];
}

create_run :
    (create (env 0) (client answered (payments_env 0)) (some request) money empty).0.status ≡ 201
unfolding create create_contract insert_new confirm emit create_contract_row create_batch
    create_milestone_row update_status set_hold_id insert_entry run_tx client Client.hold_funds
    Handlers.hold_funds hold_tx place_hold get_wallet_for_update create_hold_row create_transaction
    sum_active_by_wallet Handlers.emit Stores.insert_entry Tx.run_tx ◌-ℤ◌
create_run = refl

create-IsFunded_example :
    let (a, money', db') =
      create (env 0) (client answered (payments_env 0)) (some request) money empty in
    IsFunded view 60 money' db'
create-IsFunded_example =
    create-IsFunded view IsSound (env 0) (client answered (payments_env 0))
      (client-EscrowLaws answered (payments_env 0)) request money empty money-IsSound
      empty-IsConsistent create_run
