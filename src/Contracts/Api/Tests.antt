-- ===== src/Contracts/Api/Tests.antt =====
-- The theorems on the routes and the consumer of the contracts service at a small database.
use hire_flow.Prelude.{◌≡◌, ◌≢◌, refl, [], ◌∷◌, some, none, true, false, arith}
use hire_flow.Prelude.Table.{All-find}
use hire_flow.Payments.Types as Payments
use hire_flow.Payments.Invariant.{IsSound}
use hire_flow.Contracts.Types.{
  Contract, Db, hold_pending, active, completing, declining, completed, declined, other_error, err,
}
use hire_flow.Contracts.Saga.{
  handle_payment_held, accept_contract, complete_contract, cancel_contract, settle, enter, leave,
  move, emit,
}
use hire_flow.Contracts.Stores.{contract_key, get_by_id, update_status, insert_entry, run_tx}
use hire_flow.Contracts.Escrow.{held, paid, returned}
use hire_flow.Contracts.Consistency.{IsConsistent, Backed, needs_hold}
use hire_flow.Contracts.Client.{answered, unanswered, client}
use hire_flow.Contracts.Client.View.{view}
use hire_flow.Contracts.Client.Laws.{client-EscrowLaws}
use hire_flow.Contracts.Api.{
  Reads, Delivery, Disposal, nak, ack, accept, complete, cancel, change, consume,
}
use hire_flow.Contracts.Api as Api
use hire_flow.Contracts.Api.Changes.{Reports}
use hire_flow.Contracts.Api.Reports.{accept-Reports, complete-Reports, cancel-Reports}
use hire_flow.Contracts.Api.Events.{Done, consume-Done, consume_stale}
use hire_flow.Contracts.Retry.{complete_stuck}
use hire_flow.Contracts.Tests.{money, waiting, start, env, payments_env, money-IsSound}
use hire_flow.Contracts.Client
use hire_flow.Payments.Handlers
use hire_flow.Payments.Handlers.{release_tx, transfer_tx, move_funds}
use hire_flow.Payments.Stores
use hire_flow.Payments.Stores.{
  get_wallet_for_update, get_hold_for_update, update_balance, set_hold_status, create_transaction,
}
use hire_flow.Payments.Tx
use hire_flow.Prelude.Int.{◌-ℤ◌, sub_int64, add_int64}

abbrev working : Contract
working = record waiting { status = active }

-- the hold has been paid out, and the contract is still completing
abbrev paid_out : Payments.Hold
paid_out = record {
  id = 7;
  wallet_id = 1;
  amount = 30;
  status = Payments.transferred;
  contract_id = 50;
  created_at = 2;
  expires_at = none;
}

abbrev money_paid : Payments.Db
money_paid = record money { holds = paid_out ∷ [] }

abbrev half_done : Contract
half_done = record waiting { status = completing }

abbrev half_cancelled : Contract
half_cancelled = record waiting { status = declining }

abbrev reads : Reads
reads = record { first_fails = false; second_fails = false }

abbrev message : Delivery
message = record { subject = Api.held; contract_id = some 50 }

abbrev alone : Contract → Db
alone c = record start { contracts = c ∷ [] }

alone-IsConsistent : (c : Contract) → Backed view money c → IsConsistent view money (alone c)
alone-IsConsistent c b id x found need =
    All-find contract_key (λ (y : Contract). needs_hold y.status ≡ true → Backed view money y) id
      (c ∷ []) x ((λ n. b), tt) found need

waiting-IsConsistent : IsConsistent view money (alone waiting)
waiting-IsConsistent = alone-IsConsistent waiting (record {
  hold = 7;
  escrow = _;
  has = refl;
  seen = refl;
  match = record { contract = refl; wallet = refl; amount = refl };
  allowed = refl;
})

working-IsConsistent : IsConsistent view money (alone working)
working-IsConsistent = alone-IsConsistent working (record {
  hold = 7;
  escrow = _;
  has = refl;
  seen = refl;
  match = record { contract = refl; wallet = refl; amount = refl };
  allowed = refl;
})

abbrev hold_sent : Db
hold_sent = alone (record waiting { status = hold_pending })

abbrev waits : Db
waits = alone waiting

accept_run : (accept (env 0) reads 50 money waits).0.status ≡ 200
unfolding accept change accept_contract move get_by_id update_status emit insert_entry run_tx
accept_run = refl

consume_run : (consume (env 0) message hold_sent).0 ≡ ack
unfolding consume handle_payment_held update_status run_tx
consume_run = refl

accept-Reports_example : Reports view 50 active held (accept (env 0) reads 50 money waits)
accept-Reports_example =
    accept-Reports view (env 0) reads 50 money waits waiting-IsConsistent accept_run

consume_nak : (consume (env 0) message waits).0 ≢ ack
unfolding consume handle_payment_held update_status run_tx
consume_nak = ground arith

complete_run :
    (complete (env 0) (client answered (payments_env 0)) reads 50 money (alone working)).0.status
    ≡ 200
unfolding complete change complete_contract settle enter leave get_by_id update_status emit
    insert_entry run_tx client Client.transfer_funds Handlers.transfer_funds transfer_tx move_funds
    Handlers.emit Stores.insert_entry get_wallet_for_update get_hold_for_update update_balance
    set_hold_status create_transaction Tx.run_tx ◌-ℤ◌ sub_int64 add_int64
complete_run = refl

complete-Reports_example :
    Reports view 50 completed paid
      (complete (env 0) (client answered (payments_env 0)) reads 50 money (alone working))
complete-Reports_example =
    complete-Reports view (env 0) reads 50 money (alone working) IsSound
      (client answered (payments_env 0)) (client-EscrowLaws answered (payments_env 0)) money-IsSound
      working-IsConsistent complete_run

cancel_run : (cancel (env 0) (client answered (payments_env 0)) reads 50 money waits).0.status ≡ 200
unfolding cancel change cancel_contract settle enter leave get_by_id update_status emit insert_entry
    run_tx client Client.release_funds Handlers.release_funds release_tx Handlers.emit
    Stores.insert_entry get_hold_for_update set_hold_status create_transaction Tx.run_tx ◌-ℤ◌
cancel_run = refl

cancel-Reports_example :
    Reports view 50 declined returned
      (cancel (env 0) (client answered (payments_env 0)) reads 50 money waits)
cancel-Reports_example =
    cancel-Reports view (env 0) reads 50 money waits IsSound (client answered (payments_env 0))
      (client-EscrowLaws answered (payments_env 0)) money-IsSound waiting-IsConsistent cancel_run

consume-Done_example : Done Api.held 50 hold_sent (consume (env 0) message hold_sent).1
consume-Done_example = consume-Done (env 0) message 50 hold_sent refl consume_run

consume_stale_example : consume (env 0) message waits ≡ (nak, waits)
consume_stale_example =
    consume_stale (env 0) Api.held 50 waiting waits (ground arith) (ground arith) refl
      (ground arith)

complete_stuck_example :
    complete_contract (env 0) (client answered (payments_env 0)) 50 money_paid (alone half_done)
    ≡ (err other_error, money_paid, alone half_done)
complete_stuck_example =
    complete_stuck answered (payments_env 0) 7 paid_out money_paid refl (ground arith) (env 0) 50
      half_done (alone half_done) refl refl refl
