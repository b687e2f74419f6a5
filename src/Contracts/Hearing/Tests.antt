-- ===== src/Contracts/Hearing/Tests.antt =====
-- The way of payment.held at a small database: 40 of the client's wallet are held for a contract.
use hire_flow.Prelude.{◌≡◌, refl, [], ◌∷◌, false, arith}
use mathlib.Core.List.{Memᴰ}
use hire_flow.Prelude.Int.{◌-ℤ◌, pos}
use hire_flow.Prelude.Database.{durable}
use hire_flow.Outbox
use hire_flow.Outbox.{BatchEnv, acked}
use hire_flow.Outbox.Drain as Drain
use hire_flow.Payments.Types as Payments
use hire_flow.Payments.Handlers as Handlers
use hire_flow.Payments.Stores as Stores
use hire_flow.Payments.Tx as Tx
use hire_flow.Contracts.Types.{Contract, Db, hold_pending, awaiting_accept}
use hire_flow.Contracts.Api.{ack, consume}
use hire_flow.Contracts.Working.{Works}
use hire_flow.Contracts.Working.Course.{with_status}
use hire_flow.Contracts.Hearing.{delivery_of, money_after, hold_funds-Heard, some}
use hire_flow.Contracts.Tests.{waiting, start, money, env, payments_env}

abbrev batch_env : BatchEnv
batch_env = record {
  begin_fails = false;
  fetch_fails = false;
  mark_fails = false;
  sending = λ id. acked;
  commit = durable;
  now = 70;
}

batch_env-Works : Drain.Works batch_env
batch_env-Works = record {
  begins = refl;
  fetches = refl;
  marks = refl;
  sends = λ id. refl;
  commits = refl;
}

env-Works : Works (env 1)
env-Works = record { calls = λ p s. refl; commits = λ p. refl }

abbrev held_contract : Contract
held_contract = record waiting { status = hold_pending }

abbrev contracts : Db
contracts = record start { contracts = held_contract ∷ [] }

abbrev req : Payments.HoldRequest
req = record { wallet_id = 1; amount = pos 40; contract_id = 50 }

hold_run : (Handlers.hold_funds (payments_env 0) (some req) money).0.status ≡ 201
unfolding Handlers.hold_funds Handlers.hold_tx Handlers.place_hold Handlers.emit Stores.insert_entry
    Stores.get_wallet_for_update Stores.create_hold_row Stores.create_transaction
    Stores.sum_active_by_wallet Tx.run_tx ◌-ℤ◌
hold_run = refl

backlog : Drain.unpublished (money_after (payments_env 0) req money).outbox ≡ 1
unfolding Handlers.hold_funds Handlers.hold_tx Handlers.place_hold Handlers.emit Stores.insert_entry
    Stores.get_wallet_for_update Stores.create_hold_row Stores.create_transaction
    Stores.sum_active_by_wallet Tx.run_tx ◌-ℤ◌
backlog = refl

hold_funds-Heard_example :
    (e : Payments.Entry) × ((money_after (payments_env 0) req money).outbox ≡ e ∷ [])
    × Memᴰ e (Outbox.run (batch_env ∷ []) (money_after (payments_env 0) req money).outbox).1
    × (consume (env 1) (delivery_of e) contracts
        ≡ (ack, with_status (env 1) 50 awaiting_accept contracts))
hold_funds-Heard_example =
    hold_funds-Heard (payments_env 0) (env 1) env-Works req money (batch_env ∷ []) held_contract
      contracts hold_run (batch_env-Works, tt) (ground (arith, backlog)) refl refl refl
