-- ===== src/Contracts/Hearing.antt =====
-- The event payment.held on its way from HoldFunds of the payments service, through its outbox and
-- the broker, to runPaymentsConsumer of the contracts service (main.go).
mod Tests
use hire_flow.Prelude.{
  ◌≡◌, ◌≢◌, ◌≤◌, ◌*◌, refl, sym, ap, ◌∙◌, inl, inr, true, false, some, List, ◌∷◌, arith, Bool-cases,
}
use mathlib.Core.Path.{subst}
use mathlib.Core.List.{Memᴰ}
use hire_flow.Prelude.Int.{ℤ, pos, leb_ℤ}
use hire_flow.Prelude.Table.{contains, length, All}
use hire_flow.Outbox
use hire_flow.Outbox.{BatchEnv, batch}
use hire_flow.Outbox.Delivery.{ids}
use hire_flow.Outbox.Drain as Drain
use hire_flow.Outbox.Drain.{unpublished}
use hire_flow.Outbox.Arrival.{newest_delivered}
use hire_flow.Payments.Types as Payments
use hire_flow.Payments.Types.{
  EventType, payment_held, payment_failed, Payload, hold_payload, failed_payload, transfer_payload,
}
use hire_flow.Payments.Handlers as Handlers
use hire_flow.Payments.Handlers.{event_row}
use hire_flow.Payments.Stores.{new_hold_row}
use hire_flow.Payments.Refinement.Hold.{positive_int}
use hire_flow.Payments.Refinement.Holds.{hold_funds_emitted}
use hire_flow.Contracts.Types.{Uuid, hold_pending, awaiting_accept, Contract, Db, Env}
use hire_flow.Contracts.Stores.{find_contract}
use hire_flow.Contracts.Api.{Subject, held, failed, other, Delivery, ack, consume}
use hire_flow.Contracts.Working.{Works}
use hire_flow.Contracts.Working.Course.{sent_held, with_status, consume-Works}

-- the subject of an event, as the consumer tells them apart
abbrev subject_of : EventType → Subject
subject_of payment_held = held
subject_of payment_failed = failed
subject_of _ = other

-- the field `contract_id` of the data
abbrev contract_named : Payload → Uuid
contract_named (hold_payload h) = h.contract_id
contract_named (failed_payload wallet amount contract) = contract
contract_named (transfer_payload hold source recipient amount contract) = contract

-- the message that a row of the outbox becomes
unfoldable pub delivery_of : Payments.Entry → Delivery
delivery_of e = record {
  subject = subject_of e.event_type;
  contract_id = some (contract_named e.payload);
}

-- the database of the payments service after `HoldFunds`, and what its publisher then sends
abbrev pub money_after : Payments.Env → Payments.HoldRequest → Payments.Db → Payments.Db
money_after env req money = (Handlers.hold_funds env (some req) money).1

module _ (payments_env : Payments.Env) (env : Env) (works : Works env) (req : Payments.HoldRequest)
    (money : Payments.Db) (envs : List BatchEnv) (c : Contract) (db : Db) where
  -- If HoldFunds is answered with 201 for a contract in HOLD_PENDING, then its event payment.held is
  -- the newest row of the outbox; the broker receives that row as it is within as many working
  -- batches as the backlog has hundreds, rounded up; and the consumer, given what the broker received
  -- and if nothing fails in it, acknowledges the message and brings the contract to AWAITING_ACCEPT.
  pub hold_funds-Heard :
      (Handlers.hold_funds payments_env (some req) money).0.status ≡ 201
      → All Drain.Works envs
      → unpublished (money_after payments_env req money).outbox ≤ batch * length envs
      → req.contract_id ≡ c.id
      → find_contract c.id db.contracts ≡ some c
      → c.status ≡ hold_pending
      → (e : Payments.Entry) × ((money_after payments_env req money).outbox ≡ e ∷ money.outbox)
        × Memᴰ e (Outbox.run envs (money_after payments_env req money).outbox).1
        × (consume env (delivery_of e) db ≡ (ack, with_status env c.id awaiting_accept db))
  unfolding delivery_of
  hold_funds-Heard created working room names found at =
      elim (Bool-cases (leb_ℤ req.amount (pos 0))) [
        | inl bad ↦ absurd (unfold Handlers.hold_funds in ground arith)
        | inr good ↦
            let (n, en) = positive_int req.amount good in
            let (real, fresh, row) = hold_funds_emitted payments_env req money n en created in
            let e = event_row payments_env payments_env.new_hold payment_held (
              hold_payload (
                new_hold_row payments_env.new_hold payments_env.now req.wallet_id n
                  req.contract_id)) in
            (
              e,
              row,
              subst (λ l. Memᴰ e (Outbox.run envs l).1) (sym row)
                  (newest_delivered envs e money.outbox fresh refl working
                    (subst (λ l. unpublished l ≤ batch * length envs) row room)),
              ap (λ k. consume env (sent_held k) db) names
                  ∙ consume-Works env works c db found (λ z. real (names ∙ z)) at,
            )
      ]
