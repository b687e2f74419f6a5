-- ===== src/Contracts/Api/Events.antt =====
-- What the consumer makes of payment events.
use hire_flow.Prelude.{◌≡◌, ◌≢◌, refl, false, some, arith}
use hire_flow.Contracts.Types.{
  Uuid, hold_pending, awaiting_accept, cancelled, contract_cancelled, Contract, Db, Result, ok, err,
  Env, Site, Phase, unacknowledged,
}
use hire_flow.Contracts.Stores.{find_contract, run_tx, update_status}
use hire_flow.Contracts.Saga.{handle_payment_held, handle_payment_failed, move}
use hire_flow.Contracts.Refinement.Rows.{same_status_eq}
use hire_flow.Contracts.Refinement.Methods.{update-Outcome, move-Outcome}
use hire_flow.Contracts.Api.{
  Subject, held, failed, other, Delivery, ack, nak, disposal, handled, consume,
}
use hire_flow.Contracts.Api.Changes.{At, Outcome-At}

-- what an acknowledged event has done to the contract that it names
abbrev pub Done : Subject → Uuid → Db → Db → Type 0
Done held id before after = At id awaiting_accept after
Done failed id before after = At id cancelled after
Done other id before after = after ≡ before

handled-Done :
    (env : Env) (subject : Subject) (id : Uuid) (db : Db)
    → (handled env subject id db).0 ≡ ok tt
    → Done subject id db (handled env subject id db).1
unfolding handle_payment_held handle_payment_failed
handled-Done env held id db =
    Outcome-At id hold_pending awaiting_accept db
      (run_tx false (env.commit Phase.entering)
        (update_status (env.fails Phase.entering Site.update_status) id hold_pending awaiting_accept
          env.now)
        db)
      (update-Outcome env id hold_pending awaiting_accept db)
handled-Done env failed id db =
    Outcome-At id hold_pending cancelled db
      (run_tx (env.fails Phase.entering Site.begin) (env.commit Phase.entering)
        (move env id hold_pending cancelled contract_cancelled) db)
      (move-Outcome env id hold_pending cancelled contract_cancelled db)
handled-Done env other id db = λ e. refl

disposal_ack :
    (x : Result (Unit {0}) × Db) → (disposal x).0 ≡ ack → (x.0 ≡ ok tt) × ((disposal x).1 ≡ x.1)
disposal_ack (ok _, db) e = (refl, refl)
disposal_ack (err x, db) e = cc

-- A message that the consumer acknowledges has done its work: after payment.held the contract that
-- it names is in AWAITING_ACCEPT, after payment.failed it is CANCELLED, and any other event has
-- changed nothing.
pub consume-Done :
    (env : Env) (msg : Delivery) (id : Uuid) (db : Db)
    → msg.contract_id ≡ some id
    → (consume env msg db).0 ≡ ack
    → Done msg.subject id db (consume env msg db).1
unfolding consume
consume-Done env msg id db named acked =
    ground (arith, handled-Done env msg.subject id db, disposal_ack (handled env msg.subject id db))

-- A message that is not acknowledged has changed nothing, unless a commit went through and its
-- acknowledgement was lost.
pub consume_refused :
    (env : Env) (msg : Delivery) (db : Db)
    → (consume env msg db).0 ≢ ack
    → env.commit Phase.entering ≢ unacknowledged
    → (consume env msg db).1 ≡ db
unfolding consume handle_payment_held handle_payment_failed run_tx
consume_refused env msg db no_ack known = ground arith

-- A payment.held or payment.failed event for a contract that is in the table but not in
-- HOLD_PENDING, as when an event is delivered once more, is never acknowledged, whatever happens: it
-- changes nothing and is to be delivered again.
pub consume_stale :
    (env : Env) (subject : Subject) (id : Uuid) (c : Contract) (db : Db)
    → subject ≢ other
    → id ≢ 0
    → find_contract id db.contracts ≡ some c
    → c.status ≢ hold_pending
    → consume env (record { subject = subject; contract_id = some id }) db ≡ (nak, db)
unfolding consume handle_payment_held handle_payment_failed run_tx update_status move
consume_stale env held id c db known named found moved_on =
    ground (arith, same_status_eq c.status hold_pending)
consume_stale env failed id c db known named found moved_on =
    ground (arith, same_status_eq c.status hold_pending)
consume_stale env other id c db known named found moved_on = absurd (known refl)
