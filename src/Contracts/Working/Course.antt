-- ===== src/Contracts/Working/Course.antt =====
-- A contract on its way from HOLD_PENDING to COMPLETED, through the consumer of payment events and
-- the two saga methods after it, when nothing fails.
use hire_flow.Prelude.{ℕ, ◌≡◌, ◌≢◌, refl, ap, ◌∙◌, true, none, some, ◌∷◌, arith}
use hire_flow.Prelude.Table.{find, find-update, update}
use hire_flow.Contracts.Types.{
  Uuid, Status, hold_pending, awaiting_accept, active, completing, completed, contract_accepted,
  contract_completed, Contract, Db, ok, Site, Phase, Env, PaymentsService,
}
use hire_flow.Contracts.Stores.{
  contract_key, entry_key, find_contract, set_status, update_status, insert_entry, run_tx,
  get_by_id,
}
use hire_flow.Contracts.Saga.{
  emit, move, event_row, handle_payment_held, accept_contract, complete_contract,
}
use hire_flow.Contracts.Api.{Subject, Delivery, ack, consume}
use hire_flow.Contracts.Working.{Works, complete_contract-Works}

abbrev pub sent_held : Uuid → Delivery
sent_held id = record { subject = Subject.held; contract_id = some id }

-- the rows after the status of one contract was set
abbrev pub with_status : Env → Uuid → Status → Db → Db
with_status env id to db = record db {
  contracts = update contract_key id (set_status to env.now) db.contracts;
}

-- the database after contract `c` was accepted
abbrev accepted : Env → Contract → Db → Db
accepted env c db = record (with_status env c.id active db) {
  outbox = event_row env c.id contract_accepted (set_status active env.now c) ∷ db.outbox;
}

module _ (env : Env) (works : Works env) (c : Contract) (db : Db)
    (found : find_contract c.id db.contracts ≡ some c) where
  pub consume-Works :
      c.id ≢ 0
      → c.status ≡ hold_pending
      → consume env (sent_held c.id) db ≡ (ack, with_status env c.id awaiting_accept db)
  unfolding consume handle_payment_held update_status run_tx
  consume-Works real at =
      ground (arith, works.calls Phase.entering Site.update_status, works.commits Phase.entering)

  accept_contract-Works :
      c.status ≡ awaiting_accept
      → find entry_key env.new_entry db.outbox ≡ none
      → accept_contract env c.id db ≡ (ok tt, accepted env c db)
  unfolding accept_contract move emit get_by_id update_status insert_entry run_tx
  accept_contract-Works at fresh = ground (
    arith,
    works.calls Phase.entering Site.begin,
    works.calls Phase.entering Site.get_contract,
    works.calls Phase.entering Site.update_status,
    works.calls Phase.entering Site.marshal,
    works.calls Phase.entering Site.insert_outbox,
    works.commits Phase.entering,
    find-update contract_key (set_status active env.now) (λ x. refl) c.id c.id db.contracts,
  )

find_updated :
    (to : Status) (now : ℕ) (c : Contract) (db : Db)
    → find_contract c.id db.contracts ≡ some c
    → find_contract c.id (update contract_key c.id (set_status to now) db.contracts)
      ≡ some (set_status to now c)
find_updated to now c db found =
    ground (arith, find-update contract_key (set_status to now) (λ x. refl) c.id c.id db.contracts)

module _ {S : Type 0} (hearing agreeing closing : Env) (hears : Works hearing)
    (agrees : Works agreeing) (closes : Works closing) (c : Contract) (h : Uuid) (s s' : S)
    (db : Db) where
  -- the contract and the database before it is accepted, and before it is completed
  abbrev awaited : Contract
  awaited = set_status awaiting_accept hearing.now c

  abbrev heard : Db
  heard = with_status hearing c.id awaiting_accept db

  abbrev signed : Contract
  signed = set_status active agreeing.now awaited

  abbrev at_work : Db
  at_work = accepted agreeing awaited heard

  -- If nothing fails, a contract with a hold in HOLD_PENDING completes its course: payment.held is
  -- acknowledged, AcceptContract and CompleteContract succeed, the hold is paid to the freelancer by
  -- one transfer, and in the end the contract differs from what it was only by the status COMPLETED
  -- and its time, with one event for each of the two methods in the outbox.
  pub contract_completes :
      (svc : PaymentsService S)
      → c.id ≢ 0
      → find_contract c.id db.contracts ≡ some c
      → c.status ≡ hold_pending
      → c.hold_id ≡ some h
      → find entry_key agreeing.new_entry db.outbox ≡ none
      → find entry_key closing.new_entry db.outbox ≡ none
      → agreeing.new_entry ≢ closing.new_entry
      → svc.transfer_funds h c.freelancer_wallet_id s ≡ (true, s')
      → let (disposed, db1) = consume hearing (sent_held c.id) db in
        let (agreed, db2) = accept_contract agreeing c.id db1 in
        let (closed, t, db3) = complete_contract closing svc c.id s db2 in
        (disposed ≡ ack)
        × (agreed ≡ ok tt)
        × (closed ≡ ok tt)
        × (t ≡ s')
        × (find_contract c.id db3.contracts ≡ some (set_status completed closing.now c))
        × (db3.outbox
            ≡ event_row closing c.id contract_completed
                (record c { status = completed; updated_at = agreeing.now })
              ∷ event_row agreeing c.id contract_accepted
                  (record c { status = active; updated_at = agreeing.now })
              ∷ db.outbox)
  contract_completes svc real found at has new_agreed new_closed apart paid =
      let first = consume-Works hearing hears c db found real at in
      let found1 = find_updated awaiting_accept hearing.now c db found in
      let second = accept_contract-Works agreeing agrees awaited heard found1 refl new_agreed in
      let found2 = find_updated active agreeing.now awaited heard found1 in
      let third =
        complete_contract-Works closing closes signed h s s' at_work (ground arith) found2 has svc
          refl paid in
      let found3 = find_updated completing closing.now signed at_work found2 in
      let found4 =
        find_updated completed closing.now (set_status completing closing.now signed)
          (with_status closing c.id completing at_work) found3 in
      let accepts = ap (λ x. accept_contract agreeing c.id x.1) first ∙ second in
      let completes = ap (λ x. complete_contract closing svc c.id s x.1) accepts ∙ third in
      (
        ap (λ x. x.0) first,
        ap (λ x. x.0) accepts,
        ap (λ x. x.0) completes,
        ap (λ x. x.1) completes,
        ap (λ x. find_contract c.id x.2.contracts) completes ∙ found4,
        ap (λ x. x.2.outbox) completes,
      )
