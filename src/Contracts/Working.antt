-- ===== src/Contracts/Working.antt =====
-- What the saga achieves when nothing fails.
pub mod Course
mod Tests
use hire_flow.Prelude.{ℕ, ◌≡◌, refl, Bool, true, false, Option, none, some, List, ◌∷◌, arith}
use hire_flow.Prelude.Table.{find, find-update, update}
use hire_flow.Contracts.Types.{
  Uuid, Status, same_status, awaiting_accept, active, completing, completed, contract_completed,
  contract_declined, declining, declined, Contract, Db, Result, ok, err, Site, Phase, Env, durable,
  PaymentsService,
}
use hire_flow.Contracts.Stores.{
  contract_key, entry_key, find_contract, set_status, update_status, insert_entry, run_tx,
  get_by_id,
}
use hire_flow.Contracts.Saga.{
  Route, completion, cancellation, settle, enter, leave, emit, event_row, complete_contract,
  cancel_contract, fetched, entered, with_hold, settled,
}

-- every statement and every commit works
pub record Works (env : Env) : Type 0 where
  pub calls : (p : Phase) (s : Site) → env.fails p s ≡ false
  pub commits : (p : Phase) → env.commit p ≡ durable

-- the database after contract `c` went through two statuses and its event was written
abbrev pub finished : Env → Route → Contract → Db → Db
finished env route c db = record db {
  contracts =
      update contract_key c.id (set_status route.goal env.now)
        (update contract_key c.id (set_status route.through env.now) db.contracts);
  outbox = event_row env c.id route.event (record c { status = route.goal }) ∷ db.outbox;
}

module _ {S : Type 0} (env : Env) (works : Works env) (c : Contract) (h : Uuid) (s s' : S) (db : Db)
    (fresh : find entry_key env.new_entry db.outbox ≡ none)
    (found : find_contract c.id db.contracts ≡ some c) (has : c.hold_id ≡ some h) where
  -- If nothing fails, CompleteContract of an ACTIVE contract with a hold succeeds: one transfer to
  -- the freelancer, and the contract is COMPLETED with its event in the outbox.
  pub complete_contract-Works :
      (svc : PaymentsService S)
      → c.status ≡ active
      → svc.transfer_funds h c.freelancer_wallet_id s ≡ (true, s')
      → complete_contract env svc c.id s db ≡ (ok tt, s', finished env completion c db)
  unfolding complete_contract settle enter leave emit get_by_id update_status insert_entry run_tx
  complete_contract-Works svc at paid = ground (
    arith,
    works.calls Phase.entering Site.get_contract,
    works.calls Phase.entering Site.update_status,
    works.calls Phase.leaving Site.begin,
    works.calls Phase.leaving Site.update_status,
    works.calls Phase.leaving Site.marshal,
    works.calls Phase.leaving Site.insert_outbox,
    works.commits Phase.entering,
    works.commits Phase.leaving,
    find-update contract_key (set_status completing env.now) (λ x. refl) c.id c.id db.contracts,
  )

  -- If nothing fails, CancelContract of a contract in AWAITING_ACCEPT with a hold succeeds: one
  -- release, and the contract is DECLINED with its event in the outbox.
  pub cancel_contract-Works :
      (svc : PaymentsService S)
      → c.status ≡ awaiting_accept
      → svc.release_funds h s ≡ (true, s')
      → cancel_contract env svc c.id s db ≡ (ok tt, s', finished env cancellation c db)
  unfolding cancel_contract settle enter leave emit get_by_id update_status insert_entry run_tx
  cancel_contract-Works svc at back = ground (
    arith,
    works.calls Phase.entering Site.get_contract,
    works.calls Phase.entering Site.update_status,
    works.calls Phase.leaving Site.begin,
    works.calls Phase.leaving Site.update_status,
    works.calls Phase.leaving Site.marshal,
    works.calls Phase.leaving Site.insert_outbox,
    works.commits Phase.entering,
    works.commits Phase.leaving,
    find-update contract_key (set_status declining env.now) (λ x. refl) c.id c.id db.contracts,
  )
