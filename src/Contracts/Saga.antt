-- ===== src/Contracts/Saga.antt =====
-- The saga orchestrator (saga.go). A method works on what the payments service keeps, `S`, and on
-- the contracts database; calls of the payments service are made between transactions.
use hire_flow.Prelude.{ℕ, suc, Bool, true, false, Option, none, some, List, [], ◌∷◌, if◌then◌else◌}
use hire_flow.Contracts.Types.{
  Uuid, Status, pending, hold_pending, awaiting_accept, active, completing, completed, declining,
  declined, cancelled, same_status, Contract, Milestone, MilestoneSpec, EventType, contract_created,
  contract_accepted, contract_completed, contract_cancelled, contract_declined, Entry, Db,
  status_conflict, other_error, Result, ok, err, Site, Phase, Env, HoldRequest, PaymentsService,
}
use hire_flow.Contracts.Stores.{
  Sql, ◌>>=◌, ◌>>◌, create_contract_row, get_by_id, update_status, set_hold_id, create_batch,
  insert_entry, run_tx,
}

abbrev pub event_row : Env → Uuid → EventType → Contract → Entry
event_row env id event c = record {
  id = env.new_entry;
  aggregate_id = id;
  event_type = event;
  payload = c;
  created_at = env.now;
  published_at = none;
}

-- `json.Marshal` of a contract and `outbox.Insert`
unfoldable pub emit : Env → Phase → Uuid → EventType → Contract → Sql (Unit {0})
unfolding insert_entry
emit env p id event c db =
    if env.fails p Site.marshal
    then err other_error
    else insert_entry (env.fails p Site.insert_outbox) (event_row env id event c) db

-- the contract as `CreateContract` completes it; the times of a struct that was not read are zero
abbrev pub prepared : Env → Contract → Contract
prepared env c = record c {
  id = env.new_contract;
  status = pending;
  currency = "USD";
  hold_id = none;
  created_at = 0;
  updated_at = 0;
}

-- the loop that completes the milestones; `i` counts the rounds
abbrev pub milestone_rows : Env → ℕ → List MilestoneSpec → List Milestone
milestone_rows env i [] = []
milestone_rows env i (m ∷ ms) =
    record {
      id = env.new_milestone i;
      contract_id = env.new_contract;
      title = m.title;
      description = m.description;
      amount = m.amount;
      position = m.position;
    }
    ∷ milestone_rows env (suc i) ms

-- the first transaction of `CreateContract`
unfoldable pub insert_new : Env → Contract → List MilestoneSpec → Sql (Unit {0})
unfolding create_contract_row create_batch
insert_new env c ms = do
  create_contract_row (env.fails Phase.creating Site.create_contract) env.now (prepared env c)
  create_batch (env.fails Phase.creating Site.create_milestone) (milestone_rows env 0 ms)

-- the rows after a statement whose error is logged and passed over
abbrev pub keep : Db → Result (Unit {0} × Db) → Db
keep before (ok (_, after)) = after
keep before (err _) = before

unfoldable pub compensate_rows : Env → Contract → Db → Db
unfolding emit
compensate_rows env c db =
    let updated = keep db (
      update_status (env.fails Phase.compensating Site.update_status) c.id pending cancelled env.now
        db) in
    keep updated (emit env Phase.compensating c.id contract_cancelled c updated)

-- the transaction after a hold that failed
unfoldable pub compensate : Env → Contract → Db → Db
compensate env c db =
    (run_tx (env.fails Phase.compensating Site.begin) (env.commit Phase.compensating)
      (λ before. ok (tt, compensate_rows env c before)) db).1

-- the transaction after a hold that was placed
unfoldable pub confirm : Env → Contract → Uuid → Sql (Unit {0})
unfolding set_hold_id emit
confirm env c hold_id = do
  update_status (env.fails Phase.confirming Site.update_status) c.id pending hold_pending env.now
  set_hold_id (env.fails Phase.confirming Site.set_hold_id) c.id hold_id env.now
  emit env Phase.confirming c.id contract_created c

-- how `CreateContract` returns: the contract, the contract as cancelled beside an error, or no
-- contract beside an error
pub data Created : Type 0 where
  created : Contract → Created
  hold_failed : Contract → Created
  create_failed : Created

abbrev pub hold_request : Contract → HoldRequest
hold_request c = record { wallet_id = c.client_wallet_id; amount = c.amount; contract_id = c.id }

module _ {S : Type 0} where
  abbrev pub confirmed : Contract → Uuid → Result (Unit {0}) × Db → S → Created × S × Db
  confirmed c hold_id (ok _, db) s =
      (created (record c { status = hold_pending; hold_id = some hold_id }), s, db)
  confirmed c hold_id (err _, db) s = (create_failed, s, db)

  abbrev pub after_hold : Env → Contract → Option Uuid × S → Db → Created × S × Db
  after_hold env c (none, s) db =
      (hold_failed (record c { status = cancelled }), s, compensate env c db)
  after_hold env c (some hold_id, s) db =
      confirmed c hold_id
        (run_tx (env.fails Phase.confirming Site.begin) (env.commit Phase.confirming)
          (confirm env c hold_id) db)
        s

  abbrev pub after_insert :
      Env → PaymentsService S → Contract → Result (Unit {0}) × Db → S → Created × S × Db
  after_insert env svc c (err _, db) s = (create_failed, s, db)
  after_insert env svc c (ok _, db) s = after_hold env c (svc.hold_funds (hold_request c) s) db

  unfoldable pub create_contract :
      Env → PaymentsService S → Contract → List MilestoneSpec → S → Db → Created × S × Db
  create_contract env svc c ms s db =
      after_insert env svc (prepared env c)
        (run_tx (env.fails Phase.creating Site.begin) (env.commit Phase.creating)
          (insert_new env c ms) db)
        s

-- The body that `HandlePaymentFailed` and `AcceptContract` share but for the two statuses and the
-- event: the status, the contract as it then is, and the event that carries it.
unfoldable pub move : Env → Uuid → Status → Status → EventType → Sql (Unit {0})
unfolding get_by_id emit
move env id from to event = do
  update_status (env.fails Phase.entering Site.update_status) id from to env.now
  c ← get_by_id (env.fails Phase.entering Site.get_contract) id
  emit env Phase.entering id event c

unfoldable pub handle_payment_held : Env → Uuid → Db → Result (Unit {0}) × Db
handle_payment_held env id db =
    run_tx false (env.commit Phase.entering)
      (update_status (env.fails Phase.entering Site.update_status) id hold_pending awaiting_accept
        env.now)
      db

unfoldable pub handle_payment_failed : Env → Uuid → Db → Result (Unit {0}) × Db
handle_payment_failed env id db =
    run_tx (env.fails Phase.entering Site.begin) (env.commit Phase.entering)
      (move env id hold_pending cancelled contract_cancelled) db

unfoldable pub accept_contract : Env → Uuid → Db → Result (Unit {0}) × Db
accept_contract env id db =
    run_tx (env.fails Phase.entering Site.begin) (env.commit Phase.entering)
      (move env id awaiting_accept active contract_accepted) db

-- the last transaction of `CompleteContract` and `CancelContract`
unfoldable pub leave : Env → Contract → Status → Status → EventType → Sql (Unit {0})
unfolding emit
leave env c from to event = do
  update_status (env.fails Phase.leaving Site.update_status) c.id from to env.now
  emit env Phase.leaving c.id event (record c { status = to })

-- What differs between `CompleteContract` and `CancelContract`: the status that the method starts
-- from, the one in which it calls the payments service, the last one, and its event.
pub record Route : Type 0 where
  pub start : Status
  pub through : Status
  pub goal : Status
  pub event : EventType

module _ {S : Type 0} (env : Env) (route : Route) (call : Uuid → Contract → S → Bool × S) where
  abbrev pub settled : Contract → Bool × S → Db → Result (Unit {0}) × S × Db
  settled c (false, s) db = (err other_error, s, db)
  settled c (true, s) db =
      let (r, db') =
        run_tx (env.fails Phase.leaving Site.begin) (env.commit Phase.leaving)
          (leave env c route.through route.goal route.event) db in
      (r, s, db')

  abbrev pub with_hold : Contract → Option Uuid → S → Db → Result (Unit {0}) × S × Db
  with_hold c none s db = (err other_error, s, db)
  with_hold c (some hold_id) s db = settled c (call hold_id c s) db

  -- after the first update, if there was one
  abbrev pub entered : Contract → Result (Unit {0}) × Db → S → Result (Unit {0}) × S × Db
  entered c (err e, db) s = (err e, s, db)
  entered c (ok _, db) s =
      if same_status c.status route.through
      then with_hold c c.hold_id s db
      else (err status_conflict, s, db)

  -- the first update, which commits by itself
  unfoldable pub enter : Contract → Db → Result (Unit {0}) × Db
  enter c db =
      run_tx false (env.commit Phase.entering)
        (update_status (env.fails Phase.entering Site.update_status) c.id route.start route.through
          env.now)
        db

  abbrev pub fetched : Result (Contract × Db) → S → Db → Result (Unit {0}) × S × Db
  fetched (err e) s db = (err e, s, db)
  fetched (ok (c, _)) s db =
      if same_status c.status route.start
      then entered (record c { status = route.through }) (enter c db) s
      else entered c (ok tt, db) s

  -- the course of `CompleteContract` and `CancelContract`
  unfoldable pub settle : Uuid → S → Db → Result (Unit {0}) × S × Db
  settle id s db = fetched (get_by_id (env.fails Phase.entering Site.get_contract) id db) s db

abbrev pub completion : Route
completion = record {
  start = active;
  through = completing;
  goal = completed;
  event = contract_completed;
}

abbrev pub cancellation : Route
cancellation = record {
  start = awaiting_accept;
  through = declining;
  goal = declined;
  event = contract_declined;
}

module _ {S : Type 0} where
  unfoldable pub complete_contract :
      Env → PaymentsService S → Uuid → S → Db → Result (Unit {0}) × S × Db
  complete_contract env svc =
      settle env completion (λ hold_id c. svc.transfer_funds hold_id c.freelancer_wallet_id)

  unfoldable pub cancel_contract :
      Env → PaymentsService S → Uuid → S → Db → Result (Unit {0}) × S × Db
  cancel_contract env svc = settle env cancellation (λ hold_id c. svc.release_funds hold_id)
