-- ===== src/Contracts/Refinement/Methods.antt =====
-- The methods of saga.go, and the effects of Contracts/Spec.
use mathlib.Core.Path.{subst}
use hire_flow.Prelude.{
  ◌≡◌, refl, sym, inl, inr, Bool, true, false, Option, none, some, List, if◌then◌else◌,
}
use hire_flow.Contracts.Types.{
  Uuid, Status, pending, hold_pending, awaiting_accept, active, cancelled, contract_accepted,
  contract_cancelled, Contract, MilestoneSpec, Db, Result, ok, err, SagaError, Env, Site, Phase,
  same_status, EventType, PaymentsService,
}
use hire_flow.Contracts.Stores.{run_tx, update_status, get_by_id, inserted}
use hire_flow.Contracts.Saga.{
  create_contract, after_hold, after_insert, confirmed, insert_new, prepared, confirm, move,
  handle_payment_held, handle_payment_failed, accept_contract, Route, enter, leave, settle, settled,
  with_hold, entered, fetched, complete_contract, cancel_contract, completion, cancellation,
  hold_request,
}
use hire_flow.Contracts.Spec.{
  ◌⟶◌, drawn, hold_refused, payment_held, payment_failed, accept, cancel, release, complete,
  transfer, Inserted, Advanced, Confirmed, Effect, inserts, advances, confirms, notes, Effects,
  done, more,
}
use hire_flow.Contracts.Refinement.Rows.{
  Outcome, unchanged, happened, run_tx-Outcome, advance, move_ok, leave_ok, confirm_ok,
  insert_new_ok,
}
use hire_flow.Contracts.Refinement.Compensation.{Compensated, compensate-Compensated}

pub one : {db after : Db} → Effect db after → Effects db after
one e = more done e

pub Effects_trans : {a b c : Db} → Effects a b → Effects b c → Effects a c
Effects_trans p done = p
Effects_trans p (more q e) = more (Effects_trans p q) e

Outcome-Effects :
    {A : Type 0} {Q : Db → Type 0} {db : Db} {x : Result A × Db}
    → ((after : Db) → Q after → Effect db after)
    → Outcome Q db x
    → Effects db x.1
Outcome-Effects f (unchanged e) = done
Outcome-Effects f (happened r after q) = one (f after q)

-- what one transaction did, for each that the saga runs
pub move-Outcome :
    (env : Env) (id : Uuid) (from to : Status) (event : EventType) (db : Db)
    → Outcome (Advanced id from to db) db (
        run_tx
          (env.fails Phase.entering Site.begin)
          (env.commit Phase.entering)
          (move env id from to event)
          db)
move-Outcome env id from to event db =
    run_tx-Outcome _ _ _ (move env id from to event) db
      (λ a after e. move_ok env db after id from to event e)

pub update-Outcome :
    (env : Env) (id : Uuid) (from to : Status) (db : Db)
    → Outcome (Advanced id from to db) db (
        run_tx false
          (env.commit Phase.entering)
          (update_status (env.fails Phase.entering Site.update_status) id from to env.now)
          db)
update-Outcome env id from to db =
    run_tx-Outcome _ _ _
      (update_status (env.fails Phase.entering Site.update_status) id from to env.now) db
      (λ a after e. advance _ id from to env.now db after after e refl)

pub leave-Outcome :
    (env : Env) (c : Contract) (from to : Status) (event : EventType) (db : Db)
    → Outcome (Advanced c.id from to db) db (
        run_tx
          (env.fails Phase.leaving Site.begin)
          (env.commit Phase.leaving)
          (leave env c from to event)
          db)
leave-Outcome env c from to event db =
    run_tx-Outcome _ _ _ (leave env c from to event) db
      (λ a after e. leave_ok env db after c from to event e)

pub handle_payment_held-Effects :
    (env : Env) (id : Uuid) (db : Db) → Effects db (handle_payment_held env id db).1
unfolding handle_payment_held
handle_payment_held-Effects env id db =
    Outcome-Effects (λ after. advances id hold_pending awaiting_accept (drawn payment_held))
      (update-Outcome env id hold_pending awaiting_accept db)

pub handle_payment_failed-Effects :
    (env : Env) (id : Uuid) (db : Db) → Effects db (handle_payment_failed env id db).1
unfolding handle_payment_failed
handle_payment_failed-Effects env id db =
    Outcome-Effects (λ after. advances id hold_pending cancelled (drawn payment_failed))
      (move-Outcome env id hold_pending cancelled contract_cancelled db)

pub accept_contract-Effects :
    (env : Env) (id : Uuid) (db : Db) → Effects db (accept_contract env id db).1
unfolding accept_contract
accept_contract-Effects env id db =
    Outcome-Effects (λ after. advances id awaiting_accept active (drawn accept))
      (move-Outcome env id awaiting_accept active contract_accepted db)

module _ {S : Type 0} (env : Env) (route : Route) (call : Uuid → Contract → S → Bool × S)
    (first : route.start ⟶ route.through) (last : route.through ⟶ route.goal) where
  settled-Effects :
      (c : Contract) (x : Bool × S) (db : Db) → Effects db (settled env route call c x db).2
  settled-Effects c (false, s) db = done
  settled-Effects c (true, s) db =
      Outcome-Effects (λ after. advances c.id route.through route.goal last)
        (leave-Outcome env c route.through route.goal route.event db)

  with_hold-Effects :
      (c : Contract) (h : Option Uuid) (s : S) (db : Db)
      → Effects db (with_hold env route call c h s db).2
  with_hold-Effects c none s db = done
  with_hold-Effects c (some h) s db = settled-Effects c (call h c s) db

  entered-Effects :
      (c : Contract) (x : Result (Unit {0}) × Db) (s : S)
      → Effects x.1 (entered env route call c x s).2
  entered-Effects c (err e, db) s = done
  entered-Effects c (ok _, db) s = choose (same_status c.status route.through)
    where
      choose :
          (b : Bool)
          → Effects db
              (if b
                then with_hold env route call c c.hold_id s db
                else (err SagaError.status_conflict, s, db)).2
      choose true = with_hold-Effects c c.hold_id s db
      choose false = done

  enter-Effects : (c : Contract) (db : Db) → Effects db (enter env route call c db).1
  unfolding enter
  enter-Effects c db =
      Outcome-Effects (λ after. advances c.id route.start route.through first)
        (update-Outcome env c.id route.start route.through db)

  fetched-Effects :
      (x : Result (Contract × Db)) (s : S) (db : Db) → Effects db (fetched env route call x s db).2
  fetched-Effects (err e) s db = done
  fetched-Effects (ok (c, _)) s db = choose (same_status c.status route.start)
    where
      choose :
          (b : Bool)
          → Effects db
              (if b
                then entered env route call
                    (record c { status = route.through })
                    (enter env route call c db)
                    s
                else entered env route call c (ok tt, db) s).2
      choose true =
          Effects_trans (enter-Effects c db)
            (entered-Effects (record c { status = route.through }) (enter env route call c db) s)
      choose false = entered-Effects c (ok tt, db) s

  pub settle-Effects : (id : Uuid) (s : S) (db : Db) → Effects db (settle env route call id s db).2
  unfolding settle
  settle-Effects id s db =
      fetched-Effects (get_by_id (env.fails Phase.entering Site.get_contract) id db) s db

module _ {S : Type 0} (env : Env) (svc : PaymentsService S) where
  pub complete_contract-Effects :
      (id : Uuid) (s : S) (db : Db) → Effects db (complete_contract env svc id s db).2
  unfolding complete_contract
  complete_contract-Effects =
      settle-Effects env completion (λ hold_id c. svc.transfer_funds hold_id c.freelancer_wallet_id)
        (drawn complete) (drawn transfer)

  pub cancel_contract-Effects :
      (id : Uuid) (s : S) (db : Db) → Effects db (cancel_contract env svc id s db).2
  unfolding cancel_contract
  cancel_contract-Effects =
      settle-Effects env cancellation (λ hold_id c. svc.release_funds hold_id) (drawn cancel)
        (drawn release)

  confirmed-Effects :
      (c : Contract) (h : Uuid) (x : Result (Unit {0}) × Db) (s : S) → (confirmed c h x s).2 ≡ x.1
  confirmed-Effects c h (ok _, db) s = refl
  confirmed-Effects c h (err e, db) s = refl

  Compensated-Effects : (c : Contract) (db after : Db) → Compensated c db after → Effects db after
  Compensated-Effects c db after (inl a) = one (advances c.id pending cancelled hold_refused a)
  Compensated-Effects c db after (inr (rows, milestones)) = one (notes rows milestones)

  pub confirm-Outcome :
      (c : Contract) (h : Uuid) (db : Db)
      → Outcome (Confirmed c.id h db) db (
          run_tx
            (env.fails Phase.confirming Site.begin)
            (env.commit Phase.confirming)
            (confirm env c h)
            db)
  confirm-Outcome c h db =
      run_tx-Outcome _ _ _ (confirm env c h) db (λ a after e. confirm_ok env db after c h e)

  after_hold-Effects :
      (c : Contract) (x : Option Uuid × S) (db : Db) → Effects db (after_hold env c x db).2
  after_hold-Effects c (none, s) db = Compensated-Effects c db _ (compensate-Compensated env c db)
  after_hold-Effects c (some h, s) db =
      subst (Effects db) (sym (confirmed-Effects c h _ s))
        (Outcome-Effects (λ after. confirms c.id h) (confirm-Outcome c h db))

  after_insert-Effects :
      (c : Contract) (x : Result (Unit {0}) × Db) (s : S)
      → Effects x.1 (after_insert env svc c x s).2
  after_insert-Effects c (err e, db) s = done
  after_insert-Effects c (ok _, db) s = after_hold-Effects c (svc.hold_funds (hold_request c) s) db

  pub insert-Outcome :
      (c : Contract) (ms : List MilestoneSpec) (db : Db)
      → Outcome (Inserted (inserted env.now (prepared env c)) db) db (
          run_tx
            (env.fails Phase.creating Site.begin)
            (env.commit Phase.creating)
            (insert_new env c ms)
            db)
  insert-Outcome c ms db =
      run_tx-Outcome _ _ _ (insert_new env c ms) db (λ a after e. insert_new_ok env db after c ms e)

  pub create_contract-Effects :
      (c : Contract) (ms : List MilestoneSpec) (s : S) (db : Db)
      → Effects db (create_contract env svc c ms s db).2
  unfolding create_contract
  create_contract-Effects c ms s db =
      Effects_trans (Outcome-Effects (λ after. inserts _) (insert-Outcome c ms db))
        (after_insert-Effects (prepared env c) _ s)
