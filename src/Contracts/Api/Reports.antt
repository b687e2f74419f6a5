-- ===== src/Contracts/Api/Reports.antt =====
-- The answer 200 of PUT /accept, /complete and /cancel, and both services.
use hire_flow.Prelude.{◌≡◌, refl, true, Option, arith}
use hire_flow.Contracts.Types.{
  Uuid, awaiting_accept, active, completed, declined, contract_accepted, Db, ok, Env,
  PaymentsService,
}
use hire_flow.Contracts.Saga.{
  completion, cancellation, accept_contract, complete_contract, cancel_contract,
}
use hire_flow.Contracts.Refinement.Methods.{move-Outcome}
use hire_flow.Contracts.Escrow.{HoldState, held, paid, returned, Escrow, EscrowLaws}
use hire_flow.Contracts.Consistency.{allows, IsConsistent}
use hire_flow.Contracts.Consistency.Methods.{
  accept_contract-IsConsistent, complete_contract-IsConsistent, cancel_contract-IsConsistent,
}
use hire_flow.Contracts.Api.{Reads, accept, complete, cancel}
use hire_flow.Contracts.Api.Changes.{
  At, Outcome-At, settle-Reaches, change-Shows, Reports, Shows-Reports,
}

completed_paid : (h : HoldState) → allows completed h ≡ true → h ≡ paid
completed_paid paid e = refl
completed_paid held e = cc
completed_paid returned e = cc

declined_returned : (h : HoldState) → allows declined h ≡ true → h ≡ returned
declined_returned returned e = refl
declined_returned held e = cc
declined_returned paid e = cc

active_held : (h : HoldState) → allows active h ≡ true → h ≡ held
active_held held e = refl
active_held paid e = cc
active_held returned e = cc

module _ {S : Type 0} (view : S → Uuid → Option Escrow) (env : Env) (reads : Reads) (id : Uuid)
    (s : S) (db : Db) where
  -- If contracts and holds agree and PUT /accept is answered with 200, then the answer shows the
  -- contract as it is in the table, ACTIVE, and its hold is held.
  pub accept-Reports :
      IsConsistent view s db
      → (accept env reads id s db).0.status ≡ 200
      → Reports view id active held (accept env reads id s db)
  unfolding accept accept_contract
  accept-Reports good is_ok =
      let (shows, leaves) = change-Shows reads id active _ _ s db accepted (ground arith) is_ok in
      Shows-Reports view id active held (accept env reads id s db)
        ((accept_contract env id db).0, s, (accept_contract env id db).1) refl active_held leaves
        (accept_contract-IsConsistent view env id s db good) shows
    where
      accepted : (accept_contract env id db).0 ≡ ok tt → At id active (accept_contract env id db).1
      accepted =
          Outcome-At id awaiting_accept active db _
            (move-Outcome env id awaiting_accept active contract_accepted db)

  module _ (IsOk : S → Type 0) (svc : PaymentsService S) (laws : EscrowLaws view IsOk svc)
      (fine : IsOk s) (good : IsConsistent view s db) where
    -- If contracts and holds agree and the payments service keeps the laws of an escrow, then PUT
    -- /complete is answered with 200 only if the contract is COMPLETED in the table, as the answer
    -- shows it, and its hold is paid out.
    pub complete-Reports :
        (complete env svc reads id s db).0.status ≡ 200
        → Reports view id completed paid (complete env svc reads id s db)
    unfolding complete complete_contract
    complete-Reports is_ok =
        let (shows, leaves) =
          change-Shows reads id completed _ (complete_contract env svc id) s db reached
            (ground arith) is_ok in
        Shows-Reports view id completed paid (complete env svc reads id s db)
          (complete_contract env svc id s db) refl completed_paid leaves
          (complete_contract-IsConsistent view IsOk env svc laws id s db fine good).1 shows
      where
        reached :
            (complete_contract env svc id s db).0 ≡ ok tt
            → At id completed (complete_contract env svc id s db).2
        reached =
            settle-Reaches env completion
              (λ hold_id c. svc.transfer_funds hold_id c.freelancer_wallet_id) id s db

    -- If contracts and holds agree and the payments service keeps the laws of an escrow, then PUT
    -- /cancel is answered with 200 only if the contract is DECLINED in the table, as the answer
    -- shows it, and its hold is released.
    pub cancel-Reports :
        (cancel env svc reads id s db).0.status ≡ 200
        → Reports view id declined returned (cancel env svc reads id s db)
    unfolding cancel cancel_contract
    cancel-Reports is_ok =
        let (shows, leaves) =
          change-Shows reads id declined _ (cancel_contract env svc id) s db reached (ground arith)
            is_ok in
        Shows-Reports view id declined returned (cancel env svc reads id s db)
          (cancel_contract env svc id s db) refl declined_returned leaves
          (cancel_contract-IsConsistent view IsOk env svc laws id s db fine good).1 shows
      where
        reached :
            (cancel_contract env svc id s db).0 ≡ ok tt
            → At id declined (cancel_contract env svc id s db).2
        reached = settle-Reaches env cancellation (λ hold_id c. svc.release_funds hold_id) id s db
