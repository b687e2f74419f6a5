-- ===== src/Contracts/Consistency/Methods.antt =====
-- The methods of saga.go but for CreateContract, and the consistency with the payments service.
use hire_flow.Prelude.{refl, Option, arith}
use hire_flow.Contracts.Types.{
  Uuid, hold_pending, awaiting_accept, active, completing, cancelled, declining, contract_accepted,
  contract_cancelled, Db, Env, PaymentsService,
}
use hire_flow.Contracts.Saga.{
  complete_contract, cancel_contract, completion, cancellation, handle_payment_held,
  handle_payment_failed, accept_contract,
}
use hire_flow.Contracts.Refinement.Methods.{move-Outcome, update-Outcome}
use hire_flow.Contracts.Escrow.{paid, returned, Escrow, EscrowLaws}
use hire_flow.Contracts.Consistency.{IsConsistent}
use hire_flow.Contracts.Consistency.Effects.{Weakens}
use hire_flow.Contracts.Consistency.Settlement.{Fits, weak_outcome, settle-Sound}

payment_held_weak : Weakens hold_pending awaiting_accept
payment_held_weak = record { need = λ n. refl; state = λ e n h. h }

payment_failed_weak : Weakens hold_pending cancelled
payment_failed_weak = record { need = λ n. refl; state = λ e n h. cc }

accept_weak : Weakens awaiting_accept active
accept_weak = record { need = λ n. refl; state = λ e n h. h }

complete_weak : Weakens active completing
complete_weak = record { need = λ n. refl; state = λ e n h. ground arith }

cancel_weak : Weakens awaiting_accept declining
cancel_weak = record { need = λ n. refl; state = λ e n h. ground arith }

module _ {S : Type 0} (view : S → Uuid → Option Escrow) where
  module _ (env : Env) (id : Uuid) (s : S) (db : Db) (good : IsConsistent view s db) where
    pub handle_payment_held-IsConsistent : IsConsistent view s (handle_payment_held env id db).1
    unfolding handle_payment_held
    handle_payment_held-IsConsistent =
        weak_outcome view s id _ _ db payment_held_weak
          (update-Outcome env id hold_pending awaiting_accept db) good

    pub handle_payment_failed-IsConsistent : IsConsistent view s (handle_payment_failed env id db).1
    unfolding handle_payment_failed
    handle_payment_failed-IsConsistent =
        weak_outcome view s id _ _ db payment_failed_weak
          (move-Outcome env id hold_pending cancelled contract_cancelled db) good

    pub accept_contract-IsConsistent : IsConsistent view s (accept_contract env id db).1
    unfolding accept_contract
    accept_contract-IsConsistent =
        weak_outcome view s id _ _ db accept_weak
          (move-Outcome env id awaiting_accept active contract_accepted db) good

completion-Fits : Fits completion paid
completion-Fits = record { weak = complete_weak; need = refl; during = refl; after = refl }

cancellation-Fits : Fits cancellation returned
cancellation-Fits = record { weak = cancel_weak; need = refl; during = refl; after = refl }

module _ {S : Type 0} (view : S → Uuid → Option Escrow) (IsOk : S → Type 0) (env : Env)
    (svc : PaymentsService S) (laws : EscrowLaws view IsOk svc) (id : Uuid) (s : S) (db : Db)
    (fine : IsOk s) (good : IsConsistent view s db) where
  pub complete_contract-IsConsistent :
      let (r, s', db') = complete_contract env svc id s db in IsOk s' × IsConsistent view s' db'
  unfolding complete_contract
  complete_contract-IsConsistent =
      settle-Sound view IsOk env completion paid completion-Fits
        (λ hold_id c. svc.transfer_funds hold_id c.freelancer_wallet_id)
        (λ h c. laws.transfers h c.freelancer_wallet_id) id s db (fine, good)

  pub cancel_contract-IsConsistent :
      let (r, s', db') = cancel_contract env svc id s db in IsOk s' × IsConsistent view s' db'
  unfolding cancel_contract
  cancel_contract-IsConsistent =
      settle-Sound view IsOk env cancellation returned cancellation-Fits
        (λ hold_id c. svc.release_funds hold_id) (λ h c. laws.releases h) id s db (fine, good)
