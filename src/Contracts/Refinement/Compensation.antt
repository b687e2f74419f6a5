-- ===== src/Contracts/Refinement/Compensation.antt =====
-- The transaction of `CreateContract` after a hold that failed.
use mathlib.Core.Path.{subst}
use hire_flow.Prelude.{◌≡◌, refl, ◌⊎◌, inl, inr, arith}
use hire_flow.Contracts.Types.{pending, cancelled, Contract, Db, Result, ok, Env, Site, Phase}
use hire_flow.Contracts.Stores.{update_status}
use hire_flow.Contracts.Saga.{compensate, compensate_rows}
use hire_flow.Contracts.Spec.{Advanced}
use hire_flow.Contracts.Refinement.Rows.{
  Outcome, unchanged, happened, run_tx-Outcome, advance, Result-cases,
}

-- the contract was cancelled, or its row was left alone
abbrev pub Compensated : Contract → Db → Db → Type 0
Compensated c db after =
    Advanced c.id pending cancelled db after
    ⊎ (after.contracts ≡ db.contracts) × (after.milestones ≡ db.milestones)

compensate_rows-Compensated :
    (env : Env) (c : Contract) (db : Db) → Compensated c db (compensate_rows env c db)
unfolding compensate_rows
compensate_rows-Compensated env c db =
    elim (Result-cases (
      update_status (env.fails Phase.compensating Site.update_status) c.id pending cancelled env.now
        db)) [
          | inl (_, mid, up) ↦
              inl (advance _ c.id pending cancelled env.now db mid _ up (ground arith))
          | inr (x, failed) ↦ inr (ground arith)
        ]

-- Whatever fails in it, the compensation cancels the pending contract or leaves its row alone.
pub compensate-Compensated :
    (env : Env) (c : Contract) (db : Db) → Compensated c db (compensate env c db)
unfolding compensate
compensate-Compensated env c db = done (
    run_tx-Outcome (Compensated c db) (env.fails Phase.compensating Site.begin)
      (env.commit Phase.compensating) (λ before. ok (tt, compensate_rows env c before)) db
      (λ a after e.
        let same : compensate_rows env c db ≡ after = cc in
        subst (Compensated c db) same (compensate_rows-Compensated env c db)))
  where
    done : {x : Result (Unit {0}) × Db} → Outcome (Compensated c db) db x → Compensated c db x.1
    done (unchanged e) = inr (refl, refl)
    done (happened r after q) = q
