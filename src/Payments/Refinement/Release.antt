-- ===== src/Payments/Refinement/Release.antt =====
-- `ReleaseFunds` (handler.go) against the steps of Payments/Spec.
use mathlib.Core.Path.{subst}
use hire_flow.Prelude.{◌≡◌, refl, sym, inl, inr, Option, none, some, arith, Option-cases}
use hire_flow.Prelude.Table.{find_own}
use hire_flow.Payments.Types.{active, released, Hold, Db, Env, ReleaseRequest, Response, hold_json}
use hire_flow.Payments.Tx.{ret}
use hire_flow.Payments.Stores.{hold_key, find_hold, set_status}
use hire_flow.Payments.Handlers.{release_tx, release_funds}
use hire_flow.Payments.Spec.{Step, freeing, freed}
use hire_flow.Payments.Refinement.Commit.{Follows, run_tx-Follows}

pub release_tx_ret :
    (env : Env) (req : ReleaseRequest) (h : Hold) (db : Db) (r : Response) (after : Db)
    → find_hold req.hold_id db.holds ≡ some h
    → release_tx env req db ≡ ret r after
    → (h.status ≡ active)
      × (r ≡ record { status = 200; body = hold_json (set_status released h) })
      × (after ≡ freed env h db)
unfolding release_tx
release_tx_ret env req h db r after found e = ground arith

pub release_tx-Step :
    (env : Env) (req : ReleaseRequest) (db : Db) (r : Response) (after : Db)
    → release_tx env req db ≡ ret r after
    → Step db after
release_tx-Step env req db r after e = elim (Option-cases (find_hold req.hold_id db.holds)) [
  | inl missing ↦ absurd (unfold release_tx in ground arith)
  | inr (h, found) ↦
      let (live, _, landed) = release_tx_ret env req h db r after found e in
      subst (Step db) (sym landed)
        (freeing env h (find_own hold_key req.hold_id db.holds h found) live)
]

-- Every request to release a hold, whatever fails in it, follows the specification.
pub release_funds-Follows :
    (env : Env) (req : Option ReleaseRequest) (db : Db) → Follows db (release_funds env req db)
unfolding release_funds
release_funds-Follows env none db = inl refl
release_funds-Follows env (some req) db =
    let body = run_tx-Follows env (release_tx env req) db (release_tx-Step env req db) in
    ground arith
