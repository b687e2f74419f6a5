-- ===== src/Payments/Service.antt =====
-- The POST routes of the service, and a history of requests. Requests are served one after another.
use mathlib.Core.Path.{subst}
use hire_flow.Prelude.{sym, inl, inr, Option, List, [], ◌∷◌}
use hire_flow.Payments.Types.{Db, Env, HoldRequest, ReleaseRequest, TransferRequest, Response}
use hire_flow.Payments.Handlers.{hold_funds, release_funds, transfer_funds}
use hire_flow.Payments.Spec.{Step}
use hire_flow.Payments.Refinement.Commit.{Follows}
use hire_flow.Payments.Refinement.Hold.{hold_funds-Follows}
use hire_flow.Payments.Refinement.Release.{release_funds-Follows}
use hire_flow.Payments.Refinement.Transfer.{transfer_funds-Follows}
use hire_flow.Payments.Invariant.{IsSound}
use hire_flow.Payments.Invariant.Steps.{Step-IsSound}

-- the body of a request to one of the routes; `none` if it cannot be read
pub data Request : Type 0 where
  hold_request : Option HoldRequest → Request
  release_request : Option ReleaseRequest → Request
  transfer_request : Option TransferRequest → Request

unfoldable pub serve : Env → Request → Db → Response × Db
serve env (hold_request m) db = hold_funds env m db
serve env (release_request m) db = release_funds env m db
serve env (transfer_request m) db = transfer_funds env m db

unfoldable pub run : Db → List (Env × Request) → Db
run db [] = db
run db ((env, req) ∷ rest) = run (serve env req db).1 rest

-- Every request to a sound database, whatever its body is and whatever fails in it, leaves the
-- database alone or makes one step of the specification: an escrow rule whose premises hold.
pub serve-Follows :
    (env : Env) (req : Request) (db : Db) → IsSound db → Follows db (serve env req db)
unfolding serve
serve-Follows env (hold_request m) db s = hold_funds-Follows env m db
serve-Follows env (release_request m) db s = release_funds-Follows env m db
serve-Follows env (transfer_request m) db s = transfer_funds-Follows env m db s.range

pub serve-IsSound :
    (env : Env) (req : Request) (db : Db) → IsSound db → IsSound (serve env req db).1
serve-IsSound env req db s = elim (serve-Follows env req db s) [
  | inl same ↦ subst IsSound (sym same) s
  | inr step ↦ Step-IsSound step s
]

-- From a sound database, no history of requests, served one after another, and failures overdraws a
-- wallet, takes more on hold than a wallet owns, repeats a key of a wallet or a
-- hold, or leaves the range of a BIGINT.
pub run-IsSound :
    (db : Db) (requests : List (Env × Request)) → IsSound db → IsSound (run db requests)
unfolding run
run-IsSound db [] s = s
run-IsSound db ((env, req) ∷ rest) s =
    run-IsSound (serve env req db).1 rest (serve-IsSound env req db s)

module _ {ℓ} (P : Db → Db → Type ℓ)
    (step : (start db after : Db) → IsSound db → P start db → Step db after → P start after) where
  extend :
      (start : Db) (env : Env) (req : Request) (db : Db)
      → IsSound db
      → P start db
      → P start (serve env req db).1
  extend start env req db s p = elim (serve-Follows env req db s) [
    | inl same ↦ subst (P start) (sym same) p
    | inr st ↦ step start db (serve env req db).1 s p st
  ]

  -- What every step extends, seen from the start of a history, holds at its end.
  pub run_induction :
      (start db : Db) (requests : List (Env × Request))
      → IsSound db
      → P start db
      → P start (run db requests)
  unfolding run
  run_induction start db [] s p = p
  run_induction start db ((env, req) ∷ rest) s p =
      run_induction start (serve env req db).1 rest (serve-IsSound env req db s)
        (extend start env req db s p)
