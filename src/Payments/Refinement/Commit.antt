-- ===== src/Payments/Refinement/Commit.antt =====
-- Database transactions in general: a request whose commits are all steps of Payments/Spec.
use hire_flow.Prelude.{◌≡◌, refl, ◌⊎◌, inl, inr, Bool, true, false, if◌then◌else◌}
use hire_flow.Payments.Types.{durable, refused, unacknowledged, Commit, Db, Env, Response, Site}
use hire_flow.Payments.Tx.{Tx, TxResult, ret, abort, internal_error, finish, run_tx}
use hire_flow.Payments.Spec.{Step}

-- A request leaves the database alone or makes one step.
abbrev pub Follows : Db → Response × Db → Type 0
Follows before (r, after) = (after ≡ before) ⊎ Step before after

-- A body all of whose commits are steps makes a request that follows the specification.
pub run_tx-Follows :
    (env : Env) (body : Tx Response) (db : Db)
    → ((r : Response) (after : Db) → body db ≡ ret r after → Step db after)
    → Follows db (run_tx env body db)
unfolding run_tx
run_tx-Follows env body db steps = begun (env.fails Site.begin)
  where
    ended : (x : TxResult Response) → body db ≡ x → (c : Commit) → Follows db (finish c x db)
    ended (ret r after) e durable = inr (steps r after e)
    ended (ret r after) e refused = inl refl
    ended (ret r after) e unacknowledged = inr (steps r after e)
    ended (abort r) e c = inl refl

    begun :
        (b : Bool) → Follows db (if b then (internal_error, db) else finish env.commit (body db) db)
    begun true = inl refl
    begun false = ended (body db) refl env.commit
