-- ===== src/Jobs/Refinement/Commit.antt =====
-- Database transactions in general: a request whose commits are all steps of Jobs/Spec.
use hire_flow.Prelude.{◌≡◌, refl, ◌⊎◌, inl, inr, Bool, true, false, if◌then◌else◌}
use hire_flow.Jobs.Types.{
  Db, other_error, Answer, Env, Site, Commit, durable, refused, unacknowledged,
}
use hire_flow.Jobs.Tx.{Result, ok, err, Sql, finish, run_tx}
use hire_flow.Jobs.Spec.{Step}

-- A success means that a step was made, and an error that nothing changed, unless the commit went
-- through and its acknowledgement was lost.
abbrev pub Reports : Env → Db → Result Answer × Db → Type 0
Reports env before (ok a, after) = Step before after
Reports env before (err e, after) =
    (after ≡ before) ⊎ (env.commit ≡ unacknowledged) × Step before after

pub run_tx-Reports :
    (env : Env) (body : Sql Answer) (db : Db)
    → ((a : Answer) (after : Db) → body db ≡ ok (a, after) → Step db after)
    → Reports env db (run_tx env body db)
unfolding run_tx
run_tx-Reports env body db steps = begun (env.fails Site.begin)
  where
    ended :
        (x : Result (Answer × Db))
        → body db ≡ x
        → (c : Commit) → env.commit ≡ c
        → Reports env db (finish c x db)
    ended (ok (a, after)) e durable is = steps a after e
    ended (ok (a, after)) e refused is = inl refl
    ended (ok (a, after)) e unacknowledged is = inr (is, steps a after e)
    ended (err x) e c is = inl refl

    begun :
        (b : Bool)
        → Reports env db (if b then (err other_error, db) else finish env.commit (body db) db)
    begun true = inl refl
    begun false = ended (body db) refl env.commit refl
