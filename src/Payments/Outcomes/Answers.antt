-- ===== src/Payments/Outcomes/Answers.antt =====
-- The status codes of the handlers (handler.go), and what the database then is.
use hire_flow.Prelude.{
  ℕ, ◌≡◌, refl, Bool, true, false, ◌||◌, Option, none, some, arith, ◌==◌, if◌then◌else◌, ◌⊎◌,
}
use hire_flow.Prelude.Int.{pos, leb_ℤ}
use hire_flow.Payments.Types.{
  unacknowledged, durable, refused, Commit, Db, HoldRequest, ReleaseRequest, TransferRequest,
  Response, Site, Env,
}
use hire_flow.Payments.Tx.{Tx, TxResult, ret, abort, internal_error, finish, run_tx}
use hire_flow.Payments.Handlers.{
  hold_funds, hold_tx, place_hold, refuse_hold, release_funds, release_tx, transfer_funds,
  transfer_tx, move_funds,
}
use hire_flow.Payments.Spec.{Step}
use hire_flow.Payments.Invariant.{IsSound}
use hire_flow.Payments.Refinement.Hold.{hold_tx-Step, positive_int}
use hire_flow.Payments.Refinement.Release.{release_tx-Step}
use hire_flow.Payments.Refinement.Transfer.{transfer_tx-Step, IsInRange}
use hire_flow.Prelude.{Bool-cases, inl, inr}
use hire_flow.Payments.Service.{Request, hold_request, release_request, transfer_request, serve}

-- the status codes of requests that reach their commit
abbrev pub commits : ℕ → Bool
commits n = n == 200 || n == 201 || n == 422

-- the body answers with another status where it ends early, and with one of these where it commits
Tells : TxResult Response → Type 0
Tells (ret r after) = commits r.status ≡ true
Tells (abort r) = commits r.status ≡ false

hold_tx-Tells : (env : Env) (req : HoldRequest) (db : Db) → Tells (hold_tx env req db)
unfolding Tells hold_tx refuse_hold place_hold
hold_tx-Tells env req db = ground arith

release_tx-Tells : (env : Env) (req : ReleaseRequest) (db : Db) → Tells (release_tx env req db)
unfolding Tells release_tx
release_tx-Tells env req db = ground arith

transfer_tx-Tells : (env : Env) (req : TransferRequest) (db : Db) → Tells (transfer_tx env req db)
unfolding Tells transfer_tx move_funds
transfer_tx-Tells env req db = ground arith

-- A success, or the answer 422, means that a step was made; another answer means that nothing
-- changed, or that a step was made and the acknowledgement of its commit was lost.
abbrev pub Answers : Env → Db → Response × Db → Type 0
Answers env before (r, after) =
    (commits r.status ≡ true) × Step before after
    ⊎ (commits r.status ≡ false)
      × ((after ≡ before) ⊎ (env.commit ≡ unacknowledged) × Step before after)

run_tx-Answers :
    (env : Env) (body : Tx Response) (db : Db)
    → Tells (body db)
    → ((r : Response) (after : Db) → body db ≡ ret r after → Step db after)
    → Answers env db (run_tx env body db)
unfolding run_tx Tells
run_tx-Answers env body db tells steps = begun (env.fails Site.begin)
  where
    ended :
        (x : TxResult Response)
        → Tells x
        → body db ≡ x
        → (c : Commit) → env.commit ≡ c
        → Answers env db (finish c x db)
    ended (ret r after) t e durable ec = inl (t, steps r after e)
    ended (ret r after) t e refused ec = inr (refl, inl refl)
    ended (ret r after) t e unacknowledged ec = inr (refl, inr (ec, steps r after e))
    ended (abort r) t e c ec = inr (t, inl refl)

    begun :
        (b : Bool)
        → Answers env db (if b then (internal_error, db) else finish env.commit (body db) db)
    begun true = inr (refl, inl refl)
    begun false = ended (body db) tells refl env.commit refl

hold_funds-Answers :
    (env : Env) (req : Option HoldRequest) (db : Db) → Answers env db (hold_funds env req db)
unfolding hold_funds
hold_funds-Answers env none db = inr (refl, inl refl)
hold_funds-Answers env (some req) db = elim (Bool-cases (leb_ℤ req.amount (pos 0))) [
  | inl bad ↦ ground arith
  | inr good ↦
      let (n, e) = positive_int req.amount good in
      let body =
        run_tx-Answers env (hold_tx env req) db (hold_tx-Tells env req db)
          (λ r after. hold_tx-Step env req db n r after e) in
      ground arith
]

release_funds-Answers :
    (env : Env) (req : Option ReleaseRequest) (db : Db) → Answers env db (release_funds env req db)
unfolding release_funds
release_funds-Answers env none db = inr (refl, inl refl)
release_funds-Answers env (some req) db =
    let body =
      run_tx-Answers env (release_tx env req) db (release_tx-Tells env req db)
        (release_tx-Step env req db) in
    ground arith

transfer_funds-Answers :
    (env : Env) (req : Option TransferRequest) (db : Db)
    → IsInRange db
    → Answers env db (transfer_funds env req db)
unfolding transfer_funds
transfer_funds-Answers env none db range = inr (refl, inl refl)
transfer_funds-Answers env (some req) db range =
    let body =
      run_tx-Answers env (transfer_tx env req) db (transfer_tx-Tells env req db)
        (λ r after. transfer_tx-Step env req db r after range) in
    ground arith

-- From a sound database, for every request and whatever fails: an answer 200, 201 or 422 means that
-- one step of the specification was made; any other status means that the database is as it was,
-- unless the commit went through and its acknowledgement was lost, and then one step was made.
pub serve-Answers :
    (env : Env) (req : Request) (db : Db) → IsSound db → Answers env db (serve env req db)
unfolding serve
serve-Answers env (hold_request m) db s = hold_funds-Answers env m db
serve-Answers env (release_request m) db s = release_funds-Answers env m db
serve-Answers env (transfer_request m) db s = transfer_funds-Answers env m db s.range
