-- ===== src/Contracts/Api/Creating.antt =====
-- The answer 201 of POST /contracts (CreateContract of handler.go), and both services.
mod Tests
use mathlib.Core.Path.{subst}
use hire_flow.Prelude.{
  ℕ, ◌≡◌, refl, sym, ◌∙◌, ap, Bool, true, false, Option, none, some, List, arith, if◌then◌else◌,
}
use hire_flow.Prelude.Table.{find-update, update}
use hire_flow.Contracts.Types.{
  Uuid, hold_pending, Contract, MilestoneSpec, Db, Result, ok, err, Env, Site, Phase,
  PaymentsService,
}
use hire_flow.Contracts.Stores.{contract_key, find_contract, set_status, set_hold, run_tx}
use hire_flow.Contracts.Saga.{
  Created, created, hold_failed, create_failed, create_contract, prepared, confirm, confirmed,
  after_hold, after_insert, hold_request, insert_new,
}
use hire_flow.Contracts.Spec.{Confirmed}
use hire_flow.Contracts.Refinement.Rows.{Outcome, unchanged, happened}
use hire_flow.Contracts.Refinement.Methods.{confirm-Outcome}
use hire_flow.Contracts.Escrow.{HoldState, held, Escrow, EscrowLaws}
use hire_flow.Contracts.Consistency.{needs_hold, allows, Backed, IsConsistent}
use hire_flow.Contracts.Consistency.Creation.{create_contract-Sound}
use hire_flow.Contracts.Api.{
  CreateContractRequest, create, created_answer, contract_of, incomplete, fail, fields_required,
  Answer,
}
use hire_flow.Contracts.Api.Changes.{At}

Confirmed-At : (id h : Uuid) (db after : Db) → Confirmed id h db after → At id hold_pending after
Confirmed-At id h db after x =
    let first =
      find-update contract_key (set_status hold_pending x.at) (λ y. refl) id id db.contracts in
    let second =
      find-update contract_key (set_hold h x.at) (λ y. refl) id id
        (update contract_key id (set_status hold_pending x.at) db.contracts) in
    (set_hold h x.at (set_status hold_pending x.at x.row), ground (arith, x.rows, x.found), refl)

abbrev is_created : Created → Bool
is_created (created c) = true
is_created _ = false

module _ {S : Type 0} (env : Env) (svc : PaymentsService S) where
  abbrev Holds : Uuid → Created × S × Db → Type 0
  Holds id (r, s, db) = is_created r ≡ true → At id hold_pending db

  confirmed-Holds :
      (c : Contract) (h : Uuid) (s : S) (db : Db) (x : Result (Unit {0}) × Db)
      → Outcome (Confirmed c.id h db) db x
      → Holds c.id (confirmed c h x s)
  confirmed-Holds c h s db x (unchanged e) = λ made. cc
  confirmed-Holds c h s db x (happened (ok _) after k) = λ made. Confirmed-At c.id h db after k
  confirmed-Holds c h s db x (happened (err e) after k) = λ made. cc

  after_hold-Holds :
      (c : Contract) (x : Option Uuid × S) (db : Db) → Holds c.id (after_hold env c x db)
  after_hold-Holds c (none, s) db = λ made. cc
  after_hold-Holds c (some h, s) db =
      confirmed-Holds c h s db
        (run_tx (env.fails Phase.confirming Site.begin) (env.commit Phase.confirming)
          (confirm env c h) db)
        (confirm-Outcome env svc c h db)

  after_insert-Holds :
      (c : Contract) (x : Result (Unit {0}) × Db) (s : S) → Holds c.id (after_insert env svc c x s)
  after_insert-Holds c (err e, db) s = λ made. cc
  after_insert-Holds c (ok _, db) s = after_hold-Holds c (svc.hold_funds (hold_request c) s) db

  create_contract-Holds :
      (c : Contract) (ms : List MilestoneSpec) (s : S) (db : Db)
      → Holds env.new_contract (create_contract env svc c ms s db)
  unfolding create_contract
  create_contract-Holds c ms s db =
      after_insert-Holds (prepared env c)
        (run_tx (env.fails Phase.creating Site.begin) (env.commit Phase.creating)
          (insert_new env c ms) db)
        s

created_of : (r : Created) → (created_answer r).status ≡ 201 → is_created r ≡ true
created_of (created c) e = refl
created_of (hold_failed c) e = ground arith
created_of create_failed e = ground arith

pending_held : (h : HoldState) → allows hold_pending h ≡ true → h ≡ held
pending_held held e = refl
pending_held HoldState.paid e = cc
pending_held HoldState.returned e = cc

module _ {S : Type 0} (view : S → Uuid → Option Escrow) where
  -- the contract is in the table, waiting for its payment, and its hold is held
  abbrev pub IsFunded : Uuid → S → Db → Type 0
  IsFunded id s db =
      (c : Contract) × (find_contract id db.contracts ≡ some c)
      × (c.status ≡ hold_pending)
      × (b : Backed view s c) × (b.escrow.state ≡ held)

module _ {S : Type 0} (view : S → Uuid → Option Escrow) (IsOk : S → Type 0) (env : Env)
    (svc : PaymentsService S) (laws : EscrowLaws view IsOk svc) where
  -- If contracts and holds agree and the payments service keeps the laws of an escrow, then POST
  -- /contracts is answered with 201 only if the new contract is in the table in HOLD_PENDING and has
  -- a hold for its wallet, amount and id, which is held.
  pub create-IsFunded :
      (req : CreateContractRequest) (s : S) (db : Db)
      → IsOk s
      → IsConsistent view s db
      → (create env svc (some req) s db).0.status ≡ 201
      → let (a, s', db') = create env svc (some req) s db in IsFunded view env.new_contract s' db'
  unfolding create
  create-IsFunded req s db fine good answer = choose (incomplete req) answer
    where
      done : Created × S × Db
      done = create_contract env svc (contract_of req) req.milestones s db

      refused : Answer × S × Db
      refused = (fail 400 fields_required, s, db)

      made : Answer × S × Db
      made = (created_answer done.0, done.1, done.2)

      choose :
          (b : Bool)
          → (if◌then◌else◌ {A = Answer × S × Db} b refused made).0.status ≡ 201
          → let (a, s', db') : Answer × S × Db = if b then refused else made in
            IsFunded view env.new_contract s' db'
      choose true e = absurd (ground arith)
      choose false e =
          let (c, found, at) =
            create_contract-Holds env svc (contract_of req) req.milestones s db
              (created_of done.0 e) in
          let sound =
            create_contract-Sound view IsOk env svc laws (contract_of req) req.milestones s db
              (fine, good) in
          let b = sound.1 env.new_contract c found (ap needs_hold at) in
          (
            c,
            found,
            at,
            b,
            pending_held b.escrow.state (ap (λ t. allows t b.escrow.state) (sym at) ∙ b.allowed),
          )
