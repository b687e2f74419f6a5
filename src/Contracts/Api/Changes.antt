-- ===== src/Contracts/Api/Changes.antt =====
-- What an answer of the contracts service tells its caller.
use mathlib.Core.Path.{subst}
use hire_flow.Prelude.{
  ◌≡◌, ◌≢◌, refl, sym, ◌∙◌, ap, Bool, true, false, Option, none, some, arith, if◌then◌else◌,
}
use hire_flow.Prelude.Table.{find-update, find_key}
use hire_flow.Contracts.Types.{
  Uuid, Status, same_status, Contract, Db, SagaError, contract_not_found, status_conflict,
  other_error, Result, ok, err, Site, Phase, Env,
}
use hire_flow.Contracts.Stores.{contract_key, find_contract, set_status, get_by_id, run_tx}
use hire_flow.Contracts.Saga.{Route, settled, with_hold, entered, enter, fetched, settle, leave}
use hire_flow.Contracts.Spec.{Advanced}
use hire_flow.Contracts.Refinement.Rows.{Outcome, unchanged, happened}
use hire_flow.Contracts.Refinement.Methods.{leave-Outcome}
use hire_flow.Contracts.Escrow.{HoldState, Escrow}
use hire_flow.Contracts.Consistency.{needs_hold, allows, Backed, IsConsistent}
use hire_flow.Contracts.Api.{
  Reads, Answer, contract_json, change, answered, error_answer, looked_up,
}

-- contract `id` is in the table with status `to`
abbrev pub At : Uuid → Status → Db → Type 0
At id to db = (c : Contract) × (find_contract id db.contracts ≡ some c) × (c.status ≡ to)

Advanced-At :
    (id : Uuid) (from to : Status) (db after : Db) → Advanced id from to db after → At id to after
Advanced-At id from to db after a =
    let moved = find-update contract_key (set_status to a.at) (λ x. refl) id id db.contracts in
    (set_status to a.at a.row, ground (arith, a.rows, a.found), refl)

pub Outcome-At :
    (id : Uuid) (from to : Status) (db : Db) (x : Result (Unit {0}) × Db)
    → Outcome (Advanced id from to db) db x
    → x.0 ≡ ok tt
    → At id to x.1
Outcome-At id from to db x (unchanged e) done = cc
Outcome-At id from to db x (happened r after a) done = Advanced-At id from to db after a

module _ {S : Type 0} (env : Env) (route : Route) (call : Uuid → Contract → S → Bool × S)
    (id : Uuid) where
  abbrev pub Reaches : Result (Unit {0}) × S × Db → Type 0
  Reaches (r, s, db) = r ≡ ok tt → At id route.goal db

  settled-Reaches :
      (c : Contract) (x : Bool × S) (db : Db) → c.id ≡ id → Reaches (settled env route call c x db)
  settled-Reaches c (false, s) db own = λ done. cc
  settled-Reaches c (true, s) db own = λ done.
      subst
        (λ k.
          At k route.goal
            (run_tx (env.fails Phase.leaving Site.begin) (env.commit Phase.leaving)
              (leave env c route.through route.goal route.event) db).1)
        own
        (Outcome-At c.id route.through route.goal db
          (run_tx (env.fails Phase.leaving Site.begin) (env.commit Phase.leaving)
            (leave env c route.through route.goal route.event) db)
          (leave-Outcome env c route.through route.goal route.event db) done)

  with_hold-Reaches :
      (c : Contract) (h : Option Uuid) (s : S) (db : Db)
      → c.id ≡ id
      → Reaches (with_hold env route call c h s db)
  with_hold-Reaches c none s db own = λ done. cc
  with_hold-Reaches c (some h) s db own = settled-Reaches c (call h c s) db own

  entered-Reaches :
      (c : Contract) (x : Result (Unit {0}) × Db) (s : S)
      → c.id ≡ id
      → Reaches (entered env route call c x s)
  entered-Reaches c (err e, db) s own = λ done. cc
  entered-Reaches c (ok _, db) s own = choose (same_status c.status route.through)
    where
      choose :
          (b : Bool)
          → Reaches (
              if b
              then with_hold env route call c c.hold_id s db
              else (err SagaError.status_conflict, s, db))
      choose true = with_hold-Reaches c c.hold_id s db own
      choose false = λ done. cc

  fetched-Reaches :
      (x : Result (Contract × Db)) (s : S) (db : Db)
      → ((c : Contract) (d : Db) → x ≡ ok (c, d) → c.id ≡ id)
      → Reaches (fetched env route call x s db)
  fetched-Reaches (err e) s db own = λ done. cc
  fetched-Reaches (ok (c, d)) s db own = choose (same_status c.status route.start)
    where
      choose :
          (b : Bool)
          → Reaches (
              if b
              then entered env route call
                  (record c { status = route.through })
                  (enter env route call c db)
                  s
              else entered env route call c (ok tt, db) s)
      choose true =
          entered-Reaches (record c { status = route.through }) (enter env route call c db) s
            (own c d refl)
      choose false = entered-Reaches c (ok tt, db) s (own c d refl)

  pub settle-Reaches : (s : S) (db : Db) → Reaches (settle env route call id s db)
  unfolding settle get_by_id
  settle-Reaches s db =
      fetched-Reaches (get_by_id (env.fails Phase.entering Site.get_contract) id db) s db
        (λ c d e. find_key contract_key id db.contracts c (ground arith))

module _ {S : Type 0} where
  -- the answer shows contract `id`, as it is in the table afterwards and with status `to`
  abbrev pub Shows : Uuid → Status → Answer × S × Db → Type 0
  Shows id to (a, s, db) =
      (c : Contract) × (a.body ≡ contract_json c)
      × (find_contract id db.contracts ≡ some c)
      × (c.status ≡ to)

  -- a handler leaves what its saga method left
  abbrev pub Leaves : Answer × S × Db → Result (Unit {0}) × S × Db → Type 0
  Leaves (a, s, db) (r, s', db') = (s ≡ s') × (db ≡ db')

  answered-Shows :
      (reads : Reads) (id : Uuid) (to : Status) (other : Answer) (x : Result (Unit {0}) × S × Db)
      → (x.0 ≡ ok tt → At id to x.2)
      → other.status ≢ 200
      → (answered reads id other x).0.status ≡ 200
      → Shows id to (answered reads id other x) × Leaves (answered reads id other x) x
  unfolding get_by_id
  answered-Shows reads id to other (ok _, s, db) at no_ok is_ok =
      let (c, found, status) = at refl in ((c, ground arith, found, status), (refl, refl))
  answered-Shows reads id to other (err e, s, db) at no_ok is_ok = absurd (failed e is_ok)
    where
      failed : (e : SagaError) → (error_answer other e).status ≢ 200
      failed contract_not_found = no_ok
      failed status_conflict = ground arith
      failed other_error = no_ok

  module _ (reads : Reads) (id : Uuid) (to : Status) (other : Answer)
      (method : S → Db → Result (Unit {0}) × S × Db) (s : S) (db : Db)
      (at : (method s db).0 ≡ ok tt → At id to (method s db).2) (no_ok : other.status ≢ 200) where
    looked_up-Shows :
        (x : Result (Contract × Db))
        → (looked_up reads id other method x s db).0.status ≡ 200
        → Shows id to (looked_up reads id other method x s db)
          × Leaves (looked_up reads id other method x s db) (method s db)
    looked_up-Shows (ok _) is_ok = answered-Shows reads id to other (method s db) at no_ok is_ok
    looked_up-Shows (err contract_not_found) is_ok = absurd (ground arith)
    looked_up-Shows (err status_conflict) is_ok = absurd (ground arith)
    looked_up-Shows (err other_error) is_ok = absurd (ground arith)

    pub change-Shows :
        (change reads id other method s db).0.status ≡ 200
        → Shows id to (change reads id other method s db)
          × Leaves (change reads id other method s db) (method s db)
    unfolding change
    change-Shows = looked_up-Shows (get_by_id reads.first_fails id db)

module _ {S : Type 0} (view : S → Uuid → Option Escrow) where
  -- the answer shows the contract with a status, and its hold is in the given state
  abbrev pub Reports : Uuid → Status → HoldState → Answer × S × Db → Type 0
  Reports id to state (a, s, db) =
      (c : Contract) × (a.body ≡ contract_json c)
      × (find_contract id db.contracts ≡ some c)
      × (c.status ≡ to)
      × (b : Backed view s c) × (b.escrow.state ≡ state)

  pub Shows-Reports :
      (id : Uuid) (to : Status) (state : HoldState) (x : Answer × S × Db)
      (y : Result (Unit {0}) × S × Db)
      → needs_hold to ≡ true
      → ((h : HoldState) → allows to h ≡ true → h ≡ state)
      → Leaves x y
      → IsConsistent view y.1 y.2
      → Shows id to x
      → Reports id to state x
  Shows-Reports id to state (a, s, db) (r, s', db') need only (es, ed) good (c, body, found, at) =
      let good' : IsConsistent view s db =
        subst (λ t. IsConsistent view t db) (sym es)
          (subst (λ d. IsConsistent view s' d) (sym ed) good) in
      let b = good' id c found (ap needs_hold at ∙ need) in
      (
        c,
        body,
        found,
        at,
        b,
        only b.escrow.state (ap (λ t. allows t b.escrow.state) (sym at) ∙ b.allowed),
      )
