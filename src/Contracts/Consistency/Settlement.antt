-- ===== src/Contracts/Consistency/Settlement.antt =====
-- The course of `CompleteContract` and `CancelContract` (saga.go), and the consistency with the
-- payments service.
use mathlib.Core.Bool.{false≢true}
use hire_flow.Prelude.{
  ◌≡◌, refl, sym, ap, ◌∙◌, inl, inr, Bool, true, false, Option, none, some, arith, if◌then◌else◌,
}
use hire_flow.Prelude.Table.{find-update, find_key, find_own}
use hire_flow.Contracts.Types.{
  Uuid, Status, Contract, Db, Result, ok, err, status_conflict, Env, Site, Phase, same_status,
}
use hire_flow.Contracts.Stores.{contract_key, get_by_id, find_contract, set_status}
use hire_flow.Contracts.Saga.{Route, enter, settle, settled, with_hold, entered, fetched}
use hire_flow.Contracts.Spec.{Advanced}
use hire_flow.Contracts.Refinement.Rows.{Outcome, unchanged, happened, same_status_eq}
use hire_flow.Contracts.Refinement.Methods.{update-Outcome, leave-Outcome}
use hire_flow.Contracts.Escrow.{HoldState, Escrow, Settles}
use hire_flow.Contracts.Consistency.{needs_hold, allows, IsConsistent}
use hire_flow.Contracts.Consistency.Effects.{
  Weakens, Advanced_weak, Advanced-IsConsistent, Backed-set_status, Settles-IsConsistent,
}

module _ {S : Type 0} (view : S → Uuid → Option Escrow) where
  pub weak_outcome :
      {A : Type 0} (s : S) (id : Uuid) (from to : Status) (db : Db) {x : Result A × Db}
      → Weakens from to
      → Outcome (Advanced id from to db) db x
      → IsConsistent view s db
      → IsConsistent view s x.1
  weak_outcome s id from to db weak (unchanged e) good = good
  weak_outcome s id from to db weak (happened r after a) good =
      Advanced_weak view s id from to db after a weak good

-- How a route of the saga and a call of the payments service fit together.
pub record Fits (route : Route) (to : HoldState) : Type 0 where
  pub weak : Weakens route.start route.through
  pub need : needs_hold route.through ≡ true
  pub during : allows route.through to ≡ true
  pub after : allows route.goal to ≡ true

-- the row of `c`, as the method holds it, is in the table with the status in which the method calls
record Stands (route : Route) (c : Contract) (db : Db) : Type 0 where
  row : Contract
  found : find_contract c.id db.contracts ≡ some row
  status : row.status ≡ route.through
  hold : row.hold_id ≡ c.hold_id

module _ {S : Type 0} (view : S → Uuid → Option Escrow) (IsOk : S → Type 0) (env : Env)
    (route : Route) (to : HoldState) (fits : Fits route to) (call : Uuid → Contract → S → Bool × S)
    (law : (h : Uuid) (c : Contract) (s : S)
      → IsOk s
      → IsOk (call h c s).1 × Settles view to h (call h c s).0 s (call h c s).1) where
  abbrev Sound : S → Db → Type 0
  Sound s db = IsOk s × IsConsistent view s db

  left :
      (c : Contract) (h : Uuid) (s : S) (db : Db) (e : Escrow) (r : Result (Unit {0}) × Db)
      → c.hold_id ≡ some h
      → view s h ≡ some e
      → e.state ≡ to
      → Stands route c db
      → IsConsistent view s db
      → Outcome (Advanced c.id route.through route.goal db) db r
      → IsConsistent view s r.1
  left c h s db e r has seen state stands good (unchanged x) = good
  left c h s db e r has seen state stands good (happened x after a) =
      Advanced-IsConsistent view s c.id route.through route.goal db after a
        (λ n.
          let b = good c.id a.row a.found (ap needs_hold a.here ∙ fits.need) in
          Backed-set_status view s route.goal a.at a.row b (ground (arith, fits.after)))
        good

  answered :
      (c : Contract) (h : Uuid) (s : S) (x : Bool × S) (db : Db)
      → c.hold_id ≡ some h
      → Stands route c db
      → IsConsistent view s db
      → IsOk x.1
      → Settles view to h x.0 s x.1
      → let (r, s', db') = settled env route call c x db in Sound s' db'
  answered c h s (b, s') db has stands good fine settles =
      let steady =
        Settles-IsConsistent view s s' db c.id h stands.row to b stands.found (stands.hold ∙ has)
          (ap needs_hold stands.status ∙ fits.need)
          (ap (λ x. allows x to) stands.status ∙ fits.during) settles good in
      go b steady settles
    where
      go :
          (b : Bool)
          → IsConsistent view s' db
          → Settles view to h b s s'
          → let (r, s'', db') = settled env route call c (b, s') db in Sound s'' db'
      go false steady settles = (fine, steady)
      go true steady (others, inl (no_answer, kept)) = absurd (false≢true (sym no_answer))
      go true steady (others, inr (e, before, was, after)) = (
        fine,
        left c h s' db (record e { state = to }) _ has after refl stands steady
            (leave-Outcome env c route.through route.goal route.event db),
      )

  with_hold-Sound :
      (c : Contract) (o : Option Uuid) (s : S) (db : Db)
      → c.hold_id ≡ o
      → Stands route c db
      → Sound s db
      → let (r, s', db') = with_hold env route call c o s db in Sound s' db'
  with_hold-Sound c none s db has stands sound = sound
  with_hold-Sound c (some h) s db has stands (fine, good) =
      let (fine', settles) = law h c s fine in
      answered c h s (call h c s) db has stands good fine' settles

  entered-Sound :
      (c : Contract) (x : Result (Unit {0}) × Db) (s : S)
      → (x.0 ≡ ok tt → same_status c.status route.through ≡ true → Stands route c x.1)
      → Sound s x.1
      → let (r, s', db') = entered env route call c x s in Sound s' db'
  entered-Sound c (err e, db) s stands sound = sound
  entered-Sound c (ok _, db) s stands sound = choose (same_status c.status route.through) refl
    where
      choose :
          (b : Bool)
          → same_status c.status route.through ≡ b
          → let (r, s', db') : Result (Unit {0}) × S × Db =
              if b
              then with_hold env route call c c.hold_id s db
              else (err status_conflict, s, db) in
            Sound s' db'
      choose true e = with_hold-Sound c c.hold_id s db refl (stands refl e) sound
      choose false e = sound

  -- the row after the first update
  entered_row :
      (id : Uuid) (c : Contract) (db : Db) (x : Result (Unit {0}) × Db)
      → find_contract id db.contracts ≡ some c
      → Outcome (Advanced c.id route.start route.through db) db x
      → x.0 ≡ ok tt
      → Stands route (record c { status = route.through }) x.1
  entered_row id c db x found (unchanged e) r = cc
  entered_row id c db x found (happened r after a) done =
      let key = find_key contract_key id db.contracts c found in
      let own : find_contract c.id db.contracts ≡ some c =
        find_own contract_key id db.contracts c found in
      let moved =
        find-update contract_key (set_status route.through a.at) (λ y. refl) c.id c.id
          db.contracts in
      record {
        row = set_status route.through a.at c;
        found = ground (arith, a.rows);
        status = refl;
        hold = refl;
      }

  first_update :
      (id : Uuid) (c : Contract) (s : S) (db : Db)
      → find_contract id db.contracts ≡ some c
      → IsConsistent view s db
      → IsConsistent view s (enter env route call c db).1
        × ((enter env route call c db).0 ≡ ok tt
            → Stands route (record c { status = route.through }) (enter env route call c db).1)
  unfolding enter
  first_update id c s db found good =
      let result = update-Outcome env c.id route.start route.through db in
      (
        weak_outcome view s c.id route.start route.through db fits.weak result good,
        entered_row id c db _ found result,
      )

  fetched-Sound :
      (id : Uuid) (x : Result (Contract × Db)) (s : S) (db : Db)
      → ((c : Contract) (d : Db) → x ≡ ok (c, d) → find_contract id db.contracts ≡ some c)
      → Sound s db
      → let (r, s', db') = fetched env route call x s db in Sound s' db'
  fetched-Sound id (err e) s db found sound = sound
  fetched-Sound id (ok (c, d)) s db found (fine, good) = choose (same_status c.status route.start)
    where
      choose :
          (b : Bool)
          → let (r, s', db') : Result (Unit {0}) × S × Db =
              if b
              then entered env route call
                  (record c { status = route.through })
                  (enter env route call c db)
                  s
              else entered env route call c (ok tt, db) s in
            Sound s' db'
      choose true =
          let (good', stands) = first_update id c s db (found c d refl) good in
          entered-Sound (record c { status = route.through }) (enter env route call c db) s
            (λ done _. stands done) (fine, good')
      choose false =
          entered-Sound c (ok tt, db) s
            (λ _ same. record {
              row = c;
              found = find_own contract_key id db.contracts c (found c d refl);
              status = same_status_eq c.status route.through same;
              hold = refl;
            })
            (fine, good)

  get_by_id_found :
      (fails : Bool) (id : Uuid) (db : Db) (c : Contract) (d : Db)
      → get_by_id fails id db ≡ ok (c, d)
      → find_contract id db.contracts ≡ some c
  unfolding get_by_id
  get_by_id_found fails id db c d e = ground arith

  pub settle-Sound :
      (id : Uuid) (s : S) (db : Db)
      → Sound s db
      → let (r, s', db') = settle env route call id s db in Sound s' db'
  unfolding settle
  settle-Sound id s db sound =
      fetched-Sound id _ s db (get_by_id_found (env.fails Phase.entering Site.get_contract) id db)
        sound
