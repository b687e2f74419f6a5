-- ===== src/Contracts/Consistency/Effects.antt =====
-- The effects of a transaction and the calls of the payments service, and consistency.
use mathlib.Core.Path.{subst}
use mathlib.Core.Option.{some-injective}
use hire_flow.Prelude.{
  ℕ, ◌≡◌, refl, sym, ◌∙◌, inl, inr, Bool, true, Option, some, arith, Bool-cases, ◌==◌, ap,
}
use hire_flow.Prelude.Table.{find-update, find_key, update}
use hire_flow.Contracts.Types.{Uuid, Status, hold_pending, Contract, Db}
use hire_flow.Contracts.Stores.{contract_key, find_contract, set_status, set_hold}
use hire_flow.Contracts.Spec.{Inserted, Advanced, Confirmed}
use hire_flow.Contracts.Escrow.{HoldState, held, Escrow, Keeps, Settles}
use hire_flow.Contracts.Consistency.{needs_hold, allows, Matches, Backed, IsConsistent}

-- Whatever state a hold may be in before, it may be in after.
pub record Weakens (from to : Status) : Type 0 where
  pub need : needs_hold to ≡ true → needs_hold from ≡ true
  pub state : (e : HoldState) → needs_hold to ≡ true → allows from e ≡ true → allows to e ≡ true

module _ {S : Type 0} (view : S → Uuid → Option Escrow) where
  Consistent_same :
      (s : S) (db after : Db)
      → after.contracts ≡ db.contracts
      → IsConsistent view s db
      → IsConsistent view s after
  Consistent_same s db after same h id c e n =
      h id c (subst (λ x. find_contract id x ≡ some c) same e) n

  pub Inserted-IsConsistent :
      (s : S) (row : Contract) (db after : Db)
      → Inserted row db after
      → IsConsistent view s db
      → IsConsistent view s after
  Inserted-IsConsistent s row db after i h id c e n = elim (Bool-cases (row.id == id)) [
    | inl this ↦ absurd (ground (arith, i.rows, i.new))
    | inr other ↦ h id c (ground (arith, i.rows)) n
  ]

  -- a change of the status alone
  pub Backed-set_status :
      (s : S) (to : Status) (now : ℕ) (row : Contract) (b : Backed view s row)
      → allows to b.escrow.state ≡ true
      → Backed view s (set_status to now row)
  Backed-set_status s to now row b may = record {
    hold = b.hold;
    escrow = b.escrow;
    has = b.has;
    seen = b.seen;
    match = record {
      contract = b.match.contract;
      wallet = b.match.wallet;
      amount = b.match.amount;
    };
    allowed = may;
  }

  -- an advance to a status that the hold of the contract allows
  pub Advanced-IsConsistent :
      (s : S) (id : Uuid) (from to : Status) (db after : Db) (a : Advanced id from to db after)
      → (needs_hold to ≡ true → Backed view s (set_status to a.at a.row))
      → IsConsistent view s db
      → IsConsistent view s after
  Advanced-IsConsistent s id from to db after a backed h k c e n =
      let found = find-update contract_key (set_status to a.at) (λ x. refl) id k db.contracts in
      elim (Bool-cases (id == k)) [
        | inl this ↦
            let same : c ≡ set_status to a.at a.row = ground (arith, a.rows, a.found) in
            subst (Backed view s) (sym same)
              (backed (sym (ap (λ (x : Contract). needs_hold x.status) same) ∙ n))
        | inr other ↦ h k c (ground (arith, a.rows)) n
      ]

  -- an advance between statuses, the second of which allows what the first does
  pub Advanced_weak :
      (s : S) (id : Uuid) (from to : Status) (db after : Db)
      → Advanced id from to db after
      → Weakens from to
      → IsConsistent view s db
      → IsConsistent view s after
  Advanced_weak s id from to db after a weak h =
      Advanced-IsConsistent s id from to db after a
        (λ n.
          let b = h id a.row a.found (ap needs_hold a.here ∙ weak.need n) in
          Backed-set_status s to a.at a.row b (
            weak.state b.escrow.state n
              (ap (λ x. allows x b.escrow.state) (sym a.here) ∙ b.allowed)))
        h

  pub Confirmed-IsConsistent :
      (s : S) (id h : Uuid) (db after : Db) (x : Confirmed id h db after)
      → (e : Escrow) → view s h ≡ some e
      → e.state ≡ held
      → Matches x.row e
      → IsConsistent view s db
      → IsConsistent view s after
  Confirmed-IsConsistent s id h db after x e seen fresh match ok k c found n =
      let first =
        find-update contract_key (set_status hold_pending x.at) (λ y. refl) id k db.contracts in
      let second =
        find-update contract_key (set_hold h x.at) (λ y. refl) id k
          (update contract_key id (set_status hold_pending x.at) db.contracts) in
      elim (Bool-cases (id == k)) [
        | inl this ↦
            let same : c ≡ set_hold h x.at (set_status hold_pending x.at x.row) =
              ground (arith, x.rows, x.found) in
            subst (Backed view s) (sym same) (record {
              hold = h;
              escrow = e;
              has = refl;
              seen = seen;
              match = record {
                contract = match.contract;
                wallet = match.wallet;
                amount = match.amount;
              };
              allowed = ap (allows hold_pending) fresh;
            })
        | inr other ↦ ok k c (ground (arith, x.rows)) n
      ]

  pub Keeps-IsConsistent :
      (s s' : S) (db : Db) → Keeps view s s' → IsConsistent view s db → IsConsistent view s' db
  Keeps-IsConsistent s s' db keep ok k c found n =
      let b = ok k c found n in
      record {
        hold = b.hold;
        escrow = b.escrow;
        has = b.has;
        seen = keep b.hold b.escrow b.seen;
        match = b.match;
        allowed = b.allowed;
      }

  -- A settlement of the hold of a contract whose status allows both outcomes.
  pub Settles-IsConsistent :
      (s s' : S) (db : Db) (id h : Uuid) (row : Contract) (to : HoldState) (b : Bool)
      → find_contract id db.contracts ≡ some row
      → row.hold_id ≡ some h
      → needs_hold row.status ≡ true
      → allows row.status to ≡ true
      → Settles view to h b s s'
      → IsConsistent view s db
      → IsConsistent view s' db
  Settles-IsConsistent s s' db id h row to b found has need may (others, settled) ok k c e n =
      let mine = ok id row found need in
      let theirs = ok k c e n in
      elim (Bool-cases (theirs.hold == h)) [
        | inl this ↦
            let at_h : theirs.hold ≡ h = ground arith in
            let one_hold : theirs.escrow ≡ mine.escrow = some-injective _ _ (
              sym theirs.seen
              ∙ ap (view s) (at_h ∙ some-injective _ _ (sym has ∙ mine.has))
              ∙ mine.seen) in
            let c_id = find_key contract_key k db.contracts c e in
            let row_id = find_key contract_key id db.contracts row found in
            let ids : k ≡ id =
              sym c_id
              ∙ sym theirs.match.contract
              ∙ ap (λ (x : Escrow). x.contract_id) one_hold
              ∙ mine.match.contract
              ∙ row_id in
            let same : c ≡ row =
              some-injective _ _ (sym e ∙ ap (λ j. find_contract j db.contracts) ids ∙ found) in
            elim settled [
              | inl (_, kept) ↦ record {
                hold = theirs.hold;
                escrow = theirs.escrow;
                has = theirs.has;
                seen = ap (view s') at_h ∙ kept ∙ sym (ap (view s) at_h) ∙ theirs.seen;
                match = theirs.match;
                allowed = theirs.allowed;
              }
              | inr (e', before, _, after) ↦
                  let was : e' ≡ theirs.escrow =
                    some-injective _ _ (sym before ∙ sym (ap (view s) at_h) ∙ theirs.seen) in
                  record {
                    hold = theirs.hold;
                    escrow = record e' { state = to };
                    has = theirs.has;
                    seen = ap (view s') at_h ∙ after;
                    match = record {
                      contract = ap (λ (x : Escrow). x.contract_id) was ∙ theirs.match.contract;
                      wallet = ap (λ (x : Escrow). x.wallet_id) was ∙ theirs.match.wallet;
                      amount = ap (λ (x : Escrow). x.amount) was ∙ theirs.match.amount;
                    };
                    allowed = ap (λ (x : Contract). allows x.status to) same ∙ may;
                  }
            ]
        | inr other ↦ record {
          hold = theirs.hold;
          escrow = theirs.escrow;
          has = theirs.has;
          seen = others theirs.hold (ground arith) ∙ theirs.seen;
          match = theirs.match;
          allowed = theirs.allowed;
        }
      ]
