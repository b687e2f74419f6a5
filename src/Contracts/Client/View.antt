-- ===== src/Contracts/Client/View.antt =====
-- The table of holds, as the saga sees it, and what the client makes of an answer.
use mathlib.Core.Option.{some-injective}
use hire_flow.Payments.Stores.{find_hold, set_status}
use hire_flow.Prelude.{◌≡◌, ◌≢◌, refl, ap, inl, inr, false, Option, none, some, ◌==◌}
use hire_flow.Prelude.Int.{pos}
use hire_flow.Prelude.Table.{map_option}
use hire_flow.Payments.Types.{Hold, HoldStatus, active, released, transferred, Response}
use hire_flow.Payments.Types as Payments
use hire_flow.Payments.Stores.{find_hold, set_status}
use hire_flow.Payments.Refinement.Holds.{SettlesHold}
use hire_flow.Contracts.Types.{Uuid}
use hire_flow.Contracts.Escrow.{HoldState, held, paid, returned, Escrow, Settles}
use hire_flow.Contracts.Client.{Network, unreached, unanswered, answered, hold_answer, done_answer}

abbrev pub state_of : HoldStatus → HoldState
state_of active = held
state_of released = returned
state_of transferred = paid

abbrev pub escrow_of : Hold → Escrow
escrow_of h = record {
  state = state_of h.status;
  wallet_id = h.wallet_id;
  amount = pos h.amount;
  contract_id = h.contract_id;
}

-- the table of holds, as the saga sees it
abbrev pub view : Payments.Db → Uuid → Option Escrow
view db id = map_option escrow_of (find_hold id db.holds)

pub seen_hold :
    (o : Option Hold) (e : Escrow)
    → map_option escrow_of o ≡ some e
    → (h : Hold) × (o ≡ some h) × (escrow_of h ≡ e)
seen_hold none e seen = cc
seen_hold (some h) e seen = (h, refl, some-injective _ _ seen)

-- what the client makes of a settlement: it may learn less than happened, never more
pub done_answer-Settles :
    (net : Network) (to : HoldStatus) (id : Uuid) (db : Payments.Db) (x : Response × Payments.Db)
    → SettlesHold to id db x
    → Settles view (state_of to) id (done_answer net x).0 db (done_answer net x).1
done_answer-Settles net to id db (r, after) (others, settled) = learned net
  where
    elsewhere : (k : Uuid) → k ≢ id → view after k ≡ view db k
    elsewhere k ne = ap (map_option escrow_of) (others k ne)

    happened :
        (h : Hold)
        → find_hold id db.holds ≡ some h
        → h.status ≡ active
        → find_hold id after.holds ≡ some (set_status to h)
        → (e : Escrow) × (view db id ≡ some e)
          × (e.state ≡ held)
          × (view after id ≡ some (record e { state = state_of to }))
    happened h before live now = (
      escrow_of h,
      ap (map_option escrow_of) before,
      ap state_of live,
      ap (map_option escrow_of) now,
    )

    known : Settles view (state_of to) id (r.status == 200) db after
    known = elim settled [
      | inl (other_status, kept) ↦ (elsewhere, inl (other_status, ap (map_option escrow_of) kept))
      | inr (h, before, live, now) ↦ (elsewhere, inr (happened h before live now))
    ]

    unknown : Settles view (state_of to) id false db after
    unknown = elim settled [
      | inl (other_status, kept) ↦ (elsewhere, inl (refl, ap (map_option escrow_of) kept))
      | inr (h, before, live, now) ↦ (elsewhere, inr (happened h before live now))
    ]

    learned :
        (n : Network)
        → Settles view (state_of to) id (done_answer n (r, after)).0 db (done_answer n (r, after)).1
    learned answered = known
    learned unanswered = unknown
    learned unreached = unknown

pub nothing_settled :
    (to : HoldState) (id : Uuid) (db : Payments.Db) → Settles view to id false db db
nothing_settled to id db = ((λ k ne. refl), inl (refl, refl))

pub done_answer_db : (net : Network) (x : Response × Payments.Db) → (done_answer net x).1 ≡ x.1
done_answer_db answered (r, db) = refl
done_answer_db unanswered (r, db) = refl
done_answer_db unreached (r, db) = refl

pub hold_answer_db : (net : Network) (x : Response × Payments.Db) → (hold_answer net x).1 ≡ x.1
hold_answer_db answered (r, db) = refl
hold_answer_db unanswered (r, db) = refl
hold_answer_db unreached (r, db) = refl
