-- ===== src/Contracts/Stores.antt =====
-- The SQL statements of contract_store.go, milestone_store.go and outbox.go with the constraints of
-- services/contracts/migrations, and database transactions.
use hire_flow.Prelude.{ℕ, Bool, false, ◌||◌, Option, none, some, List, [], ◌∷◌, not, if◌then◌else◌}
use hire_flow.Prelude.Int.{pos, leb_ℤ}
use hire_flow.Prelude.Table.{find, update, is_some}
use hire_flow.Contracts.Types.{
  Uuid, Status, same_status, Contract, Milestone, Entry, Db, contract_not_found, status_conflict,
  other_error, Result, ok, err, durable, refused, unacknowledged, Commit,
}

abbrev pub contract_key : Contract → Uuid
contract_key c = c.id

abbrev pub milestone_key : Milestone → Uuid
milestone_key m = m.id

abbrev pub entry_key : Entry → Uuid
entry_key e = e.id

abbrev pub find_contract : Uuid → List Contract → Option Contract
find_contract = find contract_key

-- A statement or a chain of them: the result with the rows as they then are, or an error.
abbrev pub Sql : Type 0 → Type 0
Sql A = Db → Result (A × Db)

infixl 5 ◌>>=◌ ◌>>◌
abbrev next : {A B : Type 0} → Result (A × Db) → (A → Sql B) → Result (B × Db)
next (ok (a, db)) f = f a db
next (err e) f = err e

abbrev pub ◌>>=◌ : {A B : Type 0} → Sql A → (A → Sql B) → Sql B
◌>>=◌ m f db = next (m db) f

abbrev pub ◌>>◌ : {A B : Type 0} → Sql A → Sql B → Sql B
m >> k = m >>= λ _. k

-- the columns that `INSERT INTO contracts` leaves to their defaults
abbrev pub inserted : ℕ → Contract → Contract
inserted now c = record c { hold_id = none; created_at = now; updated_at = now }

unfoldable pub create_contract_row : Bool → ℕ → Contract → Sql (Unit {0})
create_contract_row fails now c db =
    if fails || leb_ℤ c.amount (pos 0) || is_some (find_contract c.id db.contracts)
    then err other_error
    else ok (tt, record db { contracts = inserted now c ∷ db.contracts })

abbrev found : Option Contract → Db → Result (Contract × Db)
found none db = err contract_not_found
found (some c) db = ok (c, db)

unfoldable pub get_by_id : Bool → Uuid → Sql Contract
get_by_id fails id db = if fails then err other_error else found (find_contract id db.contracts) db

abbrev pub set_status : Status → ℕ → Contract → Contract
set_status to now c = record c { status = to; updated_at = now }

abbrev has_status : Status → Option Contract → Bool
has_status from none = false
has_status from (some c) = same_status c.status from

-- `UPDATE contracts SET status = ? WHERE id = ? AND status = ?`; no row is a conflict
unfoldable pub update_status : Bool → Uuid → Status → Status → ℕ → Sql (Unit {0})
update_status fails id from to now db =
    if fails
    then err other_error
    else if has_status from (find_contract id db.contracts)
    then ok (tt, record db { contracts = update contract_key id (set_status to now) db.contracts })
    else err status_conflict

abbrev pub set_hold : Uuid → ℕ → Contract → Contract
set_hold hold_id now c = record c { hold_id = some hold_id; updated_at = now }

unfoldable pub set_hold_id : Bool → Uuid → Uuid → ℕ → Sql (Unit {0})
set_hold_id fails id hold_id now db =
    if fails
    then err other_error
    else ok
        (tt, record db { contracts = update contract_key id (set_hold hold_id now) db.contracts })

-- one round of the loop of `CreateBatch`
unfoldable pub create_milestone_row : Bool → Milestone → Sql (Unit {0})
create_milestone_row fails m db =
    if fails
      || leb_ℤ m.amount (pos 0)
      || is_some (find milestone_key m.id db.milestones)
      || not (is_some (find_contract m.contract_id db.contracts))
    then err other_error
    else ok (tt, record db { milestones = m ∷ db.milestones })

-- `CreateBatch`; a failure in any round is the failure of all, since the transaction rolls back
unfoldable pub create_batch : Bool → List Milestone → Sql (Unit {0})
create_batch fails [] db = ok (tt, db)
create_batch fails (m ∷ ms) db = next (create_milestone_row fails m db) (λ _. create_batch fails ms)

unfoldable pub insert_entry : Bool → Entry → Sql (Unit {0})
insert_entry fails e db =
    if fails || is_some (find entry_key e.id db.outbox)
    then err other_error
    else ok (tt, record db { outbox = e ∷ db.outbox })

-- the end of a transaction, or of a statement by itself
abbrev pub finish : {A : Type 0} → Commit → Result (A × Db) → Db → Result A × Db
finish c (err e) before = (err e, before)
finish durable (ok (a, after)) before = (ok a, after)
finish refused (ok (a, after)) before = (err other_error, before)
finish unacknowledged (ok (a, after)) before = (err other_error, after)

unfoldable pub run_tx : {A : Type 0} → Bool → Commit → Sql A → Db → Result A × Db
run_tx begin_fails c body db = if begin_fails then (err other_error, db) else finish c (body db) db
