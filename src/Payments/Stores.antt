-- ===== src/Payments/Stores.antt =====
-- The SQL statements of the stores (hold_store.go, wallet_store.go, transaction_store.go, and
-- `Insert` of pkg/outbox/store.go) with the constraints of services/payments/migrations. A store
-- takes first whether the call fails; `none` is an error, after which the handlers roll back.
use hire_flow.Prelude.{
  ℕ, Bool, true, false, ◌&&◌, ◌||◌, Option, none, some, List, ◌∷◌, not, ◌==◌, if◌then◌else◌,
}
use hire_flow.Prelude.Int.{ℤ, pos, pos_part, leb_ℤ, sub_ℕ}
use hire_flow.Prelude.Table.{find, update, sum_by, is_some, map_option}
use hire_flow.Payments.Types.{
  Uuid, WalletRow, Wallet, HoldStatus, active, Hold, Transaction, Entry, Db,
}
use hire_flow.Payments.Tx.{Fetch, row, no_rows, failed}

-- the primary keys
abbrev pub wallet_key : WalletRow → Uuid
wallet_key w = w.id

abbrev pub hold_key : Hold → Uuid
hold_key h = h.id

abbrev pub transaction_key : Transaction → Uuid
transaction_key t = t.id

abbrev pub entry_key : Entry → Uuid
entry_key e = e.id

abbrev pub find_wallet : Uuid → List WalletRow → Option WalletRow
find_wallet = find wallet_key

abbrev pub find_hold : Uuid → List Hold → Option Hold
find_hold = find hold_key

abbrev pub is_active : HoldStatus → Bool
is_active active = true
is_active _ = false

-- what one hold takes from the available balance of a wallet
abbrev pub held_by : Uuid → Hold → ℕ
held_by wallet h = if is_active h.status && h.wallet_id == wallet then h.amount else 0

-- `SELECT COALESCE(SUM(amount), 0) FROM holds WHERE wallet_id = $1 AND status = 'active'`
unfoldable pub sum_active_by_wallet : Uuid → List Hold → ℕ
sum_active_by_wallet wallet holds = sum_by (held_by wallet) holds

-- the columns that the queries for a wallet select
abbrev pub with_available : List Hold → WalletRow → Wallet
with_available holds w = record {
  row = w;
  available_balance = sub_ℕ w.balance (sum_active_by_wallet w.id holds);
}

abbrev pub fetch_row : {A : Type 0} → Bool → Option A → Fetch A
fetch_row true r = failed
fetch_row false none = no_rows
fetch_row false (some a) = row a

unfoldable pub get_wallet_for_update : Bool → Uuid → Db → Fetch Wallet
get_wallet_for_update fails id db =
    fetch_row fails (map_option (with_available db.holds) (find_wallet id db.wallets))

unfoldable pub get_hold_for_update : Bool → Uuid → Db → Fetch Hold
get_hold_for_update fails id db = fetch_row fails (find_hold id db.holds)

abbrev pub set_balance : ℕ → ℕ → WalletRow → WalletRow
set_balance n now w = record w { balance = n; updated_at = now }

unfoldable pub update_balance : Bool → Uuid → ℤ → ℕ → Db → Option (Unit {0} × Db)
update_balance fails id new_balance now db =
    if fails || not (leb_ℤ (pos 0) new_balance)
    then none
    else some (
      tt,
      record db {
        wallets = update wallet_key id (set_balance (pos_part new_balance) now) db.wallets;
      },
    )

abbrev pub new_hold_row : Uuid → ℕ → Uuid → ℕ → Uuid → Hold
new_hold_row id now wallet_id amount contract_id = record {
  id = id;
  wallet_id = wallet_id;
  amount = amount;
  status = active;
  contract_id = contract_id;
  created_at = now;
  expires_at = none;
}

unfoldable pub create_hold_row : Bool → Uuid → ℕ → Uuid → ℤ → Uuid → Db → Option (Hold × Db)
create_hold_row fails id now wallet_id amount contract_id db =
    if fails
      || leb_ℤ amount (pos 0)
      || not (is_some (find_wallet wallet_id db.wallets))
      || is_some (find_hold id db.holds)
    then none
    else let h = new_hold_row id now wallet_id (pos_part amount) contract_id in
      some (h, record db { holds = h ∷ db.holds })

abbrev pub set_status : HoldStatus → Hold → Hold
set_status status h = record h { status = status }

unfoldable pub set_hold_status : Bool → Uuid → HoldStatus → Db → Option (Unit {0} × Db)
set_hold_status fails id status db =
    if fails
    then none
    else some (tt, record db { holds = update hold_key id (set_status status) db.holds })

-- the foreign key `hold_id`, which may be null
abbrev hold_exists : Option Uuid → List Hold → Bool
hold_exists none holds = true
hold_exists (some id) holds = is_some (find_hold id holds)

-- the row of `t` has the id and the time that the database chooses
unfoldable pub create_transaction : Bool → Uuid → ℕ → Transaction → Db → Option (Transaction × Db)
create_transaction fails id now t db =
    if fails
      || not (is_some (find_wallet t.wallet_id db.wallets))
      || not (hold_exists t.hold_id db.holds)
      || is_some (find transaction_key id db.transactions)
    then none
    else let created = record t { id = id; created_at = now } in
      some (created, record db { transactions = created ∷ db.transactions })

unfoldable pub insert_entry : Bool → Entry → Db → Option (Unit {0} × Db)
insert_entry fails e db =
    if fails || is_some (find entry_key e.id db.outbox)
    then none
    else some (tt, record db { outbox = e ∷ db.outbox })
