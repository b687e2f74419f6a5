-- ===== src/Payments/Queries.antt =====
-- The read-only routes of the payments service, GetWallet and ListWallets (handler.go), with their
-- statements and `Seed` (wallet_store.go).
pub mod Pages
pub mod Joining
pub mod Seeding
mod Tests
use hire_flow.Prelude.{
  ℕ, String, Bool, true, false, ◌||◌, Option, none, some, List, [], ◌∷◌, map, not, if◌then◌else◌,
}
use hire_flow.Prelude.Int.{ℤ, pos, pos_part, leb_ℤ, ltb_ℤ}
use hire_flow.Prelude.Table.{find, is_some, length, map_option}
use hire_flow.Prelude.Paging.{newest, page}
use hire_flow.Payments.Types.{
  Uuid, WalletRow, Wallet, Db, Env, Site, Response, wallet_json, wallets_json, invalid_user_id,
  invalid_limit, invalid_offset, wallet_not_found,
}
use hire_flow.Payments.Tx.{Fetch, row, no_rows, failed, internal_error}
use hire_flow.Payments.Stores.{find_wallet, with_available}
use hire_flow.Payments.Handlers.{fail}

abbrev pub user_key : WalletRow → Uuid
user_key w = w.user_id

-- `wallets.user_id` is unique
unfoldable pub get_by_user_id : Bool → Uuid → Db → Fetch Wallet
get_by_user_id fails user db =
    if fails
    then failed
    else elim (map_option (with_available db.holds) (find user_key user db.wallets)) [
      | none ↦ no_rows
      | some w ↦ row w
    ]

-- the bound that `ListAll` puts on its limit
abbrev pub page_limit : ℤ → ℕ
page_limit n = if leb_ℤ n (pos 0) || ltb_ℤ (pos 100) n then 20 else pos_part n

abbrev pub created_at : WalletRow → ℕ
created_at w = w.created_at

-- The order in which the database comes upon the rows of one query, which `ORDER BY created_at DESC`
-- leaves to rows of the same time. Another query may have another one.
abbrev pub Scan : Type 0
Scan = List WalletRow → List WalletRow

-- a negative OFFSET is an error
unfoldable pub list_all : Bool → Scan → ℤ → ℤ → Db → Option (List Wallet)
list_all fails scan limit offset db =
    if fails || ltb_ℤ offset (pos 0)
    then none
    else some (
        map (with_available db.holds)
          (page (page_limit limit) (pos_part offset) (newest created_at (scan db.wallets))))

unfoldable pub count : Bool → Db → Option ℕ
count fails db = if fails then none else some (length db.wallets)

-- `INSERT … ON CONFLICT (user_id) DO UPDATE SET balance = wallets.balance`, where the column
-- `available_balance` that is returned is the balance
unfoldable pub seed : Bool → Uuid → ℕ → Uuid → ℤ → String → Db → Option (Wallet × Db)
seed fails id now user balance currency db =
    if fails || not (leb_ℤ (pos 0) balance) then none else elim (find user_key user db.wallets) [
      | some w ↦ some (record { row = w; available_balance = pos w.balance }, db)
      | none ↦
          if is_some (find_wallet id db.wallets)
          then none
          else let w : WalletRow = record {
            id = id;
            user_id = user;
            balance = pos_part balance;
            currency = currency;
            created_at = now;
            updated_at = now;
          } in
            some (
              record { row = w; available_balance = pos w.balance },
              record db { wallets = w ∷ db.wallets },
            )
    ]

abbrev wallet_answer : Fetch Wallet → Response
wallet_answer (row w) = record { status = 200; body = wallet_json w }
wallet_answer no_rows = fail 404 wallet_not_found
wallet_answer failed = internal_error

-- `none` is a parameter that is not a UUID
unfoldable pub get_wallet : Env → Option Uuid → Db → Response
get_wallet env none db = fail 400 invalid_user_id
get_wallet env (some user) db = wallet_answer (get_by_user_id (env.fails Site.read_wallet) user db)

-- a number in a query: it is missing, it cannot be read, or it is read
pub data Param : Type 0 where
  missing malformed : Param
  number : ℤ → Param

abbrev with_param : Param → ℤ → Response → (ℤ → Response) → Response
with_param missing default bad next = next default
with_param malformed default bad next = bad
with_param (number n) default bad next = next n

abbrev wallets_answer : Env → Option (List Wallet) → Db → Response
wallets_answer env none db = internal_error
wallets_answer env (some items) db = elim (count (env.fails Site.count_wallets) db) [
  | none ↦ internal_error
  | some total ↦ record { status = 200; body = wallets_json items total }
]

unfoldable pub list_wallets : Env → Scan → Param → Param → Db → Response
unfolding count
list_wallets env scan limit offset db = with_param limit (pos 20) (fail 400 invalid_limit) (λ l.
    with_param offset (pos 0) (fail 400 invalid_offset)
      (λ o. wallets_answer env (list_all (env.fails Site.list_wallets) scan l o db) db))
