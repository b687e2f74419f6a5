-- ===== src/Payments/Queries/Pages.antt =====
-- The answers of GetWallet and ListWallets (handler.go).
use hire_flow.Prelude.{
  ℕ, zero, suc, ◌+◌, ◌-◌, ◌*◌, ◌≤◌, ◌<◌, ◌≡◌, refl, false, some, List, [], ◌++◌, map, arith, ap,
  ◌∙◌,
}
use hire_flow.Prelude.Int.{pos}
use hire_flow.Prelude.Table.{length, find, All-find, Keyed, Keyed-All}
use hire_flow.Prelude.Paging.{
  IsScan, newest-scan, newest, page, pages, pages_cover, map-append, length-newest,
}
use hire_flow.Payments.Types.{
  Uuid, WalletRow, Wallet, Db, Env, Site, Body, wallet_json, wallets_json,
}
use hire_flow.Payments.Stores.{wallet_key, find_wallet, sum_active_by_wallet, with_available}
use hire_flow.Payments.Invariant.{IsSound}
use hire_flow.Payments.Queries.{
  Scan, user_key, created_at, number, get_by_user_id, list_all, count, get_wallet, list_wallets,
}

-- A wallet that is read by its user is the row of its id.
own_wallet :
    (user : Uuid) (db : Db) (w : WalletRow)
    → IsSound db
    → find user_key user db.wallets ≡ some w
    → find_wallet w.id db.wallets ≡ some w
own_wallet user db w s e =
    All-find user_key (λ (x : WalletRow). find_wallet x.id db.wallets ≡ some x) user db.wallets w
      (Keyed-All wallet_key db.wallets s.wallet_keys) e

-- From a sound database, GetWallet shows what no hold takes up, and that is never negative: if the
-- user has a wallet and the query works, the answer is 200 with the row and its balance less the
-- active holds, which the balance covers.
pub get_wallet-IsSound :
    (env : Env) (user : Uuid) (db : Db) (w : WalletRow)
    → IsSound db
    → env.fails Site.read_wallet ≡ false
    → find user_key user db.wallets ≡ some w
    → let held = sum_active_by_wallet w.id db.holds in
      (held ≤ w.balance)
      × (get_wallet env (some user) db ≡ record {
        status = 200;
        body = wallet_json (record { row = w; available_balance = pos (w.balance - held) });
      })
unfolding get_wallet get_by_user_id
get_wallet-IsSound env user db w s works e =
    let cover = s.solvent w.id w (own_wallet user db w s e) in (cover, ground arith)

abbrev pub items_of : Body → List Wallet
items_of (wallets_json items total) = items
items_of _ = []

-- the wallets on `k` answers in a row, each with its own scan
pub walk : Env → (ℕ → Scan) → ℕ → ℕ → ℕ → Db → List Wallet
walk env scans zero limit offset db = []
walk env scans (suc k) limit offset db =
    items_of (list_wallets env (scans k) (number (pos limit)) (number (pos offset)) db).body
    ++ walk env scans k limit (offset + limit) db

walk-pages :
    (env : Env) (scans : ℕ → Scan) (k limit offset : ℕ) (db : Db)
    → ((i : ℕ) → IsScan (scans i))
    → Keyed created_at db.wallets
    → env.fails Site.list_wallets ≡ false
    → env.fails Site.count_wallets ≡ false
    → 0 < limit
    → limit ≤ 100
    → walk env scans k limit offset db
      ≡ map (with_available db.holds) (pages k limit offset (newest created_at db.wallets))
unfolding walk list_wallets list_all count
walk-pages env scans zero limit offset db complete distinct l c low high = refl
walk-pages env scans (suc k) limit offset db complete distinct l c low high =
    let one = newest-scan created_at (scans k) db.wallets (complete k) distinct in
    ground (
      arith,
      one,
      walk-pages env scans k limit (offset + limit) db complete distinct l c low high,
      map-append (with_available db.holds) (page limit offset (newest created_at db.wallets))
          (pages k limit (offset + limit) (newest created_at db.wallets)),
    )

-- Reading ListWallets page by page, with a limit from 1 to 100 and queries that work, shows every
-- wallet once, the latest first, as soon as the pages have room for all of them, if no two wallets
-- have the same time of creation.
pub walk_covers :
    (env : Env) (scans : ℕ → Scan) (k limit : ℕ) (db : Db)
    → ((i : ℕ) → IsScan (scans i))
    → Keyed created_at db.wallets
    → env.fails Site.list_wallets ≡ false
    → env.fails Site.count_wallets ≡ false
    → 0 < limit
    → limit ≤ 100
    → length db.wallets ≤ limit * k
    → walk env scans k limit 0 db ≡ map (with_available db.holds) (newest created_at db.wallets)
walk_covers env scans k limit db complete distinct l c low high room =
    walk-pages env scans k limit 0 db complete distinct l c low high
    ∙ ap (map (with_available db.holds)) (
        pages_cover k limit 0 (newest created_at db.wallets)
          (omega (arith, length-newest created_at db.wallets)))
