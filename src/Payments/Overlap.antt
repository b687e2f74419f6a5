-- ===== src/Payments/Overlap.antt =====
-- Two requests to HoldFunds (handler.go) that overlap. `GetByIDForUpdate` of wallet_store.go is one
-- statement: it waits for the lock of the wallet's row, and the holds that it sums are those of the
-- statement's start, which is how PostgreSQL reads at its default level, READ COMMITTED. A request
-- that inserts a hold does not change the row of the wallet, so nothing is read again.
use hire_flow.Prelude.{
  ℕ, ◌+◌, ◌≤◌, ◌<◌, ◌≡◌, ◌≢◌, refl, Option, none, some, List, arith, ◌==◌, if◌then◌else◌, Bool,
}
use mathlib.Core.Path.{subst, sym}
use hire_flow.Prelude.Int.{pos, ltb_ℤ, leb_ℤ, sub_ℕ}
use hire_flow.Prelude.Table.{map_option, find_own}
use hire_flow.Payments.Types.{
  Uuid, WalletRow, Wallet, Hold, Db, Env, Site, HoldRequest, Response, invalid_request_body,
  wallet_id_required, amount_not_positive, contract_id_required, wallet_not_found, hold_json,
}
use hire_flow.Payments.Tx.{Tx, ret, ◌>>=◌, Fetch, fetch, run_tx}
use hire_flow.Payments.Stores.{
  wallet_key, find_wallet, sum_active_by_wallet, with_available, fetch_row, new_hold_row,
}
use hire_flow.Payments.Handlers.{fail, refuse_hold, place_hold, hold_tx, hold_funds}
use hire_flow.Payments.Spec.{placed}
use hire_flow.Payments.Outcomes.{Works, Fresh, place_hold-Works, hold_funds-Works}

-- `GetByIDForUpdate` that started when the holds were those of `seen`, and has the lock now
unfoldable pub get_wallet_seen : List Hold → Bool → Uuid → Db → Fetch Wallet
get_wallet_seen seen fails id db =
    fetch_row fails (map_option (with_available seen) (find_wallet id db.wallets))

unfoldable pub hold_tx_seen : List Hold → Env → HoldRequest → Tx Response
unfolding get_wallet_seen
hold_tx_seen seen env req = do
  wallet ←
      fetch (get_wallet_seen seen (env.fails Site.lock_wallet) req.wallet_id)
        (fail 404 wallet_not_found)
  if ltb_ℤ wallet.available_balance req.amount
      then refuse_hold env req wallet
      else place_hold env req wallet

-- HoldFunds whose statement for the wallet started at `seen`
unfoldable pub hold_funds_seen : List Hold → Env → Option HoldRequest → Db → Response × Db
unfolding hold_tx_seen
hold_funds_seen seen env none db = (fail 400 invalid_request_body, db)
hold_funds_seen seen env (some req) db =
    if req.wallet_id == 0
    then (fail 400 wallet_id_required, db)
    else if leb_ℤ req.amount (pos 0)
    then (fail 400 amount_not_positive, db)
    else if req.contract_id == 0
    then (fail 400 contract_id_required, db)
    else run_tx env (hold_tx_seen seen env req) db

-- A request that nothing overlaps sees the holds as they are.
hold_funds_seen_now :
    (env : Env) (req : Option HoldRequest) (db : Db)
    → hold_funds_seen db.holds env req db ≡ hold_funds env req db
unfolding hold_funds_seen hold_funds hold_tx run_tx
hold_funds_seen_now env none db = refl
hold_funds_seen_now env (some req) db = ground arith

module _ (env : Env) (req : HoldRequest) (w : WalletRow) (seen : List Hold) (db : Db) (n : ℕ)
    (ok : Works env) (fresh : Fresh env db) (found : find_wallet req.wallet_id db.wallets ≡ some w)
    (known : req.wallet_id ≢ 0) (contract : req.contract_id ≢ 0) (en : req.amount ≡ pos n)
    (positive : 0 < n) where
  -- the old sum decides
  seen_placed :
      sum_active_by_wallet w.id seen + n ≤ w.balance
      → hold_funds_seen seen env (some req) db ≡ (
        record {
          status = 201;
          body = hold_json (new_hold_row env.new_hold env.now w.id n req.contract_id);
        },
        placed env w.id n req.contract_id db,
      )
  unfolding hold_funds_seen run_tx sum_active_by_wallet place_hold
  seen_placed room =
      let own = find_own wallet_key req.wallet_id db.wallets w found in
      let put : place_hold env req
            (record {
              row = w;
              available_balance = sub_ℕ w.balance (sum_active_by_wallet w.id seen);
            })
            db
          ≡ ret
              (record {
                status = 201;
                body = hold_json (new_hold_row env.new_hold env.now w.id n req.contract_id);
              })
              (placed env w.id n req.contract_id db) =
        place_hold-Works env req w db n ok fresh own en positive in
      ground (arith, ok.calls Site.begin, ok.calls Site.lock_wallet, ok.commit, put)

  refused_status :
      w.balance < sum_active_by_wallet w.id db.holds + n
      → (hold_funds env (some req) db).0.status ≡ 422
  unfolding hold_funds hold_tx run_tx refuse_hold
  refused_status short =
      let own = find_own wallet_key req.wallet_id db.wallets w found in
      ground (
        arith,
        ok.calls Site.begin,
        ok.calls Site.lock_wallet,
        ok.commit,
        ok.calls Site.create_tx,
        ok.calls Site.marshal,
        ok.calls Site.insert_outbox,
        fresh.tx,
        fresh.entry,
      )

sum_placed :
    (env : Env) (k n : ℕ) (contract : Uuid) (db : Db)
    → sum_active_by_wallet k (placed env k n contract db).holds
      ≡ n + sum_active_by_wallet k db.holds
unfolding sum_active_by_wallet
sum_placed env k n contract db = ground arith

-- Two requests for holds on one wallet, each covered by what is available but not both together: if
-- the second is served after the first, it is refused with 422; but if its statement for the wallet
-- started before the first committed, it is answered 201 as well, and more is on hold than the
-- wallet owns.
pub overlapping_holds_overdraw :
    (first second : Env) (a b : HoldRequest) (w : WalletRow) (db : Db) (m n : ℕ)
    → Works first
    → Works second
    → Fresh first db
    → Fresh second (placed first w.id m a.contract_id db)
    → a.wallet_id ≡ w.id
    → b.wallet_id ≡ w.id
    → find_wallet w.id db.wallets ≡ some w
    → w.id ≢ 0
    → a.contract_id ≢ 0
    → b.contract_id ≢ 0
    → a.amount ≡ pos m
    → b.amount ≡ pos n
    → 0 < m
    → 0 < n
    → sum_active_by_wallet w.id db.holds + m ≤ w.balance
    → sum_active_by_wallet w.id db.holds + n ≤ w.balance
    → w.balance < sum_active_by_wallet w.id db.holds + m + n
    → let after = (hold_funds first (some a) db).1 in
      ((hold_funds second (some b) after).0.status ≡ 422)
      × ((hold_funds_seen db.holds second (some b) after).0.status ≡ 201)
      × (w.balance
          < sum_active_by_wallet w.id (hold_funds_seen db.holds second (some b) after).1.holds)
overlapping_holds_overdraw first second a b w db m n ok1 ok2 fresh1 fresh2 wa wb found known ca cb
      am bn pm pn room_m room_n short =
    let mid = placed first w.id m a.contract_id db in
    let found_a = subst (λ k. find_wallet k db.wallets ≡ some w) (sym wa) found in
    let found_b = subst (λ k. find_wallet k db.wallets ≡ some w) (sym wb) found in
    let known_a = subst (λ k. k ≢ 0) (sym wa) known in
    let known_b = subst (λ k. k ≢ 0) (sym wb) known in
    let one = hold_funds-Works first a w db m ok1 fresh1 found_a known_a ca am pm room_m in
    let two = seen_placed second b w db.holds mid n ok2 fresh2 found_b known_b cb bn pn room_n in
    let held = sum_placed first w.id m a.contract_id db in
    let both = sum_placed second w.id n b.contract_id mid in
    rw one (
      refused_status second b w db.holds mid n ok2 fresh2 found_b known_b cb bn pn (omega arith),
      rw two refl,
      rw two (omega arith),
    )
