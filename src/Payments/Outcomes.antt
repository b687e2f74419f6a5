-- ===== src/Payments/Outcomes.antt =====
-- The answers of the handlers that move money (handler.go), and what the database then is.
pub mod Transfers
pub mod Answers
use hire_flow.Prelude.{
  ℕ, ◌+◌, ◌≤◌, ◌<◌, ◌≡◌, ◌≢◌, refl, ◌⊎◌, inl, inr, Bool, true, false, Option, none, some, arith,
}
use hire_flow.Prelude.Int.{pos}
use hire_flow.Prelude.Table.{find, find_own, find-update}
use hire_flow.Payments.Types.{
  WalletRow, active, released, Hold, Commit, durable, unacknowledged, Db, HoldRequest,
  ReleaseRequest, TransferRequest, hold_json, transfer_json, Response, Site, Env, Uuid,
  hold_not_active,
}
use hire_flow.Payments.Tx.{Tx, TxResult, ret, abort, run_tx}
use hire_flow.Payments.Stores.{
  transaction_key, entry_key, wallet_key, find_wallet, find_hold, sum_active_by_wallet,
  new_hold_row, set_status, with_available, hold_key,
}
use hire_flow.Payments.Handlers.{
  hold_funds, hold_tx, place_hold, release_funds, release_tx, transfer_funds, transfer_tx,
  move_funds, fail,
}
use hire_flow.Payments.Spec.{placed, freed, moved}

-- every call of the request works
pub record Works (env : Env) : Type 0 where
  pub calls : (s : Site) → env.fails s ≡ false
  pub commit : env.commit ≡ durable

-- the ids that the database makes up are new
pub record Fresh (env : Env) (db : Db) : Type 0 where
  pub hold : find_hold env.new_hold db.holds ≡ none
  pub tx : find transaction_key env.new_tx db.transactions ≡ none
  pub credit_tx : find transaction_key env.new_credit_tx db.transactions ≡ none
  pub two : env.new_tx ≢ env.new_credit_tx
  pub entry : find entry_key env.new_entry db.outbox ≡ none

pub place_hold-Works :
    (env : Env) (req : HoldRequest) (w : WalletRow) (db : Db) (n : ℕ)
    → Works env
    → Fresh env db
    → find_wallet w.id db.wallets ≡ some w
    → req.amount ≡ pos n
    → 0 < n
    → place_hold env req (with_available db.holds w) db
      ≡ ret
          (record {
            status = 201;
            body = hold_json (new_hold_row env.new_hold env.now w.id n req.contract_id);
          })
          (placed env w.id n req.contract_id db)
unfolding place_hold
place_hold-Works env req w db n ok fresh found en some_amount = ground (
  arith,
  ok.calls Site.create_hold,
  ok.calls Site.create_tx,
  ok.calls Site.marshal,
  ok.calls Site.insert_outbox,
)

-- A hold on an amount that the wallet has available is placed, if every call works and new ids are
-- new: the answer is 201 with the hold, and the database is that of the specification.
pub hold_funds-Works :
    (env : Env) (req : HoldRequest) (w : WalletRow) (db : Db) (n : ℕ)
    → Works env
    → Fresh env db
    → find_wallet req.wallet_id db.wallets ≡ some w
    → req.wallet_id ≢ 0
    → req.contract_id ≢ 0
    → req.amount ≡ pos n
    → 0 < n
    → sum_active_by_wallet w.id db.holds + n ≤ w.balance
    → hold_funds env (some req) db ≡ (
      record {
        status = 201;
        body = hold_json (new_hold_row env.new_hold env.now w.id n req.contract_id);
      },
      placed env w.id n req.contract_id db,
    )
unfolding hold_funds hold_tx run_tx
hold_funds-Works env req w db n ok fresh found known contract en some_amount room = ground (
  arith,
  ok.calls Site.begin,
  ok.calls Site.lock_wallet,
  find_own wallet_key req.wallet_id db.wallets w found,
  place_hold-Works env req w db n ok fresh,
)

-- An active hold is released, if every call works and new ids are new.
pub release_funds-Works :
    (env : Env) (req : ReleaseRequest) (h : Hold) (w : WalletRow) (db : Db)
    → Works env
    → Fresh env db
    → req.hold_id ≢ 0
    → find_hold req.hold_id db.holds ≡ some h
    → find_wallet h.wallet_id db.wallets ≡ some w
    → h.status ≡ active
    → release_funds env (some req) db
      ≡ (record { status = 200; body = hold_json (set_status released h) }, freed env h db)
unfolding release_funds release_tx run_tx
release_funds-Works env req h w db ok fresh known found owner live = ground (
  arith,
  ok.calls Site.begin,
  ok.calls Site.lock_hold,
  ok.calls Site.update_status,
  ok.calls Site.create_tx,
  ok.calls Site.marshal,
  ok.calls Site.insert_outbox,
  find_own hold_key req.hold_id db.holds h found,
  find-update hold_key (set_status released) (λ y. refl) h.id h.id db.holds,
)

-- A hold that is not active is neither released nor paid out: both requests are answered with 409
-- if their first two calls work, and the database stays.
pub settled_conflicts :
    (env : Env) (id recipient : Uuid) (h : Hold) (db : Db)
    → env.fails Site.begin ≡ false
    → env.fails Site.lock_hold ≡ false
    → id ≢ 0
    → recipient ≢ 0
    → find_hold id db.holds ≡ some h
    → h.status ≢ active
    → (release_funds env (some (record { hold_id = id })) db ≡ (fail 409 hold_not_active, db))
      × (transfer_funds env (some (record { hold_id = id; recipient_wallet_id = recipient })) db
          ≡ (fail 409 hold_not_active, db))
unfolding release_funds transfer_funds release_tx transfer_tx run_tx
settled_conflicts env id recipient h db b l ni nr found ended = (ground arith, ground arith)
