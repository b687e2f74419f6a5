-- ===== src/Payments/Outcomes/Transfers.antt =====
-- `TransferFunds` (handler.go) when nothing fails.
use hire_flow.Prelude.{◌+◌, ◌≤◌, ◌≡◌, ◌≢◌, refl, some, arith, sym, ◌∙◌}
use hire_flow.Prelude.Int.{int64_max, add_int64_fits, sub_int64_fits}
use hire_flow.Prelude.Table.{find_own, find-update, find_key}
use hire_flow.Payments.Types.{
  WalletRow, active, transferred, Hold, Db, TransferRequest, transfer_json, Site, Env,
}
use hire_flow.Payments.Tx.{ret, run_tx}
use hire_flow.Payments.Stores.{
  wallet_key, hold_key, find_wallet, find_hold, set_status, with_available,
}
use hire_flow.Payments.Handlers.{transfer_funds, transfer_tx, move_funds}
use hire_flow.Payments.Spec.{moved}
use hire_flow.Payments.Outcomes.{Works, Fresh}
use hire_flow.Payments.Invariant.Steps.{find-moved}

move_funds-Works :
    (env : Env) (h : Hold) (source recipient : WalletRow) (db : Db)
    → Works env
    → Fresh env db
    → find_hold h.id db.holds ≡ some h
    → find_wallet source.id db.wallets ≡ some source
    → find_wallet recipient.id db.wallets ≡ some recipient
    → source.id ≢ recipient.id
    → source.balance ≤ int64_max
    → h.amount ≤ source.balance
    → recipient.balance + h.amount ≤ int64_max
    → move_funds env h (with_available db.holds source) (with_available db.holds recipient) db
      ≡ ret
          (record { status = 200; body = transfer_json h.id source.id recipient.id h.amount })
          (moved env h source recipient db)
unfolding move_funds
move_funds-Works env h source recipient db ok fresh found es er differ range cover fits = ground (
  arith,
  ok.calls Site.debit,
  ok.calls Site.credit,
  ok.calls Site.update_status,
  ok.calls Site.create_tx,
  ok.calls Site.create_credit_tx,
  ok.calls Site.marshal,
  ok.calls Site.insert_outbox,
  add_int64_fits recipient.balance h.amount,
  sub_int64_fits source.balance h.amount,
  find-moved env h source recipient db source.id differ es er,
  find-moved env h source recipient db recipient.id differ es er,
  find-update hold_key (set_status transferred) (λ y. refl) h.id h.id db.holds,
)

-- A covered transfer of an active hold to another wallet with room for it is made, if every call
-- works and new ids are new.
pub transfer_funds-Works :
    (env : Env) (req : TransferRequest) (h : Hold) (source recipient : WalletRow) (db : Db)
    → Works env
    → Fresh env db
    → req.hold_id ≢ 0
    → req.recipient_wallet_id ≢ 0
    → find_hold req.hold_id db.holds ≡ some h
    → h.status ≡ active
    → h.wallet_id ≢ req.recipient_wallet_id
    → find_wallet h.wallet_id db.wallets ≡ some source
    → find_wallet req.recipient_wallet_id db.wallets ≡ some recipient
    → source.balance ≤ int64_max
    → h.amount ≤ source.balance
    → recipient.balance + h.amount ≤ int64_max
    → transfer_funds env (some req) db ≡ (
      record { status = 200; body = transfer_json h.id source.id recipient.id h.amount },
      moved env h source recipient db,
    )
unfolding transfer_funds transfer_tx run_tx
transfer_funds-Works env req h source recipient db ok fresh ni nr found live other es er range cover
      fits =
    let from = find_key wallet_key h.wallet_id db.wallets source es in
    let into = find_key wallet_key req.recipient_wallet_id db.wallets recipient er in
    let run =
      move_funds-Works env h source recipient db ok fresh
        (find_own hold_key req.hold_id db.holds h found)
        (find_own wallet_key h.wallet_id db.wallets source es)
        (find_own wallet_key req.recipient_wallet_id db.wallets recipient er)
        (λ same. other (sym from ∙ same ∙ into)) range cover fits in
    ground (
      arith,
      ok.calls Site.begin,
      ok.calls Site.lock_hold,
      ok.calls Site.lock_source,
      ok.calls Site.lock_recipient,
    )
