-- ===== src/Payments/Handlers.antt =====
-- The HTTP handlers that move money (handler.go). A request whose body cannot be read is `none`:
-- reading JSON is gin's work, and the model takes its result.
use hire_flow.Prelude.{ℕ, Option, none, some, ◌==◌, if◌then◌else◌}
use hire_flow.Prelude.Int.{ℤ, pos, ◌-ℤ◌, ltb_ℤ, leb_ℤ, add_int64, sub_int64}
use hire_flow.Payments.Types.{
  Uuid, Wallet, released, transferred, Hold, hold, hold_failed, release, transfer_debit,
  transfer_credit, TransactionType, Transaction, EventType, payment_held, payment_released,
  payment_transferred, payment_failed, Payload, hold_payload, failed_payload, transfer_payload,
  Entry, Db, HoldRequest, ReleaseRequest, TransferRequest, ErrorMessage, invalid_request_body,
  wallet_id_required, amount_not_positive, contract_id_required, hold_id_required,
  recipient_wallet_id_required, wallet_not_found, hold_not_found, recipient_not_found,
  hold_not_active, source_is_recipient, insufficient_funds, error, hold_json, transfer_json,
  Response, Site, Env,
}
use hire_flow.Payments.Tx.{Tx, ◌>>=◌, ◌>>◌, pure, respond, exec, fetch, internal_error, run_tx}
use hire_flow.Payments.Stores.{
  get_wallet_for_update, get_hold_for_update, update_balance, create_hold_row, set_hold_status,
  is_active, create_transaction, insert_entry,
}

abbrev pub fail : ℕ → ErrorMessage → Response
fail status e = record { status = status; body = error e }

-- the struct that a handler gives to `transactions.Create`
abbrev pub draft : Uuid → ℤ → TransactionType → Option Uuid → Transaction
draft wallet_id amount type hold_id = record {
  id = 0;
  wallet_id = wallet_id;
  amount = amount;
  type = type;
  hold_id = hold_id;
  reference_id = none;
  created_at = 0;
}

abbrev pub event_row : Env → Uuid → EventType → Payload → Entry
event_row env aggregate_id event_type payload = record {
  id = env.new_entry;
  aggregate_id = aggregate_id;
  event_type = event_type;
  payload = payload;
  created_at = env.now;
  published_at = none;
}

-- `json.Marshal` of an event and `outbox.Insert`
unfoldable pub emit : Env → Uuid → EventType → Payload → Tx (Unit {0})
unfolding insert_entry
emit env aggregate_id event_type payload =
    if env.fails Site.marshal
    then respond internal_error
    else exec (
        insert_entry (env.fails Site.insert_outbox) (event_row env aggregate_id event_type payload))

-- the branch of `HoldFunds` where the available balance is too small: it commits too
unfoldable pub refuse_hold : Env → HoldRequest → Wallet → Tx Response
unfolding emit create_transaction ◌-ℤ◌
refuse_hold env req wallet = do
  failed_tx ← exec (
      create_transaction (env.fails Site.create_tx) env.new_tx env.now
        (draft wallet.id (pos 0 -ℤ req.amount) hold_failed none))
  emit env failed_tx.id payment_failed (failed_payload wallet.id req.amount req.contract_id)
  pure (fail 422 insufficient_funds)

unfoldable pub place_hold : Env → HoldRequest → Wallet → Tx Response
unfolding emit create_hold_row create_transaction ◌-ℤ◌
place_hold env req wallet = do
  h ← exec (
      create_hold_row (env.fails Site.create_hold) env.new_hold env.now wallet.id req.amount
        req.contract_id)
  exec (
      create_transaction (env.fails Site.create_tx) env.new_tx env.now
        (draft wallet.id (pos 0 -ℤ req.amount) hold (some h.id)))
  emit env h.id payment_held (hold_payload h)
  pure (record { status = 201; body = hold_json h })

unfoldable pub hold_tx : Env → HoldRequest → Tx Response
unfolding get_wallet_for_update
hold_tx env req = do
  wallet ←
      fetch (get_wallet_for_update (env.fails Site.lock_wallet) req.wallet_id)
        (fail 404 wallet_not_found)
  if ltb_ℤ wallet.available_balance req.amount
      then refuse_hold env req wallet
      else place_hold env req wallet

unfoldable pub hold_funds : Env → Option HoldRequest → Db → Response × Db
hold_funds env none db = (fail 400 invalid_request_body, db)
hold_funds env (some req) db =
    if req.wallet_id == 0
    then (fail 400 wallet_id_required, db)
    else if leb_ℤ req.amount (pos 0)
    then (fail 400 amount_not_positive, db)
    else if req.contract_id == 0
    then (fail 400 contract_id_required, db)
    else run_tx env (hold_tx env req) db

unfoldable pub release_tx : Env → ReleaseRequest → Tx Response
unfolding get_hold_for_update set_hold_status create_transaction emit
release_tx env req = do
  h ← fetch (get_hold_for_update (env.fails Site.lock_hold) req.hold_id) (fail 404 hold_not_found)
  if is_active h.status then pure tt else respond (fail 409 hold_not_active)
  exec (set_hold_status (env.fails Site.update_status) h.id released)
  let h' = record h { status = released }
  exec (
      create_transaction (env.fails Site.create_tx) env.new_tx env.now
        (draft h.wallet_id (pos h.amount) release (some h.id)))
  emit env h.id payment_released (hold_payload h')
  pure (record { status = 200; body = hold_json h' })

unfoldable pub release_funds : Env → Option ReleaseRequest → Db → Response × Db
release_funds env none db = (fail 400 invalid_request_body, db)
release_funds env (some req) db =
    if req.hold_id == 0 then (fail 400 hold_id_required, db) else run_tx env (release_tx env req) db

-- the writes of `TransferFunds`, once its checks have passed
unfoldable pub move_funds : Env → Hold → Wallet → Wallet → Tx Response
unfolding update_balance set_hold_status create_transaction emit ◌-ℤ◌
move_funds env h source recipient = do
  exec (
      update_balance (env.fails Site.debit) source.id
        (sub_int64 (pos source.balance) (pos h.amount)) env.now)
  exec (
      update_balance (env.fails Site.credit) recipient.id
        (add_int64 (pos recipient.balance) (pos h.amount)) env.now)
  exec (set_hold_status (env.fails Site.update_status) h.id transferred)
  exec (
      create_transaction (env.fails Site.create_tx) env.new_tx env.now
        (draft source.id (pos 0 -ℤ pos h.amount) transfer_debit (some h.id)))
  exec (
      create_transaction (env.fails Site.create_credit_tx) env.new_credit_tx env.now
        (draft recipient.id (pos h.amount) transfer_credit (some h.id)))
  emit env h.id payment_transferred
      (transfer_payload h.id source.id recipient.id h.amount h.contract_id)
  pure (record { status = 200; body = transfer_json h.id source.id recipient.id h.amount })

unfoldable pub transfer_tx : Env → TransferRequest → Tx Response
unfolding get_hold_for_update get_wallet_for_update
transfer_tx env req = do
  h ← fetch (get_hold_for_update (env.fails Site.lock_hold) req.hold_id) (fail 404 hold_not_found)
  if is_active h.status then pure tt else respond (fail 409 hold_not_active)
  if h.wallet_id == req.recipient_wallet_id then respond (fail 400 source_is_recipient) else pure tt
  source ← fetch (get_wallet_for_update (env.fails Site.lock_source) h.wallet_id) internal_error
  if ltb_ℤ (pos source.balance) (pos h.amount) then respond internal_error else pure tt
  recipient ←
      fetch (get_wallet_for_update (env.fails Site.lock_recipient) req.recipient_wallet_id)
        (fail 404 recipient_not_found)
  move_funds env h source recipient

unfoldable pub transfer_funds : Env → Option TransferRequest → Db → Response × Db
transfer_funds env none db = (fail 400 invalid_request_body, db)
transfer_funds env (some req) db =
    if req.hold_id == 0
    then (fail 400 hold_id_required, db)
    else if req.recipient_wallet_id == 0
    then (fail 400 recipient_wallet_id_required, db)
    else run_tx env (transfer_tx env req) db
