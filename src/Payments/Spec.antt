-- ===== src/Payments/Spec.antt =====
-- What the payments service promises: the database moves by four kinds of steps, whose premises
-- are the rules of the escrow. Payments/Refinement compares the handlers with it.
use hire_flow.Prelude.{ℕ, ◌+◌, ◌-◌, ◌≤◌, ◌<◌, ◌≡◌, ◌≢◌, none, some, ◌∷◌}
use hire_flow.Prelude.Int.{pos, sub_ℕ, int64_max}
use hire_flow.Prelude.Table.{update}
use hire_flow.Payments.Types.{
  Uuid, WalletRow, active, released, transferred, Hold, hold, hold_failed, release, transfer_debit,
  transfer_credit, Transaction, payment_held, payment_released, payment_transferred, payment_failed,
  hold_payload, failed_payload, transfer_payload, Db, Env,
}
use hire_flow.Payments.Stores.{
  wallet_key, hold_key, find_wallet, find_hold, sum_active_by_wallet, set_balance, new_hold_row,
  set_status,
}
use hire_flow.Payments.Handlers.{draft, event_row}

-- a row of `transactions` as the database completes it
abbrev pub logged : Uuid → ℕ → Transaction → Transaction
logged id now t = record t { id = id; created_at = now }

-- The database after a hold of `amount` on wallet `w`.
abbrev pub placed : Env → Uuid → ℕ → Uuid → Db → Db
placed env w amount contract_id db =
    let h = new_hold_row env.new_hold env.now w amount contract_id in
    record db {
      holds = h ∷ db.holds;
      transactions =
          logged env.new_tx env.now (draft w (sub_ℕ 0 amount) hold (some h.id)) ∷ db.transactions;
      outbox = event_row env h.id payment_held (hold_payload h) ∷ db.outbox;
    }

-- The database after a hold that was refused: only the attempt is recorded.
abbrev pub refused : Env → Uuid → ℕ → Uuid → Db → Db
refused env w amount contract_id db = record db {
  transactions =
      logged env.new_tx env.now (draft w (sub_ℕ 0 amount) hold_failed none) ∷ db.transactions;
  outbox =
      event_row env env.new_tx payment_failed (failed_payload w (pos amount) contract_id)
      ∷ db.outbox;
}

-- The database after the release of `h`.
abbrev pub freed : Env → Hold → Db → Db
freed env h db = record db {
  holds = update hold_key h.id (set_status released) db.holds;
  transactions =
      logged env.new_tx env.now (draft h.wallet_id (pos h.amount) release (some h.id))
      ∷ db.transactions;
  outbox = event_row env h.id payment_released (hold_payload (set_status released h)) ∷ db.outbox;
}

-- The database after the amount of `h` went from its wallet to `recipient`.
abbrev pub moved : Env → Hold → WalletRow → WalletRow → Db → Db
moved env h source recipient db = record db {
  wallets =
      update wallet_key recipient.id (set_balance (recipient.balance + h.amount) env.now)
        (update wallet_key source.id (set_balance (source.balance - h.amount) env.now) db.wallets);
  holds = update hold_key h.id (set_status transferred) db.holds;
  transactions =
      logged env.new_credit_tx env.now
        (draft recipient.id (pos h.amount) transfer_credit (some h.id))
      ∷ logged env.new_tx env.now (draft source.id (sub_ℕ 0 h.amount) transfer_debit (some h.id))
      ∷ db.transactions;
  outbox =
      event_row env h.id payment_transferred
        (transfer_payload h.id source.id recipient.id h.amount h.contract_id)
      ∷ db.outbox;
}

pub data Step (db : Db) : Db → Type 0 where
  -- an amount that the wallet has available is put on hold, under an id that no hold had
  placing :
      (env : Env) (w : WalletRow) (amount : ℕ) (contract_id : Uuid)
      → find_wallet w.id db.wallets ≡ some w
      → 0 < amount
      → sum_active_by_wallet w.id db.holds + amount ≤ w.balance
      → find_hold env.new_hold db.holds ≡ none
      → Step db (placed env w.id amount contract_id db)
  -- an amount that the wallet does not have available is refused
  refusing :
      (env : Env) (w : WalletRow) (amount : ℕ) (contract_id : Uuid)
      → find_wallet w.id db.wallets ≡ some w
      → w.balance < sum_active_by_wallet w.id db.holds + amount
      → Step db (refused env w.id amount contract_id db)
  -- an active hold is released
  freeing :
      (env : Env) (h : Hold)
      → find_hold h.id db.holds ≡ some h
      → h.status ≡ active
      → Step db (freed env h db)
  -- the amount of an active hold moves to another wallet
  moving :
      (env : Env) (h : Hold) (source recipient : WalletRow)
      → find_hold h.id db.holds ≡ some h
      → h.status ≡ active
      → find_wallet h.wallet_id db.wallets ≡ some source
      → find_wallet recipient.id db.wallets ≡ some recipient
      → source.id ≢ recipient.id
      → h.amount ≤ source.balance
      → recipient.balance + h.amount ≤ int64_max
      → Step db (moved env h source recipient db)
