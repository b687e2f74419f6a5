-- ===== src/Payments/Refinement/Transfer.antt =====
-- `TransferFunds` (handler.go) against the steps of Payments/Spec.
use mathlib.Core.Path.{subst}
use hire_flow.Prelude.{
  ℕ, ◌+◌, ◌≤◌, ◌≡◌, ◌≢◌, refl, sym, ◌∙◌, inl, inr, Option, none, some, arith, leb, Bool-cases,
  Option-cases,
}
use hire_flow.Prelude.Int.{int64_max, add_int64_fits, add_int64_overflow, sub_int64_fits}
use hire_flow.Prelude.Table.{All, All-find, find_key, find_own}
use hire_flow.Payments.Types.{
  WalletRow, active, Hold, Db, Env, TransferRequest, Response, transfer_json,
}
use hire_flow.Payments.Tx.{ret}
use hire_flow.Payments.Stores.{wallet_key, hold_key, find_wallet, find_hold, with_available}
use hire_flow.Payments.Handlers.{move_funds, transfer_tx, transfer_funds}
use hire_flow.Payments.Spec.{Step, moving, moved}
use hire_flow.Payments.Refinement.Commit.{Follows, run_tx-Follows}

-- The columns `balance` and `amount` are BIGINT.
pub record IsInRange (db : Db) : Type 0 where
  pub balances : All (λ (w : WalletRow). w.balance ≤ int64_max) db.wallets
  pub amounts : All (λ (h : Hold). h.amount ≤ int64_max) db.holds

pub move_funds_ret :
    (env : Env) (h : Hold) (source recipient : WalletRow) (db : Db) (r : Response) (after : Db)
    → h.amount ≤ int64_max
    → source.balance ≤ int64_max
    → recipient.balance ≤ int64_max
    → h.amount ≤ source.balance
    → move_funds env h (with_available db.holds source) (with_available db.holds recipient) db
      ≡ ret r after
    → (recipient.balance + h.amount ≤ int64_max)
      × (r ≡ record { status = 200; body = transfer_json h.id source.id recipient.id h.amount })
      × (after ≡ moved env h source recipient db)
unfolding move_funds
move_funds_ret env h source recipient db r after ha hs hr cover e =
    elim (Bool-cases (leb (recipient.balance + h.amount) int64_max)) [
      | inl fits ↦
          ground (
            arith,
            add_int64_fits recipient.balance h.amount,
            sub_int64_fits source.balance h.amount,
          )
      | inr over ↦ absurd (
          ground (
            arith,
            add_int64_overflow recipient.balance h.amount,
            sub_int64_fits source.balance h.amount,
          ))
    ]

-- What a transfer found before it wrote: the checks of `TransferFunds`, in their order.
pub record Checked (req : TransferRequest) (h : Hold) (source recipient : WalletRow) (db : Db)
    : Type 0 where
  pub live : h.status ≡ active
  pub other : h.wallet_id ≢ req.recipient_wallet_id
  pub from : find_wallet h.wallet_id db.wallets ≡ some source
  pub into : find_wallet req.recipient_wallet_id db.wallets ≡ some recipient
  pub cover : h.amount ≤ source.balance

transfer_tx_checks :
    (env : Env) (req : TransferRequest) (h : Hold) (source recipient : WalletRow) (db : Db)
    (r : Response) (after : Db)
    → find_hold req.hold_id db.holds ≡ some h
    → find_wallet h.wallet_id db.wallets ≡ some source
    → find_wallet req.recipient_wallet_id db.wallets ≡ some recipient
    → transfer_tx env req db ≡ ret r after
    → Checked req h source recipient db
      × (move_funds env h (with_available db.holds source) (with_available db.holds recipient) db
          ≡ ret r after)
unfolding transfer_tx
transfer_tx_checks env req h source recipient db r after eh es er e = ground arith

pub transfer_tx-Step :
    (env : Env) (req : TransferRequest) (db : Db) (r : Response) (after : Db)
    → IsInRange db
    → transfer_tx env req db ≡ ret r after
    → Step db after
transfer_tx-Step env req db r after range e = elim (Option-cases (find_hold req.hold_id db.holds)) [
  | inl missing ↦ absurd (unfold transfer_tx in ground arith)
  | inr (h, eh) ↦ elim (Option-cases (find_wallet h.wallet_id db.wallets)) [
    | inl missing ↦ absurd (unfold transfer_tx in ground arith)
    | inr (source, es) ↦ elim (Option-cases (find_wallet req.recipient_wallet_id db.wallets)) [
      | inl missing ↦ absurd (unfold transfer_tx in ground arith)
      | inr (recipient, er) ↦
          let (checks, run) = transfer_tx_checks env req h source recipient db r after eh es er e in
          let amounts =
            All-find hold_key (λ (x : Hold). x.amount ≤ int64_max) req.hold_id db.holds h
              range.amounts eh in
          let bound = λ (k : ℕ) (w : WalletRow) (found : find_wallet k db.wallets ≡ some w).
            All-find wallet_key (λ (x : WalletRow). x.balance ≤ int64_max) k db.wallets w
              range.balances found in
          let (fits, _, landed) =
            move_funds_ret env h source recipient db r after amounts (bound h.wallet_id source es)
              (bound req.recipient_wallet_id recipient er) checks.cover run in
          subst (Step db) (sym landed) (
            moving env h source recipient (find_own hold_key req.hold_id db.holds h eh) checks.live
              es (find_own wallet_key req.recipient_wallet_id db.wallets recipient er)
              (λ same. checks.other (
                sym (find_key wallet_key h.wallet_id db.wallets source es)
                ∙ same
                ∙ find_key wallet_key req.recipient_wallet_id db.wallets recipient er))
              checks.cover fits)
    ]
  ]
]

-- Every request to transfer a hold, whatever fails in it, follows the specification.
pub transfer_funds-Follows :
    (env : Env) (req : Option TransferRequest) (db : Db)
    → IsInRange db
    → Follows db (transfer_funds env req db)
unfolding transfer_funds
transfer_funds-Follows env none db range = inl refl
transfer_funds-Follows env (some req) db range =
    let body =
      run_tx-Follows env (transfer_tx env req) db
        (λ r after. transfer_tx-Step env req db r after range) in
    ground arith
