-- ===== src/Payments/Audit.antt =====
-- The log of transactions (transaction.go) against the balances and the holds.
use hire_flow.Prelude.{
  ℕ, ◌+◌, ◌-◌, ◌≡◌, refl, Bool, true, false, ◌&&◌, some, List, arith, ◌==◌, if◌then◌else◌, ◌∙◌,
  Bool-cases, inl, inr,
}
use hire_flow.Prelude.Int.{pos_part, neg_part}
use hire_flow.Prelude.Table.{
  sum_by, sum_by-update, update, find_own, find_key, find-update, update-Keyed,
}
use hire_flow.Payments.Types.{
  Uuid, WalletRow, released, transferred, TransactionType, hold, release, transfer_debit,
  transfer_credit, Transaction, Db, Env,
}
use hire_flow.Payments.Stores.{wallet_key, find_wallet, sum_active_by_wallet, set_balance}
use hire_flow.Payments.Spec.{Step, placing, refusing, freeing, moving}
use hire_flow.Payments.Service.{Request, run, run_induction}
use hire_flow.Payments.Invariant.{IsSound}
use hire_flow.Payments.Invariant.Steps.{sum_active-set_status, find-moved}

abbrev pub is_placed : TransactionType → Bool
is_placed hold = true
is_placed _ = false

abbrev pub is_freed : TransactionType → Bool
is_freed release = true
is_freed _ = false

abbrev pub is_debit : TransactionType → Bool
is_debit transfer_debit = true
is_debit _ = false

abbrev pub is_credit : TransactionType → Bool
is_credit transfer_credit = true
is_credit _ = false

-- what one row contributes to the sum of one kind for one wallet, without its sign
abbrev pub share : (TransactionType → Bool) → Uuid → Transaction → ℕ
share kind k t =
    if kind t.type && t.wallet_id == k then pos_part t.amount + neg_part t.amount else 0

unfoldable pub posted : (TransactionType → Bool) → Uuid → Db → ℕ
posted kind k db = sum_by (share kind k) db.transactions

abbrev pub total_balance : Db → ℕ
total_balance db = sum_by (λ (w : WalletRow). w.balance) db.wallets

-- Wallet `k`, which was `w` before, is still there, and its balance has moved by the transfers
-- posted in between.
abbrev pub Balanced : Uuid → WalletRow → Db → Db → Type 0
Balanced k w before after =
    (w' : WalletRow) × (find_wallet k after.wallets ≡ some w')
    × (w'.balance + posted is_debit k after + posted is_credit k before
        ≡ w.balance + posted is_debit k before + posted is_credit k after)

abbrev BalanceAudit : Uuid → Db → Db → Type 0
BalanceAudit k before after =
    (w : WalletRow) → find_wallet k before.wallets ≡ some w → Balanced k w before after

-- What wallet `k` has on hold has moved by the holds, releases and transfers posted in between.
abbrev pub HoldAudit : Uuid → Db → Db → Type 0
HoldAudit k before after =
    sum_active_by_wallet k after.holds
      + posted is_freed k after
      + posted is_debit k after
      + posted is_placed k before
    ≡ sum_active_by_wallet k before.holds
      + posted is_freed k before
      + posted is_debit k before
      + posted is_placed k after

Step-HoldAudit : (k : Uuid) {db after : Db} → IsSound db → Step db after → HoldAudit k db after
unfolding posted sum_active_by_wallet
Step-HoldAudit k s (placing env w amount contract_id found some_amount room fresh) = ground arith
Step-HoldAudit k s (refusing env w amount contract_id found short) = ground arith
Step-HoldAudit k {db} s (freeing env h found live) =
    ground (arith, sum_active-set_status k h released db.holds refl found live s.hold_keys)
Step-HoldAudit k {db} s (moving env h source recipient found live es er differ cover fits) =
    ground (
      arith,
      find_key wallet_key h.wallet_id db.wallets source es,
      sum_active-set_status k h transferred db.holds refl found live s.hold_keys,
    )

Step-BalanceAudit : (k : Uuid) {db after : Db} → Step db after → BalanceAudit k db after
unfolding posted
Step-BalanceAudit k (placing env w amount contract_id found some_amount room fresh) x e =
    (x, e, ground arith)
Step-BalanceAudit k (refusing env w amount contract_id found short) x e = (x, e, ground arith)
Step-BalanceAudit k (freeing env h found live) x e = (x, e, ground arith)
Step-BalanceAudit k {db} (moving env h source recipient found live es er differ cover fits) x e =
    let own = find_own wallet_key h.wallet_id db.wallets source es in
    let after = find-moved env h source recipient db k differ own er in
    elim (Bool-cases (recipient.id == k)) [
      | inl credited ↦
          (set_balance (recipient.balance + h.amount) env.now recipient, ground arith, ground arith)
      | inr elsewhere ↦ elim (Bool-cases (source.id == k)) [
        | inl debited ↦
            (set_balance (source.balance - h.amount) env.now source, ground arith, ground arith)
        | inr untouched ↦ (x, ground arith, ground arith)
      ]
    ]

Step-total : {db after : Db} → IsSound db → Step db after → total_balance after ≡ total_balance db
Step-total s (placing env w amount contract_id found some_amount room fresh) = refl
Step-total s (refusing env w amount contract_id found short) = refl
Step-total s (freeing env h found live) = refl
Step-total {db} s (moving env h source recipient found live es er differ cover fits) =
    let own = find_own wallet_key h.wallet_id db.wallets source es in
    let debit = set_balance (source.balance - h.amount) env.now in
    let credit = set_balance (recipient.balance + h.amount) env.now in
    let balance = λ (w : WalletRow). w.balance in
    let er' = find-update wallet_key debit (λ x. refl) source.id recipient.id db.wallets in
    let first =
      sum_by-update wallet_key debit balance source.id db.wallets source s.wallet_keys own in
    let second =
      sum_by-update wallet_key credit balance recipient.id
        (update wallet_key source.id debit db.wallets) recipient
        (update-Keyed wallet_key debit (λ x. refl) source.id db.wallets s.wallet_keys)
        (ground arith) in
    omega arith

BalanceAudit-Step :
    (k : Uuid) (start mid after : Db)
    → IsSound mid
    → BalanceAudit k start mid
    → Step mid after
    → BalanceAudit k start after
BalanceAudit-Step k start mid after s p st w e =
    let (w', e', moved_before) = p w e in
    let (w'', e'', moved_now) = Step-BalanceAudit k st w' e' in (w'', e'', omega arith)

-- From a sound database no history of requests and failures creates or destroys money: the sum of
-- all balances stays.
pub run-total :
    (db : Db) (requests : List (Env × Request))
    → IsSound db
    → total_balance (run db requests) ≡ total_balance db
run-total db requests s =
    run_induction (λ start now. total_balance now ≡ total_balance start)
      (λ start mid after sound p st. Step-total sound st ∙ p) db db requests s refl

-- Along every history from a sound database the balance of each wallet moves by exactly the credits
-- less the debits that the log of transactions gained for it; no wallet disappears.
pub run-Balanced :
    (k : Uuid) (db : Db) (requests : List (Env × Request))
    → IsSound db
    → (w : WalletRow) → find_wallet k db.wallets ≡ some w
    → Balanced k w db (run db requests)
run-Balanced k db requests s =
    run_induction (BalanceAudit k) (BalanceAudit-Step k) db db requests s (λ w e. (w, e, refl))

-- Along every history from a sound database, what a wallet has on hold moves by exactly the holds
-- less the releases and the debits that the log of transactions gained for it.
pub run-HoldAudit :
    (k : Uuid) (db : Db) (requests : List (Env × Request))
    → IsSound db
    → HoldAudit k db (run db requests)
run-HoldAudit k db requests s =
    run_induction (HoldAudit k)
      (λ start mid after sound p st. omega (arith, Step-HoldAudit k sound st)) db db requests s refl
