-- ===== src/Payments/Refinement/Hold.antt =====
-- `HoldFunds` (handler.go) against the steps of Payments/Spec.
use mathlib.Core.Path.{subst}
use hire_flow.Prelude.{
  ℕ, ◌≡◌, ◌<◌, refl, sym, inl, inr, false, Option, none, some, arith, Bool-cases, Option-cases,
}
use hire_flow.Prelude.Int.{ℤ, pos, negsuc, leb_ℤ, ltb_ℤ}
use hire_flow.Prelude.Table.{find_own}
use hire_flow.Payments.Types.{Wallet, Db, Env, HoldRequest, Response, hold_json}
use hire_flow.Payments.Tx.{ret}
use hire_flow.Payments.Stores.{wallet_key, find_wallet, find_hold, with_available, new_hold_row}
use hire_flow.Payments.Handlers.{place_hold, refuse_hold, hold_tx, hold_funds}
use hire_flow.Payments.Spec.{Step, placing, refusing, placed, refused}
use hire_flow.Payments.Refinement.Commit.{Follows, run_tx-Follows}

pub place_hold_ret :
    (env : Env) (req : HoldRequest) (w : Wallet) (db : Db) (n : ℕ) (r : Response) (after : Db)
    → req.amount ≡ pos n
    → place_hold env req w db ≡ ret r after
    → (0 < n)
      × (find_hold env.new_hold db.holds ≡ none)
      × (r ≡ record {
        status = 201;
        body = hold_json (new_hold_row env.new_hold env.now w.id n req.contract_id);
      })
      × (after ≡ placed env w.id n req.contract_id db)
unfolding place_hold
place_hold_ret env req w db n r after en e = ground arith

pub refuse_hold_ret :
    (env : Env) (req : HoldRequest) (w : Wallet) (db : Db) (n : ℕ) (r : Response) (after : Db)
    → req.amount ≡ pos n
    → refuse_hold env req w db ≡ ret r after
    → (r.status ≡ 422) × (after ≡ refused env w.id n req.contract_id db)
unfolding refuse_hold
refuse_hold_ret env req w db n r after en e = ground arith

pub hold_tx-Step :
    (env : Env) (req : HoldRequest) (db : Db) (n : ℕ) (r : Response) (after : Db)
    → req.amount ≡ pos n
    → hold_tx env req db ≡ ret r after
    → Step db after
unfolding hold_tx
hold_tx-Step env req db n r after en e =
    elim (Option-cases (find_wallet req.wallet_id db.wallets)) [
      | inl missing ↦ absurd (ground arith)
      | inr (w, found) ↦
          let found' = find_own wallet_key req.wallet_id db.wallets w found in
          let view = with_available db.holds w in
          elim (Bool-cases (ltb_ℤ view.available_balance req.amount)) [
            | inl short ↦
                let run : refuse_hold env req view db ≡ ret r after = ground arith in
                subst (Step db) (sym (refuse_hold_ret env req view db n r after en run).1)
                  (refusing env w n req.contract_id found' (ground arith))
            | inr covered ↦
                let run : place_hold env req view db ≡ ret r after = ground arith in
                let (positive, fresh, _, landed) =
                  place_hold_ret env req view db n r after en run in
                subst (Step db) (sym landed)
                  (placing env w n req.contract_id found' positive (ground arith) fresh)
          ]
    ]

pub positive_int : (a : ℤ) → leb_ℤ a (pos 0) ≡ false → (n : ℕ) × (a ≡ pos n)
positive_int (pos n) h = (n, refl)
positive_int (negsuc n) h = absurd (ground arith)

-- Every request to hold funds, whatever fails in it, follows the specification.
pub hold_funds-Follows :
    (env : Env) (req : Option HoldRequest) (db : Db) → Follows db (hold_funds env req db)
unfolding hold_funds
hold_funds-Follows env none db = inl refl
hold_funds-Follows env (some req) db = elim (Bool-cases (leb_ℤ req.amount (pos 0))) [
  | inl bad ↦ ground arith
  | inr good ↦
      let (n, e) = positive_int req.amount good in
      let body =
        run_tx-Follows env (hold_tx env req) db (λ r after. hold_tx-Step env req db n r after e) in
      ground arith
]
