-- ===== src/Payments/Queries/Seeding.antt =====
-- `Seed` (wallet_store.go) and the invariant of the payments database.
use hire_flow.Prelude.{
  ℕ, ◌≤◌, ◌≡◌, inl, inr, Bool, none, some, ◌∷◌, arith, String, Option-cases, Bool-cases, ◌==◌, ◌⊎◌,
  sym,
}
use hire_flow.Prelude.Int.{ℤ, pos_part, int64_max}
use hire_flow.Prelude.Table.{find}
use mathlib.Core.Path.{subst}
use hire_flow.Payments.Types.{Uuid, WalletRow, Wallet, Db}
use hire_flow.Payments.Stores.{find_wallet, sum_active_by_wallet}
use hire_flow.Payments.Invariant.{IsSound}
use hire_flow.Payments.Queries.{user_key, seed}

-- a new wallet, whose id nothing names
pub added-IsSound :
    (w : WalletRow) (db : Db)
    → IsSound db
    → find_wallet w.id db.wallets ≡ none
    → w.balance ≤ int64_max
    → sum_active_by_wallet w.id db.holds ≡ 0
    → IsSound (record db { wallets = w ∷ db.wallets })
added-IsSound w db s new fits unused = record {
  wallet_keys = (new, s.wallet_keys);
  hold_keys = s.hold_keys;
  range = record { balances = (fits, s.range.balances); amounts = s.range.amounts };
  positive = s.positive;
  solvent = λ k x e. elim (Bool-cases (w.id == k)) [
    | inl this ↦ ground arith
    | inr other ↦ s.solvent k x (rw other at e)
  ];
}

-- Seeding keeps a sound database sound and gives the user a wallet, if the balance is in the range
-- of an int64 and no hold names the new id, which a foreign key ensures. A wallet that the user had
-- is returned as it was.
pub seed-IsSound :
    (fails : Bool) (id : Uuid) (now user : ℕ) (balance : ℤ) (currency : String) (db : Db)
    (w : Wallet) (after : Db)
    → IsSound db
    → pos_part balance ≤ int64_max
    → sum_active_by_wallet id db.holds ≡ 0
    → seed fails id now user balance currency db ≡ some (w, after)
    → IsSound after
      × (find user_key user after.wallets ≡ some w.row)
      × ((after ≡ db) ⊎ (find user_key user db.wallets ≡ none))
unfolding seed
seed-IsSound fails id now user balance currency db w after s fits unused e =
    elim (Option-cases (find user_key user db.wallets)) [
      | inl new ↦
          let row : WalletRow = record {
            id = id;
            user_id = user;
            balance = pos_part balance;
            currency = currency;
            created_at = now;
            updated_at = now;
          } in
          let fresh : find_wallet id db.wallets ≡ none = ground arith in
          let same : after ≡ record db { wallets = row ∷ db.wallets } = ground arith in
          let got : w.row ≡ row = ground arith in
          (
            subst IsSound (sym same) (added-IsSound row db s fresh fits unused),
            ground arith,
            inr new,
          )
      | inr (x, old) ↦
          let same : after ≡ db = ground arith in
          let got : w.row ≡ x = ground arith in (subst IsSound (sym same) s, ground arith, inl same)
    ]
