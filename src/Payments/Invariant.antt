-- ===== src/Payments/Invariant.antt =====
-- The invariant of the payments database: keys are unique, amounts are in range, and no wallet has
-- more on hold than it owns.
pub mod Steps
use hire_flow.Prelude.{ℕ, ◌≤◌, ◌<◌, ◌≡◌, some}
use hire_flow.Prelude.Table.{Keyed, All}
use hire_flow.Payments.Types.{Uuid, WalletRow, Hold, Db}
use hire_flow.Payments.Stores.{wallet_key, hold_key, find_wallet, sum_active_by_wallet}
use hire_flow.Payments.Refinement.Transfer.{IsInRange}

-- What is on hold in a wallet is covered by its balance.
abbrev pub IsSolvent : Db → Type 0
IsSolvent db =
    (k : Uuid) (w : WalletRow)
    → find_wallet k db.wallets ≡ some w
    → sum_active_by_wallet k db.holds ≤ w.balance

pub record IsSound (db : Db) : Type 0 where
  pub wallet_keys : Keyed wallet_key db.wallets
  pub hold_keys : Keyed hold_key db.holds
  pub range : IsInRange db
  pub positive : All (λ (h : Hold). 0 < h.amount) db.holds
  pub solvent : IsSolvent db
