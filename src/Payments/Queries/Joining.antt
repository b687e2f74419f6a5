-- ===== src/Payments/Queries/Joining.antt =====
-- The join in the three queries of wallet_store.go, row by row: the sums of the active holds, one
-- for each wallet that has any, joined to the wallets by LEFT JOIN with COALESCE.
use hire_flow.Prelude.{
  ℕ, ◌+◌, ◌≡◌, refl, inl, inr, ◌⊎◌, List, [], ◌∷◌, ◌++◌, map, arith, ◌==◌, if◌then◌else◌,
}
use hire_flow.Prelude.Int.{sub_ℕ}
use hire_flow.Payments.Types.{Uuid, WalletRow, Wallet, Hold}
use hire_flow.Payments.Stores.{is_active, sum_active_by_wallet, with_available}

abbrev pub Group : Type 0
Group = Uuid × ℕ

abbrev add_group : Uuid → ℕ → List Group → List Group
add_group k n [] = (k, n) ∷ []
add_group k n ((j, m) ∷ gs) = if j == k then (j, m + n) ∷ gs else (j, m) ∷ add_group k n gs

-- `SELECT wallet_id, SUM(amount) AS held FROM holds WHERE status = 'active' GROUP BY wallet_id`
unfoldable pub group_held : List Hold → List Group
group_held [] = []
group_held (h ∷ hs) =
    let rest = group_held hs in
    if is_active h.status then add_group h.wallet_id h.amount rest else rest

-- the groups that meet the condition of the join
abbrev matching : Uuid → List Group → List ℕ
matching k [] = []
matching k ((j, n) ∷ gs) = if j == k then n ∷ matching k gs else matching k gs

abbrev selected : WalletRow → ℕ → Wallet
selected w held = record { row = w; available_balance = sub_ℕ w.balance held }

-- a wallet that meets no group has one row, with NULL for the sum
abbrev joined_rows : WalletRow → List ℕ → List Wallet
joined_rows w [] = selected w 0 ∷ []
joined_rows w (n ∷ ns) = map (selected w) (n ∷ ns)

unfoldable pub left_join : List WalletRow → List Group → List Wallet
left_join [] gs = []
left_join (w ∷ ws) gs = joined_rows w (matching w.id gs) ++ left_join ws gs

abbrev bump : ℕ → List ℕ → List ℕ
bump n [] = n ∷ []
bump n (m ∷ ms) = (m + n) ∷ ms

matching-add_group :
    (k j n : ℕ) (gs : List Group)
    → matching k (add_group j n gs) ≡ (if j == k then bump n (matching k gs) else matching k gs)
matching-add_group k j n [] = ground arith
matching-add_group k j n ((i, m) ∷ gs) = ground (arith, matching-add_group k j n gs)

-- a wallet has one group at most, with the sum of its active holds
one_group :
    (k : ℕ) (hs : List Hold)
    → (matching k (group_held hs) ≡ []) × (sum_active_by_wallet k hs ≡ 0)
      ⊎ (matching k (group_held hs) ≡ sum_active_by_wallet k hs ∷ [])
unfolding group_held sum_active_by_wallet
one_group k [] = inl (refl, refl)
one_group k (h ∷ hs) =
    let step = matching-add_group k h.wallet_id h.amount (group_held hs) in
    elim (one_group k hs) [ inl (nothing, zero_sum) ↦ ground arith | inr one ↦ ground arith ]

-- The join of the wallets with the sums of their active holds has one row for each wallet, in the
-- order of the wallets, with the balance less the active holds of that wallet, also where there are
-- none.
pub left_join-with_available :
    (ws : List WalletRow) (hs : List Hold)
    → left_join ws (group_held hs) ≡ map (with_available hs) ws
unfolding left_join
left_join-with_available [] hs = refl
left_join-with_available (w ∷ ws) hs = elim (one_group w.id hs) [
  | inl (nothing, zero_sum) ↦ ground (arith, left_join-with_available ws hs)
  | inr one ↦ ground (arith, left_join-with_available ws hs)
]
