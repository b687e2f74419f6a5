-- ===== src/Payments/Queries/Tests.antt =====
-- The theorems on the queries of the payments service at a small database.
use hire_flow.Prelude.{◌≡◌, refl, some, ◌∷◌, map, arith}
use hire_flow.Prelude.Int.{pos}
use hire_flow.Prelude.{ℕ, ◌⊎◌, List, [], true}
use hire_flow.Payments.SeedTool.{
  InsertEnv, SeedUser, insert_wallet, seed_wallets, seed_wallets_twice,
}
use hire_flow.Payments.Queries.Joining.{left_join, group_held, left_join-with_available}
use hire_flow.Payments.Types.{WalletRow, Db}
use hire_flow.Payments.Stores.{sum_active_by_wallet, with_available}
use hire_flow.Payments.Invariant.{IsSound}
use hire_flow.Payments.Queries.{seed, false}
use hire_flow.Payments.Tests.{start, start-IsSound}

abbrev new_wallet : WalletRow
new_wallet = record {
  id = 3;
  user_id = 13;
  balance = 10;
  currency = "USD";
  created_at = 9;
  updated_at = 9;
}

abbrev seeded : Db
seeded = record start { wallets = new_wallet ∷ start.wallets }

seed_run :
    seed false 3 9 13 (pos 10) "USD" start
    ≡ some (record { row = new_wallet; available_balance = pos 10 }, seeded)
unfolding seed
seed_run = refl

left_join-with_available_example :
    left_join start.wallets (group_held start.holds)
    ≡ map (with_available start.holds) start.wallets
left_join-with_available_example = left_join-with_available start.wallets start.holds

abbrev inserting : ℕ → InsertEnv
inserting id = record { fails = false; id = id; now = 9 }

abbrev two_users : List (InsertEnv × SeedUser)
two_users =
    (inserting 30, record { user_id = 11; balance = 7 })
    ∷ (inserting 31, record { user_id = 14; balance = 50000 })
    ∷ []

seed_wallets_twice_example :
    let (after, ended) = seed_wallets two_users start in
    IsSound after × ((ended ≡ false) ⊎ (seed_wallets two_users after ≡ (after, true)))
unfolding seed_wallets insert_wallet sum_active_by_wallet
seed_wallets_twice_example =
    seed_wallets_twice two_users two_users start start-IsSound
      ((omega arith, refl), ((omega arith, refl), tt)) refl (refl, (refl, tt))
