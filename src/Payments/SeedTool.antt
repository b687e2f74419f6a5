-- ===== src/Payments/SeedTool.antt =====
-- The command services/payments/cmd/seed, which gives the users of the test data a wallet. The test
-- data name the users 0x1111…, and a UUID is a number.
use mathlib.Core.Path.{subst}
use hire_flow.Prelude.{
  ℕ, ◌≤◌, ◌≡◌, refl, sym, inl, inr, Bool, true, false, Option, none, some, List, [], ◌∷◌, arith,
  if◌then◌else◌, Option-cases, Bool-cases, ◌⊎◌,
}
use hire_flow.Prelude.Int.{int64_max}
use hire_flow.Prelude.Table.{find, is_some, All}
use hire_flow.Payments.Types.{Uuid, WalletRow, Hold, Db}
use hire_flow.Payments.Stores.{find_wallet, sum_active_by_wallet}
use hire_flow.Payments.Invariant.{IsSound}
use hire_flow.Payments.Queries.{user_key}
use hire_flow.Payments.Queries.Seeding.{added-IsSound}

pub record SeedUser : Type 0 where
  pub user_id : Uuid
  pub balance : ℕ

-- `testUsers`
abbrev pub seed_users : List SeedUser
seed_users =
    record { user_id = 0x11111111111111111111111111111111; balance = 100000 }
    ∷ record { user_id = 0x22222222222222222222222222222222; balance = 50000 }
    ∷ record { user_id = 0x33333333333333333333333333333333; balance = 0 }
    ∷ record { user_id = 0x44444444444444444444444444444444; balance = 0 }
    ∷ record { user_id = 0x55555555555555555555555555555555; balance = 0 }
    ∷ []

-- What the world decides of one statement: whether it fails, the new id, and the clock.
pub record InsertEnv : Type 0 where
  pub fails : Bool
  pub id : Uuid
  pub now : ℕ

abbrev new_row : InsertEnv → SeedUser → WalletRow
new_row env u = record {
  id = env.id;
  user_id = u.user_id;
  balance = u.balance;
  currency = "USD";
  created_at = env.now;
  updated_at = env.now;
}

-- `INSERT INTO wallets … ON CONFLICT (user_id) DO NOTHING`
unfoldable pub insert_wallet : InsertEnv → SeedUser → Db → Option Db
insert_wallet env u db = if env.fails then none else elim (find user_key u.user_id db.wallets) [
  | some w ↦ some db
  | none ↦
      if is_some (find_wallet env.id db.wallets)
      then none
      else some (record db { wallets = new_row env u ∷ db.wallets })
]

-- The loop of `main`, with one statement for each user, each of which commits by itself; the command
-- ends at the first error. The result tells whether it came to the end.
unfoldable pub seed_wallets : List (InsertEnv × SeedUser) → Db → Db × Bool
seed_wallets [] db = (db, true)
seed_wallets ((env, u) ∷ rest) db = elim (insert_wallet env u db) [
  | none ↦ (db, false)
  | some db' ↦ seed_wallets rest db'
]

abbrev pub users : List (InsertEnv × SeedUser) → List SeedUser
users [] = []
users ((env, u) ∷ rest) = u ∷ users rest

-- The balance fits, and no hold names the new id, which a foreign key ensures.
abbrev pub Seeds : List Hold → InsertEnv × SeedUser → Type 0
Seeds holds (env, u) = (u.balance ≤ int64_max) × (sum_active_by_wallet env.id holds ≡ 0)

-- one statement
insert_wallet_ok :
    (env : InsertEnv) (u : SeedUser) (db after : Db)
    → insert_wallet env u db ≡ some after
    → IsSound db
    → Seeds db.holds (env, u)
    → IsSound after × (after.holds ≡ db.holds)
unfolding insert_wallet
insert_wallet_ok env u db after e s ok = elim (Option-cases (find user_key u.user_id db.wallets)) [
  | inr (w, old) ↦
      let same : after ≡ db = ground arith in (subst IsSound (sym same) s, ground arith)
  | inl new ↦
      let fresh : find_wallet env.id db.wallets ≡ none = ground arith in
      let is : after ≡ record db { wallets = new_row env u ∷ db.wallets } = ground arith in
      (subst IsSound (sym is) (added-IsSound (new_row env u) db s fresh ok.0 ok.1), ground arith)
]

seed_wallets-IsSound :
    (us : List (InsertEnv × SeedUser)) (db : Db)
    → IsSound db
    → All (Seeds db.holds) us
    → IsSound (seed_wallets us db).0
unfolding seed_wallets
seed_wallets-IsSound [] db s ok = s
seed_wallets-IsSound ((env, u) ∷ rest) db s ok = elim (Option-cases (insert_wallet env u db)) [
  | inl failed ↦ rw (failed, seed_wallets) s
  | inr (mid, made) ↦
      let (sound, holds) = insert_wallet_ok env u db mid made s ok.0 in
      rw (made, seed_wallets)
        (seed_wallets-IsSound rest mid sound (subst (λ hs. All (Seeds hs) rest) (sym holds) ok.1))
]

abbrev HasWallet : Db → SeedUser → Type 0
HasWallet db u = is_some (find user_key u.user_id db.wallets) ≡ true

insert_wallet-HasWallet :
    (env : InsertEnv) (u : SeedUser) (db after : Db)
    → insert_wallet env u db ≡ some after
    → HasWallet after u × ((v : SeedUser) → HasWallet db v → HasWallet after v)
unfolding insert_wallet
insert_wallet-HasWallet env u db after e =
    elim (Option-cases (find user_key u.user_id db.wallets)) [
      | inr (w, old) ↦ (ground arith, λ v h. ground arith)
      | inl new ↦ (ground arith, λ v h. ground arith)
    ]

-- a wallet that is there stays
seed_wallets_keep :
    (us : List (InsertEnv × SeedUser)) (db : Db) (v : SeedUser)
    → HasWallet db v
    → HasWallet (seed_wallets us db).0 v
unfolding seed_wallets
seed_wallets_keep [] db v h = h
seed_wallets_keep ((env, u) ∷ rest) db v h = elim (Option-cases (insert_wallet env u db)) [
  | inl failed ↦ rw (failed, seed_wallets) h
  | inr (mid, made) ↦
      rw (made, seed_wallets)
        (seed_wallets_keep rest mid v ((insert_wallet-HasWallet env u db mid made).1 v h))
]

seed_wallets-HasWallet :
    (us : List (InsertEnv × SeedUser)) (db : Db)
    → (seed_wallets us db).1 ≡ true
    → All (HasWallet (seed_wallets us db).0) (users us)
unfolding seed_wallets
seed_wallets-HasWallet [] db e = tt
seed_wallets-HasWallet ((env, u) ∷ rest) db e = elim (Option-cases (insert_wallet env u db)) [
  | inl failed ↦ absurd (ground arith)
  | inr (mid, made) ↦
      let is : seed_wallets ((env, u) ∷ rest) db ≡ seed_wallets rest mid = ground arith in
      subst (λ (r : Db × Bool). All (HasWallet r.0) (u ∷ users rest)) (sym is)
        (
          seed_wallets_keep rest mid u (insert_wallet-HasWallet env u db mid made).0,
          seed_wallets-HasWallet rest mid (ground arith),
        )
]

-- nothing to do
seed_wallets_same :
    (us : List (InsertEnv × SeedUser)) (db : Db)
    → All (HasWallet db) (users us)
    → All (λ (x : InsertEnv × SeedUser). x.0.fails ≡ false) us
    → seed_wallets us db ≡ (db, true)
unfolding seed_wallets insert_wallet
seed_wallets_same [] db h w = refl
seed_wallets_same ((env, u) ∷ rest) db h w = ground (arith, seed_wallets_same rest db h.1, h.0, w.0)

-- The command keeps a sound database sound, wherever it stops: if the balances fit and no hold names
-- a new id. And if it came to its end, to run it again for the same users, with statements that
-- work, succeeds and changes nothing.
pub seed_wallets_twice :
    (us vs : List (InsertEnv × SeedUser)) (db : Db)
    → IsSound db
    → All (Seeds db.holds) us
    → users vs ≡ users us
    → All (λ (x : InsertEnv × SeedUser). x.0.fails ≡ false) vs
    → let (after, ended) = seed_wallets us db in
      IsSound after × ((ended ≡ false) ⊎ (seed_wallets vs after ≡ (after, true)))
seed_wallets_twice us vs db s ok same works = (
  seed_wallets-IsSound us db s ok,
  elim (Bool-cases (seed_wallets us db).1) [
    | inl ended ↦ inr (
        seed_wallets_same vs (seed_wallets us db).0
          (subst (All (HasWallet (seed_wallets us db).0)) (sym same)
            (seed_wallets-HasWallet us db ended))
          works)
    | inr stopped ↦ inl stopped
  ],
)
