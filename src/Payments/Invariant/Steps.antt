-- ===== src/Payments/Invariant/Steps.antt =====
-- The steps of Payments/Spec and the invariant.
use hire_flow.Prelude.{
  ℕ, ◌+◌, ◌-◌, ◌≤◌, ◌<◌, ◌≡◌, ◌≢◌, refl, false, some, List, arith, ◌==◌, if◌then◌else◌,
}
use hire_flow.Prelude.Int.{int64_max}
use hire_flow.Prelude.Table.{
  Keyed, All, All-find, All-update, update, update-Keyed, find-update, find_key, find_own,
  sum_by-update,
}
use hire_flow.Payments.Types.{
  Uuid, WalletRow, HoldStatus, active, released, transferred, Hold, Db, Env,
}
use hire_flow.Payments.Stores.{
  wallet_key, hold_key, find_wallet, find_hold, is_active, held_by, sum_active_by_wallet,
  set_balance, set_status,
}
use hire_flow.Payments.Spec.{Step, placing, refusing, freeing, moving, placed, freed, moved}
use hire_flow.Payments.Refinement.Transfer.{IsInRange}
use hire_flow.Payments.Invariant.{IsSolvent, IsSound}

-- A hold that ends gives its amount back to what its wallet has available.
pub sum_active-set_status :
    (k : Uuid) (h : Hold) (s : HoldStatus) (holds : List Hold)
    → is_active s ≡ false
    → find_hold h.id holds ≡ some h
    → h.status ≡ active
    → Keyed hold_key holds
    → sum_active_by_wallet k (update hold_key h.id (set_status s) holds)
        + (if h.wallet_id == k then h.amount else 0)
      ≡ sum_active_by_wallet k holds
unfolding sum_active_by_wallet
sum_active-set_status k h s holds ended found live keys =
    ground (arith, sum_by-update hold_key (set_status s) (held_by k) h.id holds h keys found)

placing-IsSolvent :
    (env : Env) (w : WalletRow) (amount : ℕ) (contract_id : Uuid) (db : Db)
    → IsSolvent db
    → find_wallet w.id db.wallets ≡ some w
    → sum_active_by_wallet w.id db.holds + amount ≤ w.balance
    → IsSolvent (placed env w.id amount contract_id db)
unfolding sum_active_by_wallet
placing-IsSolvent env w amount contract_id db solvent found room k x e =
    ground (arith, solvent k x e)

freeing-IsSolvent :
    (env : Env) (h : Hold) (db : Db)
    → IsSound db
    → find_hold h.id db.holds ≡ some h
    → h.status ≡ active
    → IsSolvent (freed env h db)
freeing-IsSolvent env h db s found live k x e = omega (
  arith,
  s.solvent k x e,
  sum_active-set_status k h released db.holds refl found live s.hold_keys,
)

-- the balances after a transfer
pub find-moved :
    (env : Env) (h : Hold) (source recipient : WalletRow) (db : Db) (k : Uuid)
    → source.id ≢ recipient.id
    → find_wallet source.id db.wallets ≡ some source
    → find_wallet recipient.id db.wallets ≡ some recipient
    → find_wallet k (moved env h source recipient db).wallets ≡ (
        if recipient.id == k
        then some (set_balance (recipient.balance + h.amount) env.now recipient)
        else if source.id == k
        then some (set_balance (source.balance - h.amount) env.now source)
        else find_wallet k db.wallets)
find-moved env h source recipient db k differ es er =
    let debited =
      update wallet_key source.id (set_balance (source.balance - h.amount) env.now) db.wallets in
    ground (
      arith,
      find-update wallet_key (set_balance (recipient.balance + h.amount) env.now) (λ x. refl)
          recipient.id k debited,
      find-update wallet_key (set_balance (source.balance - h.amount) env.now) (λ x. refl) source.id
          k db.wallets,
    )

moving-IsSolvent :
    (env : Env) (h : Hold) (source recipient : WalletRow) (db : Db)
    → IsSound db
    → find_hold h.id db.holds ≡ some h
    → h.status ≡ active
    → find_wallet source.id db.wallets ≡ some source
    → source.id ≡ h.wallet_id
    → find_wallet recipient.id db.wallets ≡ some recipient
    → source.id ≢ recipient.id
    → h.amount ≤ source.balance
    → IsSolvent (moved env h source recipient db)
moving-IsSolvent env h source recipient db s found live es own er differ cover k x e = ground (
  arith,
  find-moved env h source recipient db k differ es er,
  s.solvent k source,
  s.solvent k recipient,
  s.solvent k x,
  sum_active-set_status k h transferred db.holds refl found live s.hold_keys,
)

abbrev Balances : List WalletRow → Type 0
Balances = All (λ (w : WalletRow). w.balance ≤ int64_max)

balance_in_range :
    (k : Uuid) (w : WalletRow) (db : Db)
    → IsInRange db
    → find_wallet k db.wallets ≡ some w
    → w.balance ≤ int64_max
balance_in_range k w db r found =
    All-find wallet_key (λ (x : WalletRow). x.balance ≤ int64_max) k db.wallets w r.balances found

module _ (s : HoldStatus) (h : Hold) (db : Db) (sound : IsSound db) where
  ended_keys : Keyed hold_key (update hold_key h.id (set_status s) db.holds)
  ended_keys = update-Keyed hold_key (set_status s) (λ x. refl) h.id db.holds sound.hold_keys

  ended_amounts :
      All (λ (x : Hold). x.amount ≤ int64_max) (update hold_key h.id (set_status s) db.holds)
  ended_amounts = All-update hold_key _ (set_status s) h.id db.holds (λ x p. p) sound.range.amounts

  ended_positive : All (λ (x : Hold). 0 < x.amount) (update hold_key h.id (set_status s) db.holds)
  ended_positive = All-update hold_key _ (set_status s) h.id db.holds (λ x p. p) sound.positive

module _ (n k now : ℕ) (ws : List WalletRow) where
  set_keys : Keyed wallet_key ws → Keyed wallet_key (update wallet_key k (set_balance n now) ws)
  set_keys h = update-Keyed wallet_key (set_balance n now) (λ x. refl) k ws h

  set_range : n ≤ int64_max → Balances ws → Balances (update wallet_key k (set_balance n now) ws)
  set_range fits h = All-update wallet_key _ (set_balance n now) k ws (λ x p. fits) h

-- Every step keeps the invariant.
pub Step-IsSound : {db after : Db} → Step db after → IsSound db → IsSound after
Step-IsSound {db} (placing env w amount contract_id found some_amount room fresh) s = record {
  wallet_keys = s.wallet_keys;
  hold_keys = (fresh, s.hold_keys);
  range = record {
    balances = s.range.balances;
    amounts = (omega (arith, balance_in_range w.id w db s.range found), s.range.amounts);
  };
  positive = (some_amount, s.positive);
  solvent = placing-IsSolvent env w amount contract_id db s.solvent found room;
}
Step-IsSound (refusing env w amount contract_id found short) s = record {
  wallet_keys = s.wallet_keys;
  hold_keys = s.hold_keys;
  range = record { balances = s.range.balances; amounts = s.range.amounts };
  positive = s.positive;
  solvent = s.solvent;
}
Step-IsSound {db} (freeing env h found live) s = record {
  wallet_keys = s.wallet_keys;
  hold_keys = ended_keys released h db s;
  range = record { balances = s.range.balances; amounts = ended_amounts released h db s };
  positive = ended_positive released h db s;
  solvent = freeing-IsSolvent env h db s found live;
}
Step-IsSound {db} (moving env h source recipient found live es er differ cover fits) s =
    let own = find_key wallet_key h.wallet_id db.wallets source es in
    let debited =
      update wallet_key source.id (set_balance (source.balance - h.amount) env.now) db.wallets in
    record {
      wallet_keys =
          set_keys _ recipient.id env.now debited
            (set_keys _ source.id env.now db.wallets s.wallet_keys);
      hold_keys = ended_keys transferred h db s;
      range = record {
        balances = set_range _ recipient.id env.now debited fits (
            set_range _ source.id env.now db.wallets
              (omega (arith, balance_in_range h.wallet_id source db s.range es)) s.range.balances);
        amounts = ended_amounts transferred h db s;
      };
      positive = ended_positive transferred h db s;
      solvent =
          moving-IsSolvent env h source recipient db s found live
            (find_own wallet_key h.wallet_id db.wallets source es) own er differ cover;
    }
