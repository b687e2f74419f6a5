-- ===== src/Payments/HoldLife.antt =====
-- The life of a hold (hold.go) along a history of requests.
use hire_flow.Prelude.{
  ℕ, ◌≡◌, refl, ◌⊎◌, inl, inr, Bool, true, false, ◌&&◌, Option, none, some, List, arith, ◌==◌,
  if◌then◌else◌, Bool-cases,
}
use hire_flow.Prelude.Table.{sum_by, find-update}
use hire_flow.Payments.Types.{
  Uuid, active, released, transferred, Hold, TransactionType, release, transfer_debit, Transaction,
  Db, Env,
}
use hire_flow.Payments.Stores.{hold_key, find_hold, is_active, set_status}
use hire_flow.Payments.Spec.{Step, placing, refusing, freeing, moving}
use hire_flow.Payments.Service.{Request, run, run_induction}
use hire_flow.Payments.Invariant.{IsSound}

-- How a hold may look later: as it was, or, if it was active, settled in one of two ways.
abbrev pub Ages : Hold → Hold → Type 0
Ages h h' =
    (h' ≡ h)
    ⊎ (h.status ≡ active) × ((h' ≡ set_status released h) ⊎ (h' ≡ set_status transferred h))

-- Hold `id`, which was `h` before, is still there, and has aged.
abbrev pub Aged : Uuid → Hold → Db → Type 0
Aged id h after = (h' : Hold) × (find_hold id after.holds ≡ some h') × Ages h h'

abbrev HoldAges : Uuid → Db → Db → Type 0
HoldAges id before after = (h : Hold) → find_hold id before.holds ≡ some h → Aged id h after

Step-HoldAges : (id : Uuid) {db after : Db} → Step db after → HoldAges id db after
Step-HoldAges id (placing env w amount contract_id found some_amount room fresh) x e =
    (x, ground arith, inl refl)
Step-HoldAges id (refusing env w amount contract_id found short) x e = (x, e, inl refl)
Step-HoldAges id {db} (freeing env h found live) x e =
    let found' = find-update hold_key (set_status released) (λ y. refl) h.id id db.holds in
    elim (Bool-cases (h.id == id)) [
      | inl this ↦ (set_status released x, ground arith, inr (ground arith, inl refl))
      | inr other ↦ (x, ground arith, inl refl)
    ]
Step-HoldAges id {db} (moving env h source recipient found live es er differ cover fits) x e =
    let found' = find-update hold_key (set_status transferred) (λ y. refl) h.id id db.holds in
    elim (Bool-cases (h.id == id)) [
      | inl this ↦ (set_status transferred x, ground arith, inr (ground arith, inr refl))
      | inr other ↦ (x, ground arith, inl refl)
    ]

Ages-trans : (a b c : Hold) → Ages a b → Ages b c → Ages a c
Ages-trans a b c p q = ground arith

HoldAges-Step :
    (id : Uuid) (start mid after : Db)
    → IsSound mid
    → HoldAges id start mid
    → Step mid after
    → HoldAges id start after
HoldAges-Step id start mid after s p st h e =
    let (h', e', young) = p h e in
    let (h'', e'', old) = Step-HoldAges id st h' e' in (h'', e'', Ages-trans h h' h'' young old)

-- Along every history from a sound database a hold keeps its id, wallet, amount and contract, and its
-- status changes at most once, from active to released or to transferred; no hold disappears.
pub run-Aged :
    (id : Uuid) (db : Db) (requests : List (Env × Request))
    → IsSound db
    → (h : Hold) → find_hold id db.holds ≡ some h
    → Aged id h (run db requests)
run-Aged id db requests s =
    run_induction (HoldAges id) (HoldAges-Step id) db db requests s (λ h e. (h, e, inl refl))

abbrev pub settles : TransactionType → Bool
settles release = true
settles transfer_debit = true
settles _ = false

abbrev pub names : Uuid → Option Uuid → Bool
names id none = false
names id (some j) = j == id

-- the rows of the log that release the hold `id` or pay it out
unfoldable pub settlements : Uuid → Db → ℕ
settlements id db =
    sum_by (λ (t : Transaction). if settles t.type && names id t.hold_id then 1 else 0)
      db.transactions

abbrev pub settled : Option Hold → ℕ
settled none = 0
settled (some h) = if is_active h.status then 0 else 1

abbrev pub SettledOnce : Db → Type 0
SettledOnce db = (id : Uuid) → settlements id db ≡ settled (find_hold id db.holds)

Step-SettledOnce : {db after : Db} → Step db after → SettledOnce db → SettledOnce after
unfolding settlements
Step-SettledOnce (placing env w amount contract_id found some_amount room fresh) once id =
    ground (arith, once id)
Step-SettledOnce (refusing env w amount contract_id found short) once id = ground (arith, once id)
Step-SettledOnce {db} (freeing env h found live) once id =
    ground (arith, once id, find-update hold_key (set_status released) (λ y. refl) h.id id db.holds)
Step-SettledOnce {db} (moving env h source recipient found live es er differ cover fits) once id =
    ground
      (arith, once id, find-update hold_key (set_status transferred) (λ y. refl) h.id id db.holds)

-- From a sound database, a hold is settled at most once along every history: if the log has one
-- release or debit for each hold that is no longer active, and none for any other id, it still has.
pub run-SettledOnce :
    (db : Db) (requests : List (Env × Request))
    → IsSound db
    → SettledOnce db
    → SettledOnce (run db requests)
run-SettledOnce db requests s once =
    run_induction (λ start now. SettledOnce now)
      (λ start mid after sound p st. Step-SettledOnce st p) db db requests s once
