-- ===== src/Contracts/Life.antt =====
-- The life of one contract along any history.
use mathlib.Core.Path.{subst}
use mathlib.Core.Bool.{false≢true}
use hire_flow.Prelude.{
  ℕ, ◌≡◌, refl, sym, ◌∙◌, ◌⊎◌, inl, inr, Bool, true, false, some, List, arith, Bool-cases, ◌==◌,
  ◌≢◌, ap,
}
use hire_flow.Prelude.Table.{update, find-update}
use hire_flow.Contracts.Types.{
  Uuid, Status, pending, hold_pending, completed, declined, cancelled, Contract, Db, Env,
  PaymentsService,
}
use hire_flow.Contracts.Stores.{contract_key, find_contract, set_status, set_hold}
use hire_flow.Contracts.Spec.{
  ◌⟶◌, ◌⟶*◌, here, then, drawn, hold_placed, hold_refused, Effect, inserts, advances, confirms,
  notes, Effects, done, more,
}
use hire_flow.Contracts.Service.{Call, run, run-Effects}

-- What a contract says apart from its status, its hold and the time of its last change.
pub record SameTerms (c c' : Contract) : Type 0 where
  pub id : c'.id ≡ c.id
  pub client : c'.client_id ≡ c.client_id
  pub freelancer : c'.freelancer_id ≡ c.freelancer_id
  pub title : c'.title ≡ c.title
  pub description : c'.description ≡ c.description
  pub amount : c'.amount ≡ c.amount
  pub currency : c'.currency ≡ c.currency
  pub client_wallet : c'.client_wallet_id ≡ c.client_wallet_id
  pub freelancer_wallet : c'.freelancer_wallet_id ≡ c.freelancer_wallet_id
  -- the hold is set once, on the way out of PENDING
  pub hold : (c'.hold_id ≡ c.hold_id) ⊎ (c.status ≡ pending)

-- Contract `id`, which was `c` before, is still there, and has evolved.
abbrev pub Evolved : Uuid → Contract → Db → Type 0
Evolved id c after =
    (c' : Contract) × (find_contract id after.contracts ≡ some c')
    × SameTerms c c'
    × (c.status ⟶* c'.status)

abbrev ContractEvolves : Uuid → Db → Db → Type 0
ContractEvolves id before after =
    (c : Contract) → find_contract id before.contracts ≡ some c → Evolved id c after

⟶*_trans : {a b c : Status} → a ⟶* b → b ⟶* c → a ⟶* c
⟶*_trans p here = p
⟶*_trans p (then q e) = then (⟶*_trans p q) e

SameTerms-refl : (c : Contract) → SameTerms c c
SameTerms-refl c = record {
  id = refl;
  client = refl;
  freelancer = refl;
  title = refl;
  description = refl;
  amount = refl;
  currency = refl;
  client_wallet = refl;
  freelancer_wallet = refl;
  hold = inl refl;
}

set_status-SameTerms : (to : Status) (now : ℕ) (c : Contract) → SameTerms c (set_status to now c)
set_status-SameTerms to now c = record {
  id = refl;
  client = refl;
  freelancer = refl;
  title = refl;
  description = refl;
  amount = refl;
  currency = refl;
  client_wallet = refl;
  freelancer_wallet = refl;
  hold = inl refl;
}

confirmed-SameTerms :
    (h : Uuid) (now : ℕ) (c : Contract)
    → c.status ≡ pending
    → SameTerms c (set_hold h now (set_status hold_pending now c))
confirmed-SameTerms h now c p = record {
  id = refl;
  client = refl;
  freelancer = refl;
  title = refl;
  description = refl;
  amount = refl;
  currency = refl;
  client_wallet = refl;
  freelancer_wallet = refl;
  hold = inr p;
}

pending_last : {x y : Status} → x ⟶ y → y ≢ pending
pending_last (drawn hold_placed) e = cc
pending_last (drawn _) e = cc
pending_last hold_refused e = cc

-- a contract that is pending has been pending all along
pending_source : {a b : Status} → a ⟶* b → b ≡ pending → a ≡ pending
pending_source here e = e
pending_source (then p edge) e = absurd (pending_last edge e)

hold_trans :
    (a b c : Contract)
    → a.status ⟶* b.status
    → (b.hold_id ≡ a.hold_id) ⊎ (a.status ≡ pending)
    → (c.hold_id ≡ b.hold_id) ⊎ (b.status ≡ pending)
    → (c.hold_id ≡ a.hold_id) ⊎ (a.status ≡ pending)
hold_trans a b c path p (inr q) = inr (pending_source path q)
hold_trans a b c path (inr p) q = inr p
hold_trans a b c path (inl p) (inl q) = inl (q ∙ p)

SameTerms-trans :
    (a b c : Contract) → a.status ⟶* b.status → SameTerms a b → SameTerms b c → SameTerms a c
SameTerms-trans a b c path p q = record {
  id = q.id ∙ p.id;
  client = q.client ∙ p.client;
  freelancer = q.freelancer ∙ p.freelancer;
  title = q.title ∙ p.title;
  description = q.description ∙ p.description;
  amount = q.amount ∙ p.amount;
  currency = q.currency ∙ p.currency;
  client_wallet = q.client_wallet ∙ p.client_wallet;
  freelancer_wallet = q.freelancer_wallet ∙ p.freelancer_wallet;
  hold = hold_trans a b c path p.hold q.hold;
}

Effect-ContractEvolves : (id : Uuid) (db after : Db) → Effect db after → ContractEvolves id db after
Effect-ContractEvolves id db after (inserts row i) c e =
    (c, ground (arith, i.fresh, i.rows), SameTerms-refl c, here)
Effect-ContractEvolves id db after (advances k from to edge a) c e =
    let found = find-update contract_key (set_status to a.at) (λ x. refl) k id db.contracts in
    elim (Bool-cases (k == id)) [
      | inl this ↦
          let same : c.status ≡ from = ground (arith, a.found, a.here) in
          (
            set_status to a.at c,
            ground (arith, a.rows),
            set_status-SameTerms to a.at c,
            then here (subst (λ x. x ⟶ to) (sym same) edge),
          )
      | inr other ↦ (c, ground (arith, a.rows), SameTerms-refl c, here)
    ]
Effect-ContractEvolves id db after (confirms k h x) c e =
    let first =
      find-update contract_key (set_status hold_pending x.at) (λ y. refl) k id db.contracts in
    let second =
      find-update contract_key (set_hold h x.at) (λ y. refl) k id
        (update contract_key k (set_status hold_pending x.at) db.contracts) in
    elim (Bool-cases (k == id)) [
      | inl this ↦
          let same : c.status ≡ pending = ground (arith, x.found, x.here) in
          (
            set_hold h x.at (set_status hold_pending x.at c),
            ground (arith, x.rows),
            confirmed-SameTerms h x.at c same,
            then here (subst (λ y. y ⟶ hold_pending) (sym same) (drawn hold_placed)),
          )
      | inr other ↦ (c, ground (arith, x.rows), SameTerms-refl c, here)
    ]
Effect-ContractEvolves id db after (notes rows ms) c e = (c, ground arith, SameTerms-refl c, here)

Effects-ContractEvolves :
    (id : Uuid) {db after : Db} → Effects db after → ContractEvolves id db after
Effects-ContractEvolves id done c e = (c, e, SameTerms-refl c, here)
Effects-ContractEvolves id (more {mid} {after} p effect) c e =
    let (c', e', same, path) = Effects-ContractEvolves id p c e in
    let (c'', e'', same', path') = Effect-ContractEvolves id mid after effect c' e' in
    (c'', e'', SameTerms-trans c c' c'' path same same', ⟶*_trans path path')

-- Along every history of calls and payment events, whatever fails in them, a contract stays in the
-- table with its parties, terms, amount and wallets, its hold is set at most while it is pending, and
-- its status changes only along the diagram of contract.go and from PENDING to CANCELLED.
pub run-Evolved :
    {S : Type 0} (id : Uuid) (calls : List (Env × PaymentsService S × Call)) (s : S) (db : Db)
    (c : Contract)
    → find_contract id db.contracts ≡ some c
    → Evolved id c (run calls s db).1
run-Evolved id calls s db = Effects-ContractEvolves id (run-Effects calls s db)

abbrev pub is_final : Status → Bool
is_final completed = true
is_final declined = true
is_final cancelled = true
is_final _ = false

final_edge : {a b : Status} → a ⟶ b → is_final a ≡ false
final_edge (drawn hold_placed) = refl
final_edge (drawn _) = refl
final_edge hold_refused = refl

final_path : {a b : Status} → a ⟶* b → is_final a ≡ true → b ≡ a
final_path here f = refl
final_path (then p edge) f =
    let same = final_path p f in absurd (false≢true (sym (final_edge edge) ∙ ap is_final same ∙ f))

-- A contract that was completed, declined or cancelled stays so, with the hold that it had, along
-- every history.
pub run_final :
    {S : Type 0} (id : Uuid) (calls : List (Env × PaymentsService S × Call)) (s : S) (db : Db)
    (c : Contract)
    → find_contract id db.contracts ≡ some c
    → is_final c.status ≡ true
    → (c' : Contract) × (find_contract id (run calls s db).1.contracts ≡ some c')
      × (c'.status ≡ c.status)
      × (c'.hold_id ≡ c.hold_id)
run_final id calls s db c e f =
    let (c', e', same, path) = run-Evolved id calls s db c e in
    (c', e', final_path path f, ground (arith, same.hold))
