-- ===== src/Contracts/Refinement/Rows.antt =====
-- The transactions of the saga, as steps of Contracts/Spec.
use hire_flow.Prelude.{
  ℕ, ◌≡◌, refl, ◌⊎◌, inl, inr, Bool, true, false, some, List, [], ◌∷◌, arith, Option-cases,
  if◌then◌else◌,
}
use hire_flow.Prelude.Table.{update}
use hire_flow.Contracts.Spec.{Inserted, Advanced, Confirmed}
use hire_flow.Contracts.Types.{
  Uuid, Status, pending, hold_pending, same_status, Contract, Milestone, MilestoneSpec, EventType,
  Db, Result, ok, err, SagaError, other_error, Env, Site, Phase, Commit, durable, refused,
  unacknowledged,
}
use hire_flow.Contracts.Stores.{
  contract_key, find_contract, set_status, Sql, run_tx, finish, update_status, create_batch,
  create_milestone_row, inserted,
}
use hire_flow.Contracts.Saga.{insert_new, prepared, move, leave, confirm, milestone_rows}

pub same_status_eq : (a b : Status) → same_status a b ≡ true → a ≡ b
same_status_eq a b h = ground arith

-- How a transaction ends: it fails and changes nothing, or it has the effect `Q`, which the caller
-- may not learn of.
pub data Outcome {A : Type 0} (Q : Db → Type 0) (db : Db) : Result A × Db → Type 0 where
  unchanged : (e : SagaError) → Outcome Q db (err e, db)
  happened : (r : Result A) (after : Db) → Q after → Outcome Q db (r, after)

pub run_tx-Outcome :
    {A : Type 0} (Q : Db → Type 0) (begin_fails : Bool) (c : Commit) (body : Sql A) (db : Db)
    → ((a : A) (after : Db) → body db ≡ ok (a, after) → Q after)
    → Outcome Q db (run_tx begin_fails c body db)
unfolding run_tx
run_tx-Outcome {A} Q begin_fails c body db effect = begun begin_fails
  where
    ended : (x : Result (A × Db)) → body db ≡ x → (k : Commit) → Outcome Q db (finish k x db)
    ended (err e) q k = unchanged e
    ended (ok (a, after)) q durable = happened (ok a) after (effect a after q)
    ended (ok (a, after)) q refused = unchanged other_error
    ended (ok (a, after)) q unacknowledged = happened (err other_error) after (effect a after q)

    begun : (b : Bool) → Outcome Q db (if b then (err other_error, db) else finish c (body db) db)
    begun true = unchanged other_error
    begun false = ended (body db) refl c

-- a successful update found the contract in the status that it was to leave
pub update_status_ok :
    (fails : Bool) (id : Uuid) (from to : Status) (now : ℕ) (db after : Db)
    → update_status fails id from to now db ≡ ok (tt, after)
    → (c : Contract) × (find_contract id db.contracts ≡ some c)
      × (c.status ≡ from)
      × (after ≡ record db { contracts = update contract_key id (set_status to now) db.contracts })
unfolding update_status
update_status_ok fails id from to now db after e =
    elim (Option-cases (find_contract id db.contracts)) [
      | inl missing ↦ absurd (ground arith)
      | inr (c, found) ↦ (c, found, same_status_eq c.status from (ground arith), ground arith)
    ]

-- a successful transaction that begins with an update and else writes to the outbox alone
pub advance :
    (fails : Bool) (id : Uuid) (from to : Status) (now : ℕ) (db mid after : Db)
    → update_status fails id from to now db ≡ ok (tt, mid)
    → after ≡ record mid { outbox = after.outbox }
    → Advanced id from to db after
advance fails id from to now db mid after up rest =
    let (c, found, here, landed) = update_status_ok fails id from to now db mid up in
    record {
      row = c;
      at = now;
      found = found;
      here = here;
      rows = ground arith;
      others = ground arith;
    }

pub Result-cases :
    {A : Type 0} (r : Result (A × Db))
    → ((a : A) × (after : Db) × (r ≡ ok (a, after))) ⊎ ((e : SagaError) × (r ≡ err e))
Result-cases (ok (a, after)) = inl (a, after, refl)
Result-cases (err e) = inr (e, refl)

module _ (env : Env) (db after : Db) where
  pub move_ok :
      (id : Uuid) (from to : Status) (event : EventType)
      → move env id from to event db ≡ ok (tt, after)
      → Advanced id from to db after
  unfolding move
  move_ok id from to event e =
      elim (Result-cases
        (update_status (env.fails Phase.entering Site.update_status) id from to env.now db)) [
          | inl (_, mid, up) ↦ advance _ id from to env.now db mid after up (ground arith)
          | inr (x, failed) ↦ absurd (ground arith)
        ]

  pub leave_ok :
      (c : Contract) (from to : Status) (event : EventType)
      → leave env c from to event db ≡ ok (tt, after)
      → Advanced c.id from to db after
  unfolding leave
  leave_ok c from to event e =
      elim (Result-cases
        (update_status (env.fails Phase.leaving Site.update_status) c.id from to env.now db)) [
          | inl (_, mid, up) ↦ advance _ c.id from to env.now db mid after up (ground arith)
          | inr (x, failed) ↦ absurd (ground arith)
        ]

  pub confirm_ok :
      (c : Contract) (hold_id : Uuid)
      → confirm env c hold_id db ≡ ok (tt, after)
      → Confirmed c.id hold_id db after
  unfolding confirm
  confirm_ok c hold_id e =
      elim (Result-cases (
        update_status (env.fails Phase.confirming Site.update_status) c.id pending hold_pending
          env.now db)) [
            | inl (_, mid, up) ↦
                let (row, found, here, landed) =
                  update_status_ok _ c.id pending hold_pending env.now db mid up in
                record {
                  row = row;
                  at = env.now;
                  found = found;
                  here = here;
                  rows = ground arith;
                  others = ground arith;
                }
            | inr (x, failed) ↦ absurd (ground arith)
          ]

  create_batch_rows :
      (fails : Bool) (ms : List Milestone) (before : Db)
      → create_batch fails ms before ≡ ok (tt, after)
      → after ≡ record before { milestones = after.milestones }
  unfolding create_batch create_milestone_row
  create_batch_rows fails [] before e = ground arith
  create_batch_rows fails (m ∷ ms) before e =
      elim (Result-cases (create_milestone_row fails m before)) [
        | inl (_, mid, made) ↦ ground (arith, create_batch_rows fails ms mid)
        | inr (x, failed) ↦ absurd (ground arith)
      ]

  pub insert_new_ok :
      (c : Contract) (ms : List MilestoneSpec)
      → insert_new env c ms db ≡ ok (tt, after)
      → Inserted (inserted env.now (prepared env c)) db after
  unfolding insert_new
  insert_new_ok c ms e =
      let row = inserted env.now (prepared env c) in
      let rest =
        create_batch_rows (env.fails Phase.creating Site.create_milestone) (milestone_rows env 0 ms)
          (record db { contracts = row ∷ db.contracts }) in
      record {
        fresh = ground arith;
        new = refl;
        bare = refl;
        rows = ground (arith, rest);
        events = ground (arith, rest);
      }
