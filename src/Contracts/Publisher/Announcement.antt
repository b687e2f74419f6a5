-- ===== src/Contracts/Publisher/Announcement.antt =====
-- The event of AcceptContract (saga.go), from its transaction to the broker.
use hire_flow.Prelude.{
  ◌*◌, ◌≤◌, ◌≡◌, refl, ap, Bool, true, false, inl, inr, none, some, List, [], ◌∷◌, ◌++◌, arith,
  if◌then◌else◌, sym,
}
use mathlib.Core.Path.{subst}
use mathlib.Core.List.{Memᴰ}
use hire_flow.Prelude.Table.{length, All, find, find-update}
use hire_flow.Outbox
use hire_flow.Outbox.{BatchEnv, batch, is_unpublished}
use hire_flow.Outbox.Drain.{Works, unpublished}
use hire_flow.Outbox.Arrival.{newest_delivered}
use hire_flow.Contracts.Types.{
  Entry, other_error, Uuid, Status, awaiting_accept, active, contract_accepted, EventType, Contract,
  Db, Result, ok, err, Env, Site, Phase, durable, refused, unacknowledged, Commit, other_error,
}
use hire_flow.Contracts.Stores.{
  contract_key, find_contract, set_status, update_status, run_tx, get_by_id, insert_entry, finish,
}
use hire_flow.Contracts.Saga.{move, emit, event_row, accept_contract}
use hire_flow.Contracts.Refinement.Rows.{update_status_ok, Result-cases}
use hire_flow.Contracts.Publisher.{publish_batch, run_publisher}

run_publisher-run :
    (envs : List BatchEnv) (db : Db) → (run_publisher envs db).1 ≡ (Outbox.run envs db.outbox).1
unfolding run_publisher publish_batch Outbox.run
run_publisher-run [] db = refl
run_publisher-run (env ∷ envs) db =
    let rows = (Outbox.publish_batch env db.outbox).1 in
    ap (λ later. (Outbox.publish_batch env db.outbox).2 ++ later)
      (run_publisher-run envs (record db { outbox = rows }))

-- the contract has the status, and its event is the newest row of the outbox, under a new id
abbrev pub Announced : Env → Uuid → Status → EventType → Db → Db → Type 0
Announced env id to event db after =
    (c : Contract) × (find_contract id after.contracts ≡ some c)
    × (c.status ≡ to)
    × (after.outbox ≡ event_row env id event c ∷ db.outbox)
    × (find Outbox.entry_key env.new_entry db.outbox ≡ none)

move-Announced :
    (env : Env) (id : Uuid) (from to : Status) (event : EventType) (db after : Db)
    → move env id from to event db ≡ ok (tt, after)
    → Announced env id to event db after
unfolding move get_by_id emit insert_entry
move-Announced env id from to event db after e =
    elim (Result-cases
      (update_status (env.fails Phase.entering Site.update_status) id from to env.now db)) [
        | inl (_, mid, up) ↦
            let (row, found, here, landed) = update_status_ok _ id from to env.now db mid up in
            let moved =
              find-update contract_key (set_status to env.now) (λ x. refl) id id db.contracts in
            (set_status to env.now row, ground arith, refl, ground arith, ground arith)
        | inr (x, failed) ↦ absurd (ground arith)
      ]

-- the newest row of the outbox, under an id of its own, reaches the broker
newest_published :
    (envs : List BatchEnv) (e : Entry) (rows : List Entry) (db : Db)
    → db.outbox ≡ e ∷ rows
    → find Outbox.entry_key e.id rows ≡ none
    → is_unpublished e ≡ true
    → All Works envs
    → unpublished db.outbox ≤ batch * length envs
    → Memᴰ e (run_publisher envs db).1
newest_published envs e rows db is fresh waits works room =
    subst (Memᴰ e) (sym (run_publisher-run envs db)) (
      subst (λ l. Memᴰ e (Outbox.run envs l).1) (sym is)
        (newest_delivered envs e rows fresh waits works
          (subst (λ l. unpublished l ≤ batch * length envs) is room)))

-- A transaction that reports success has committed.
committed :
    (b : Bool) (c : Commit) (x : Result (Unit {0} × Db)) (db : Db)
    → (if b then (err other_error, db) else finish c x db).0 ≡ ok tt
    → x ≡ ok (tt, (if b then (err other_error, db) else finish c x db).1)
committed true c x db e = cc
committed false durable (ok (_, after)) db e = refl
committed false refused (ok (_, after)) db e = cc
committed false unacknowledged (ok (_, after)) db e = cc
committed false durable (err x) db e = cc
committed false refused (err x) db e = cc
committed false unacknowledged (err x) db e = cc

-- If AcceptContract succeeds, the contract is ACTIVE, and the newest row of the outbox is the event
-- contract.accepted, which carries the contract as it now is; and within as many working batches as
-- the backlog has hundreds, rounded up, the broker receives that row as it is.
pub accept_contract-Announced :
    (env : Env) (id : Uuid) (db : Db) (envs : List BatchEnv)
    → (accept_contract env id db).0 ≡ ok tt
    → All Works envs
    → unpublished (accept_contract env id db).1.outbox ≤ batch * length envs
    → let after = (accept_contract env id db).1 in
      (c : Contract) × (find_contract id after.contracts ≡ some c)
      × (c.status ≡ active)
      × (after.outbox ≡ event_row env id contract_accepted c ∷ db.outbox)
      × Memᴰ (event_row env id contract_accepted c) (run_publisher envs after).1
unfolding accept_contract run_tx
accept_contract-Announced env id db envs done works room =
    let after = (accept_contract env id db).1 in
    let (c, found, at, is, fresh) =
      move-Announced env id awaiting_accept active contract_accepted db after (
        committed (env.fails Phase.entering Site.begin) (env.commit Phase.entering)
          (move env id awaiting_accept active contract_accepted db) db done) in
    (
      c,
      found,
      at,
      is,
      newest_published envs (event_row env id contract_accepted c) db.outbox after is fresh refl
          works room,
    )
