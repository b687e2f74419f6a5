-- ===== src/Payments/Refinement/Holds.antt =====
-- What each handler does to the table of holds, and what its answer says of it.
use hire_flow.Prelude.{
  ℕ, ◌≡◌, ◌≢◌, refl, ◌∷◌, ◌⊎◌, inl, inr, none, Bool, true, false, some, arith, Bool-cases,
  Option-cases, ◌==◌, if◌then◌else◌, ap,
}
use hire_flow.Prelude.Int.{pos}
use hire_flow.Prelude.Table.{find, find_key, find-update, update}
use hire_flow.Payments.Types.{
  Uuid, HoldStatus, active, released, transferred, Hold, Db, Env, HoldRequest, ReleaseRequest,
  TransferRequest, Response, hold_json, Commit, Site, durable, refused, unacknowledged,
  hold_id_required, payment_held, hold_payload, recipient_wallet_id_required,
}
use hire_flow.Payments.Tx.{run_tx, Tx, TxResult, ret, abort, internal_error, finish}
use hire_flow.Payments.Stores.{
  hold_key, wallet_key, entry_key, find_wallet, find_hold, new_hold_row, set_status,
}
use hire_flow.Payments.Handlers.{
  hold_funds, hold_tx, place_hold, refuse_hold, release_funds, release_tx, transfer_funds,
  transfer_tx, move_funds, fail, event_row,
}
use hire_flow.Payments.Refinement.Release.{release_tx_ret}

-- A request to hold funds leaves every hold that there was.
pub hold_funds_keeps :
    (env : Env) (req : HoldRequest) (db : Db) (k : Uuid) (h : Hold)
    → find_hold k db.holds ≡ some h
    → find_hold k (hold_funds env (some req) db).1.holds ≡ some h
unfolding hold_funds hold_tx place_hold refuse_hold run_tx
hold_funds_keeps env req db k h found = ground arith

-- An answer 201 names a hold that is there, active and made for the request.
pub hold_funds_created :
    (env : Env) (req : HoldRequest) (db : Db) (n : ℕ)
    → req.amount ≡ pos n
    → let (r, after) = hold_funds env (some req) db in
      r.status ≡ 201
      → let h = new_hold_row env.new_hold env.now req.wallet_id n req.contract_id in
        (r.body ≡ hold_json h) × (find_hold h.id after.holds ≡ some h)
unfolding hold_funds hold_tx place_hold refuse_hold run_tx
hold_funds_created env req db n en e = elim (Option-cases (find_wallet req.wallet_id db.wallets)) [
  | inl missing ↦ absurd (ground arith)
  | inr (w, found) ↦ ground (arith, find_key wallet_key req.wallet_id db.wallets w found)
]

-- An answer 201 leaves the event of the hold as the newest row of the outbox, under a new id.
pub hold_funds_emitted :
    (env : Env) (req : HoldRequest) (db : Db) (n : ℕ)
    → req.amount ≡ pos n
    → let (r, after) = hold_funds env (some req) db in
      r.status ≡ 201
      → let h = new_hold_row env.new_hold env.now req.wallet_id n req.contract_id in
        (req.contract_id ≢ 0)
        × (find entry_key env.new_entry db.outbox ≡ none)
        × (after.outbox ≡ event_row env h.id payment_held (hold_payload h) ∷ db.outbox)
unfolding hold_funds hold_tx place_hold refuse_hold run_tx
hold_funds_emitted env req db n en e = elim (Option-cases (find_wallet req.wallet_id db.wallets)) [
  | inl missing ↦ absurd (ground arith)
  | inr (w, found) ↦ ground (arith, find_key wallet_key req.wallet_id db.wallets w found)
]

-- A settlement of hold `id`: the other holds stay; it is answered with another status than 200 and
-- leaves the hold, or the hold was active and is settled.
abbrev pub SettlesHold : HoldStatus → Uuid → Db → Response × Db → Type 0
SettlesHold to id db (r, after) =
    ((k : Uuid) → k ≢ id → find_hold k after.holds ≡ find_hold k db.holds)
    × (((r.status == 200) ≡ false) × (find_hold id after.holds ≡ find_hold id db.holds)
        ⊎ ((h : Hold) × (find_hold id db.holds ≡ some h)
            × (h.status ≡ active)
            × (find_hold id after.holds ≡ some (set_status to h))))

refused_settlement :
    (to : HoldStatus) (id : Uuid) (db : Db) (r : Response)
    → (r.status == 200) ≡ false
    → SettlesHold to id db (r, db)
refused_settlement to id db r e = ((λ k ne. refl), inl (e, refl))

-- the rows after a settlement that went through
settled_hold :
    (to : HoldStatus) (id : Uuid) (h : Hold) (db : Db) (r : Response) (after : Db)
    → find_hold id db.holds ≡ some h
    → h.status ≡ active
    → after.holds ≡ update hold_key h.id (set_status to) db.holds
    → SettlesHold to id db (r, after)
settled_hold to id h db r after found live rows =
    let key = find_key hold_key id db.holds h found in
    (
      (λ k ne.
          ground (arith, rows, find-update hold_key (set_status to) (λ y. refl) h.id k db.holds)),
      inr (
        h,
        found,
        live,
        ground (arith, rows, find-update hold_key (set_status to) (λ y. refl) h.id id db.holds),
      ),
    )

run_tx-SettlesHold :
    (to : HoldStatus) (id : Uuid) (env : Env) (body : Tx Response) (db : Db)
    → ((r : Response) (after : Db)
        → body db ≡ ret r after
        → SettlesHold to id db (r, after) × SettlesHold to id db (internal_error, after))
    → ((r : Response) → body db ≡ abort r → (r.status == 200) ≡ false)
    → SettlesHold to id db (run_tx env body db)
unfolding run_tx
run_tx-SettlesHold to id env body db committed aborted = begun (env.fails Site.begin)
  where
    ended :
        (x : TxResult Response) → body db ≡ x → (c : Commit) → SettlesHold to id db (finish c x db)
    ended (ret r after) e durable = (committed r after e).0
    ended (ret r after) e refused = refused_settlement to id db internal_error refl
    ended (ret r after) e unacknowledged = (committed r after e).1
    ended (abort r) e c = refused_settlement to id db r (aborted r e)

    begun :
        (b : Bool)
        → SettlesHold to id db (if b then (internal_error, db) else finish env.commit (body db) db)
    begun true = refused_settlement to id db internal_error refl
    begun false = ended (body db) refl env.commit

release_tx-SettlesHold :
    (env : Env) (req : ReleaseRequest) (db : Db) (r r' : Response) (after : Db)
    → release_tx env req db ≡ ret r after
    → SettlesHold released req.hold_id db (r', after)
release_tx-SettlesHold env req db r r' after e =
    elim (Option-cases (find_hold req.hold_id db.holds)) [
      | inl missing ↦ absurd (unfold release_tx in ground arith)
      | inr (h, found) ↦
          let (live, _, landed) = release_tx_ret env req h db r after found e in
          settled_hold released req.hold_id h db r' after found live
            (ap (λ (x : Db). x.holds) landed)
    ]

-- A release settles the hold that it names, or leaves it; other holds stay.
pub release_funds-SettlesHold :
    (env : Env) (req : ReleaseRequest) (db : Db)
    → SettlesHold released req.hold_id db (release_funds env (some req) db)
unfolding release_funds
release_funds-SettlesHold env req db = elim (Bool-cases (req.hold_id == 0)) [
  | inl nil ↦ rw nil (refused_settlement released req.hold_id db (fail 400 hold_id_required) refl)
  | inr given ↦ rw given (
      run_tx-SettlesHold released req.hold_id env (release_tx env req) db
        (λ r after e. (
          release_tx-SettlesHold env req db r r after e,
          release_tx-SettlesHold env req db r internal_error after e,
        ))
        (λ r e. unfold release_tx in ground arith))
]

transfer_tx-SettlesHold :
    (env : Env) (req : TransferRequest) (db : Db) (r r' : Response) (after : Db)
    → transfer_tx env req db ≡ ret r after
    → SettlesHold transferred req.hold_id db (r', after)
unfolding transfer_tx move_funds
transfer_tx-SettlesHold env req db r r' after e =
    elim (Option-cases (find_hold req.hold_id db.holds)) [
      | inl missing ↦ absurd (ground arith)
      | inr (h, found) ↦
          settled_hold transferred req.hold_id h db r' after found (ground arith) (ground arith)
    ]

-- A transfer settles the hold that it names, or leaves it; other holds stay.
pub transfer_funds-SettlesHold :
    (env : Env) (req : TransferRequest) (db : Db)
    → SettlesHold transferred req.hold_id db (transfer_funds env (some req) db)
unfolding transfer_funds
transfer_funds-SettlesHold env req db = elim (Bool-cases (req.hold_id == 0)) [
  | inl nil ↦
      rw nil (refused_settlement transferred req.hold_id db (fail 400 hold_id_required) refl)
  | inr given ↦ rw given (elim (Bool-cases (req.recipient_wallet_id == 0)) [
    | inl nobody ↦
        rw nobody (
          refused_settlement transferred req.hold_id db (fail 400 recipient_wallet_id_required)
            refl)
    | inr somebody ↦ rw somebody (
        run_tx-SettlesHold transferred req.hold_id env (transfer_tx env req) db
          (λ r after e. (
            transfer_tx-SettlesHold env req db r r after e,
            transfer_tx-SettlesHold env req db r internal_error after e,
          ))
          (λ r e. unfold transfer_tx move_funds in ground arith))
  ])
]
