-- ===== src/Contracts/Client/Laws.antt =====
-- The payments service behind its HTTP client (payments_client.go), and the laws of an escrow.
use mathlib.Core.Path.{subst}
use hire_flow.Payments.Stores.{find_hold}
use hire_flow.Prelude.{
  ◌≡◌, ◌≢◌, sym, ap, ◌∙◌, inl, inr, Bool, true, false, none, some, arith, Bool-cases, if◌then◌else◌,
}
use hire_flow.Prelude.Int.{ℤ, pos, leb_ℤ}
use hire_flow.Prelude.Table.{map_option}
use hire_flow.Payments.Types.{Hold, HoldStatus, active, released, transferred, Response}
use hire_flow.Payments.Types as Payments
use hire_flow.Payments.Stores.{find_hold}
use hire_flow.Payments.Handlers
use hire_flow.Payments.Refinement.Hold.{positive_int}
use hire_flow.Payments.Refinement.Holds.{
  hold_funds_keeps, hold_funds_created, release_funds-SettlesHold, transfer_funds-SettlesHold,
}
use hire_flow.Payments.Invariant.{IsSound}
use hire_flow.Payments.Service.{
  serve, serve-IsSound, hold_request, release_request, transfer_request,
}
use hire_flow.Contracts.Types.{Uuid, HoldRequest}
use hire_flow.Contracts.Escrow.{held, paid, returned, Escrow, EscrowLaws, Keeps, Settles}
use hire_flow.Contracts.Client.{
  Network, unreached, unanswered, answered, id_of, hold_answer, done_answer, reaches, hold_funds,
  release_funds, transfer_funds, client,
}
use hire_flow.Contracts.Client.View.{
  escrow_of, view, seen_hold, done_answer-Settles, nothing_settled, done_answer_db, hold_answer_db,
}

module _ (net : Network) (env : Payments.Env) (db : Payments.Db) (sound : IsSound db) where
  release_law :
      (h : Uuid)
      → let (b, db') = release_funds net env h db in IsSound db' × Settles view returned h b db db'
  unfolding release_funds
  release_law h = choose (reaches net)
    where
      reached : Response × Payments.Db
      reached = Handlers.release_funds env (some (record { hold_id = h })) db

      choose :
          (b : Bool)
          → let (a, db') = if b then done_answer net reached else (false, db) in
            IsSound db' × Settles view returned h a db db'
      choose true = (
        subst IsSound (sym (done_answer_db net reached)) (
            unfold serve in
            serve-IsSound env (release_request (some (record { hold_id = h }))) db sound),
        done_answer-Settles net released h db reached
            (release_funds-SettlesHold env (record { hold_id = h }) db),
      )
      choose false = (sound, nothing_settled returned h db)

  transfer_law :
      (h recipient : Uuid)
      → let (b, db') = transfer_funds net env h recipient db in
        IsSound db' × Settles view paid h b db db'
  unfolding transfer_funds
  transfer_law h recipient = choose (reaches net)
    where
      reached : Response × Payments.Db
      reached =
          Handlers.transfer_funds env
            (some (record { hold_id = h; recipient_wallet_id = recipient })) db

      choose :
          (b : Bool)
          → let (a, db') = if b then done_answer net reached else (false, db) in
            IsSound db' × Settles view paid h a db db'
      choose true = (
        subst IsSound (sym (done_answer_db net reached)) (
            unfold serve in
            serve-IsSound env
              (transfer_request (some (record { hold_id = h; recipient_wallet_id = recipient }))) db
              sound),
        done_answer-Settles net transferred h db reached (
            transfer_funds-SettlesHold env (record { hold_id = h; recipient_wallet_id = recipient })
              db),
      )
      choose false = (sound, nothing_settled paid h db)

  payment_request : HoldRequest → Payments.HoldRequest
  payment_request req = record {
    wallet_id = req.wallet_id;
    amount = req.amount;
    contract_id = req.contract_id;
  }

  hold_answer-some :
      (n : Network) (x : Response × Payments.Db) (h : Uuid)
      → (hold_answer n x).0 ≡ some h
      → (x.0.status ≡ 201) × (h ≡ id_of x.0.body)
  hold_answer-some answered (r, after) h e = ground arith
  hold_answer-some unanswered (r, after) h e = cc
  hold_answer-some unreached (r, after) h e = cc

  not_created :
      (req : HoldRequest)
      → leb_ℤ req.amount (pos 0) ≡ true
      → (Handlers.hold_funds env (some (payment_request req)) db).0.status ≢ 201
  unfolding Handlers.hold_funds payment_request
  not_created req bad = ground arith

  held_escrow : HoldRequest → Escrow
  held_escrow req = record {
    state = held;
    wallet_id = req.wallet_id;
    amount = req.amount;
    contract_id = req.contract_id;
  }

  hold_law :
      (req : HoldRequest)
      → let (answer, db') = hold_funds net env req db in
        IsSound db'
        × Keeps view db db'
        × ((h : Uuid) → answer ≡ some h → view db' h ≡ some (held_escrow req))
  unfolding hold_funds held_escrow payment_request
  hold_law req = choose (reaches net)
    where
      reached : Response × Payments.Db
      reached = Handlers.hold_funds env (some (payment_request req)) db

      same : (hold_answer net reached).1 ≡ reached.1
      same = hold_answer_db net reached

      kept : Keeps view db reached.1
      kept k e seen =
          let (h, found, is) = seen_hold (find_hold k db.holds) e seen in
          ap (map_option escrow_of) (hold_funds_keeps env (payment_request req) db k h found)
          ∙ ap some is

      placed :
          (h : Uuid)
          → (hold_answer net reached).0 ≡ some h
          → view reached.1 h ≡ some (held_escrow req)
      placed h e =
          let (created, named) = hold_answer-some net reached h e in
          elim (Bool-cases (leb_ℤ req.amount (pos 0))) [
            | inl bad ↦ absurd (not_created req bad created)
            | inr good ↦
                let (n, is) = positive_int req.amount good in
                let (body, found) = hold_funds_created env (payment_request req) db n is created in
                let own : h ≡ env.new_hold = named ∙ ap id_of body in
                ap (view reached.1) own
                ∙ ap (map_option escrow_of) found
                ∙ ap
                    (λ (a : ℤ). some (record {
                      state = held;
                      wallet_id = req.wallet_id;
                      amount = a;
                      contract_id = req.contract_id;
                    }))
                    (sym is)
          ]

      choose :
          (b : Bool)
          → let (answer, db') = if b then hold_answer net reached else (none, db) in
            IsSound db'
            × Keeps view db db'
            × ((h : Uuid) → answer ≡ some h → view db' h ≡ some (held_escrow req))
      choose true = (
        subst IsSound (sym same) (
            unfold serve in serve-IsSound env (hold_request (some (payment_request req))) db sound),
        subst (Keeps view db) (sym same) kept,
        (λ h e. ap (λ (d : Payments.Db). view d h) same ∙ placed h e),
      )
      choose false = (sound, (λ k e seen. seen), (λ h e. cc))

-- Whatever the network and the payments service do in one call, the saga can rely on the laws of an
-- escrow: a hold that it is told of was made for its request, a hold is settled only if it was held,
-- a settlement that it is told of took place, and no call touches another hold.
pub client-EscrowLaws :
    (net : Network) (env : Payments.Env) → EscrowLaws view IsSound (client net env)
unfolding client
client-EscrowLaws net env = record {
  holds = λ req db sound. unfold held_escrow in hold_law net env db sound req;
  releases = λ h db sound. release_law net env db sound h;
  transfers = λ h recipient db sound. transfer_law net env db sound h recipient;
}
