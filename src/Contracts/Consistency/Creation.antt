-- ===== src/Contracts/Consistency/Creation.antt =====
-- `CreateContract` of saga.go and histories of calls, and the consistency with the payments service.
use mathlib.Core.Option.{some-injective}
use hire_flow.Prelude.{◌≡◌, refl, sym, ap, ◌∙◌, inl, inr, Option, none, some, List, [], ◌∷◌, arith}
use hire_flow.Prelude.Table.{All, find_key}
use hire_flow.Contracts.Types.{
  Uuid, pending, cancelled, Contract, MilestoneSpec, Db, Result, ok, err, Env, Site, Phase,
  PaymentsService,
}
use hire_flow.Contracts.Stores.{contract_key, run_tx, find_contract, inserted}
use hire_flow.Contracts.Saga.{
  create_contract, after_hold, after_insert, confirmed, prepared, confirm, hold_request,
}
use hire_flow.Contracts.Spec.{Inserted, Confirmed}
use hire_flow.Contracts.Refinement.Rows.{Outcome, unchanged, happened}
use hire_flow.Contracts.Refinement.Methods.{insert-Outcome, confirm-Outcome}
use hire_flow.Contracts.Refinement.Compensation.{Compensated, compensate-Compensated}
use hire_flow.Contracts.Service.{
  Call, creates, accepts, completes, cancels, payment_held, payment_failed, serve, run,
}
use hire_flow.Contracts.Escrow.{held, Escrow, EscrowLaws}
use hire_flow.Contracts.Consistency.{IsConsistent}
use hire_flow.Contracts.Consistency.Effects.{
  Weakens, Advanced_weak, Inserted-IsConsistent, Confirmed-IsConsistent, Keeps-IsConsistent,
}
use hire_flow.Contracts.Consistency.Methods.{
  handle_payment_held-IsConsistent, handle_payment_failed-IsConsistent,
  accept_contract-IsConsistent, complete_contract-IsConsistent, cancel_contract-IsConsistent,
}

hold_refused_weak : Weakens pending cancelled
hold_refused_weak = record { need = λ n. cc; state = λ e n h. cc }

module _ {S : Type 0} (view : S → Uuid → Option Escrow) (IsOk : S → Type 0) where
  abbrev Sound : S → Db → Type 0
  Sound s db = IsOk s × IsConsistent view s db

  Compensated-IsConsistent :
      (c : Contract) (s : S) (db after : Db)
      → Compensated c db after
      → IsConsistent view s db
      → IsConsistent view s after
  Compensated-IsConsistent c s db after (inl a) good =
      Advanced_weak view s c.id pending cancelled db after a hold_refused_weak good
  Compensated-IsConsistent c s db after (inr (rows, ms)) good =
      λ id x e n. good id x (ap (find_contract id) (sym rows) ∙ e) n

  confirmed-Sound :
      (c row : Contract) (h : Uuid) (s : S) (db : Db) (x : Result (Unit {0}) × Db)
      → find_contract c.id db.contracts ≡ some row
      → row.amount ≡ c.amount
      → row.client_wallet_id ≡ c.client_wallet_id
      → view s h
        ≡ some (record {
          state = held;
          wallet_id = c.client_wallet_id;
          amount = c.amount;
          contract_id = c.id;
        })
      → Outcome (Confirmed c.id h db) db x
      → IsConsistent view s db
      → IsConsistent view s x.1
  confirmed-Sound c row h s db x found amount wallet seen (unchanged e) good = good
  confirmed-Sound c row h s db x found amount wallet seen (happened r after k) good =
      let same : k.row ≡ row = some-injective _ _ (sym k.found ∙ found) in
      let key = find_key contract_key c.id db.contracts row found in
      Confirmed-IsConsistent view s c.id h db after k _ seen refl
        (record {
          contract = sym (ap (λ (y : Contract). y.id) same ∙ key);
          wallet = sym (ap (λ (y : Contract). y.client_wallet_id) same ∙ wallet);
          amount = sym (ap (λ (y : Contract). y.amount) same ∙ amount);
        })
        good

  module _ (env : Env) (svc : PaymentsService S) (laws : EscrowLaws view IsOk svc) where
    after_hold-Sound :
        (c row : Contract) (x : Option Uuid × S) (db : Db)
        → find_contract c.id db.contracts ≡ some row
        → row.amount ≡ c.amount
        → row.client_wallet_id ≡ c.client_wallet_id
        → IsOk x.1
        → ((h : Uuid)
            → x.0 ≡ some h
            → view x.1 h
              ≡ some (record {
                state = held;
                wallet_id = c.client_wallet_id;
                amount = c.amount;
                contract_id = c.id;
              }))
        → IsConsistent view x.1 db
        → let (r, s', db') = after_hold env c x db in Sound s' db'
    after_hold-Sound c row (none, s) db found amount wallet fine seen good =
        (fine, Compensated-IsConsistent c s db _ (compensate-Compensated env c db) good)
    after_hold-Sound c row (some h, s) db found amount wallet fine seen good =
        finish
          (run_tx (env.fails Phase.confirming Site.begin) (env.commit Phase.confirming)
            (confirm env c h) db)
          (confirmed-Sound c row h s db _ found amount wallet (seen h refl)
            (confirm-Outcome env svc c h db) good)
      where
        finish :
            (x : Result (Unit {0}) × Db)
            → IsConsistent view s x.1
            → let (r, s', db') = confirmed c h x s in Sound s' db'
        finish (ok _, after) k = (fine, k)
        finish (err e, after) k = (fine, k)

    after_insert-Sound :
        (c row : Contract) (x : Result (Unit {0}) × Db) (s : S)
        → (x.0 ≡ ok tt → find_contract c.id x.1.contracts ≡ some row)
        → row.amount ≡ c.amount
        → row.client_wallet_id ≡ c.client_wallet_id
        → Sound s x.1
        → let (r, s', db') = after_insert env svc c x s in Sound s' db'
    after_insert-Sound c row (err e, db) s found amount wallet sound = sound
    after_insert-Sound c row (ok _, db) s found amount wallet (fine, good) =
        let (fine', keep, seen) = laws.holds (hold_request c) s fine in
        after_hold-Sound c row (svc.hold_funds (hold_request c) s) db (found refl) amount wallet
          fine' seen (Keeps-IsConsistent view s _ db keep good)

    Inserted-Sound :
        (row : Contract) (s : S) (db : Db) (x : Result (Unit {0}) × Db)
        → Outcome (Inserted row db) db x
        → IsConsistent view s db
        → IsConsistent view s x.1 × (x.0 ≡ ok tt → find_contract row.id x.1.contracts ≡ some row)
    Inserted-Sound row s db x (unchanged e) good = (good, λ f. cc)
    Inserted-Sound row s db x (happened r after i) good =
        (Inserted-IsConsistent view s row db after i good, λ f. ground (arith, i.rows))

    pub create_contract-Sound :
        (c : Contract) (ms : List MilestoneSpec) (s : S) (db : Db)
        → Sound s db
        → let (r, s', db') = create_contract env svc c ms s db in Sound s' db'
    unfolding create_contract
    create_contract-Sound c ms s db (fine, good) =
        let row = inserted env.now (prepared env c) in
        let (good', found) = Inserted-Sound row s db _ (insert-Outcome env svc c ms db) good in
        after_insert-Sound (prepared env c) row _ s found refl refl (fine, good')

    -- Whatever call is made and whatever fails in it, contracts and holds agree afterwards.
    pub serve-Sound :
        (call : Call) (s : S) (db : Db)
        → Sound s db
        → let (s', db') = serve env svc call s db in Sound s' db'
    unfolding serve
    serve-Sound (creates c ms) s db sound = create_contract-Sound c ms s db sound
    serve-Sound (accepts id) s db (fine, good) =
        (fine, accept_contract-IsConsistent view env id s db good)
    serve-Sound (completes id) s db (fine, good) =
        complete_contract-IsConsistent view IsOk env svc laws id s db fine good
    serve-Sound (cancels id) s db (fine, good) =
        cancel_contract-IsConsistent view IsOk env svc laws id s db fine good
    serve-Sound (payment_held id) s db (fine, good) =
        (fine, handle_payment_held-IsConsistent view env id s db good)
    serve-Sound (payment_failed id) s db (fine, good) =
        (fine, handle_payment_failed-IsConsistent view env id s db good)

  -- Along every history of calls and payment events, over any payments service that keeps the laws
  -- of an escrow and whatever fails in the calls, contracts and holds agree: a contract that needs a
  -- hold has one that was made for its wallet, amount and id, in a state that its status allows.
  pub run-IsConsistent :
      (calls : List (Env × PaymentsService S × Call))
      → All (λ (x : Env × PaymentsService S × Call). EscrowLaws view IsOk x.1) calls
      → (s : S) (db : Db) → IsOk s
      → IsConsistent view s db
      → let (s', db') = run calls s db in IsOk s' × IsConsistent view s' db'
  unfolding run
  run-IsConsistent [] laws s db fine good = (fine, good)
  run-IsConsistent ((env, svc, call) ∷ rest) laws s db fine good =
      let (fine', good') = serve-Sound env svc laws.0 call s db (fine, good) in
      run-IsConsistent rest laws.1 _ _ fine' good'
