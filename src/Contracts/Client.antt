-- ===== src/Contracts/Client.antt =====
-- The HTTP client of the payments service (payments_client.go), in front of the handlers of
-- Payments/Handlers. The texts of the contracts service that name wallets, holds and contracts are
-- those of UUIDs, or empty.
pub mod View
pub mod Laws
use hire_flow.Prelude.{ℕ, Bool, true, false, Option, none, some, ◌==◌, if◌then◌else◌}
use hire_flow.Payments.Types.{Body, hold_json, Response}
use hire_flow.Payments.Types as Payments
use hire_flow.Payments.Handlers
use hire_flow.Contracts.Types.{Uuid, HoldRequest, PaymentsService}

-- What becomes of one call: it does not reach the service (or is not even sent), its answer is lost
-- (the ten seconds of the client pass, or the body cannot be read), or it is answered.
pub data Network : Type 0 where
  unreached unanswered answered : Network

-- the field `id` of what `json.Unmarshal` reads; it is empty where the body has none
abbrev pub id_of : Body → Uuid
id_of (hold_json h) = h.id
id_of _ = 0

abbrev pub hold_answer : Network → Response × Payments.Db → Option Uuid × Payments.Db
hold_answer answered (r, db) = (if r.status == 201 then some (id_of r.body) else none, db)
hold_answer _ (r, db) = (none, db)

-- a call whose answer is only looked at for its status, 200
abbrev pub done_answer : Network → Response × Payments.Db → Bool × Payments.Db
done_answer answered (r, db) = (r.status == 200, db)
done_answer _ (r, db) = (false, db)

abbrev pub reaches : Network → Bool
reaches unreached = false
reaches _ = true

module _ (net : Network) (env : Payments.Env) where
  unfoldable pub hold_funds : HoldRequest → Payments.Db → Option Uuid × Payments.Db
  hold_funds req db =
      if reaches net
      then hold_answer net (
          Handlers.hold_funds env
            (some (record {
              wallet_id = req.wallet_id;
              amount = req.amount;
              contract_id = req.contract_id;
            }))
            db)
      else (none, db)

  unfoldable pub release_funds : Uuid → Payments.Db → Bool × Payments.Db
  release_funds hold_id db =
      if reaches net
      then done_answer net (Handlers.release_funds env (some (record { hold_id = hold_id })) db)
      else (false, db)

  unfoldable pub transfer_funds : Uuid → Uuid → Payments.Db → Bool × Payments.Db
  transfer_funds hold_id recipient db =
      if reaches net
      then done_answer net (
          Handlers.transfer_funds env
            (some (record { hold_id = hold_id; recipient_wallet_id = recipient })) db)
      else (false, db)

  -- the real service, as the saga uses it in one call
  unfoldable pub client : PaymentsService Payments.Db
  client = record {
    hold_funds = hold_funds;
    release_funds = release_funds;
    transfer_funds = transfer_funds;
  }
