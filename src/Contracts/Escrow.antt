-- ===== src/Contracts/Escrow.antt =====
-- What the saga relies on in the payments service: an interface of the holds as the saga sees them
-- and the laws of the three calls. Contracts/Client has the real service.
use hire_flow.Prelude.{◌≡◌, ◌≢◌, ◌⊎◌, Bool, false, Option, some}
use hire_flow.Prelude.Int.{ℤ}
use hire_flow.Contracts.Types.{Uuid, HoldRequest, PaymentsService}

pub data HoldState : Type 0 where
  held paid returned : HoldState

pub record Escrow : Type 0 where
  pub state : HoldState
  pub wallet_id : Uuid
  pub amount : ℤ
  pub contract_id : Uuid

module _ {S : Type 0} (view : S → Uuid → Option Escrow) where
  abbrev pub Keeps : S → S → Type 0
  Keeps s s' = (h : Uuid) (e : Escrow) → view s h ≡ some e → view s' h ≡ some e

  -- A settlement of hold `h`: it fails and leaves the hold, or it settles a hold that was held, and
  -- the caller may not learn of that. Other holds stay.
  abbrev pub Settles : HoldState → Uuid → Bool → S → S → Type 0
  Settles to h b s s' =
      ((k : Uuid) → k ≢ h → view s' k ≡ view s k)
      × (((b ≡ false) × (view s' h ≡ view s h))
          ⊎ ((e : Escrow) × (view s h ≡ some e)
              × (e.state ≡ held)
              × (view s' h ≡ some (record e { state = to }))))

  pub record EscrowLaws (IsOk : S → Type 0) (svc : PaymentsService S) : Type 0 where
    pub holds :
        (req : HoldRequest) (s : S)
        → IsOk s
        → let (answer, s') = svc.hold_funds req s in
          IsOk s'
          × Keeps s s'
          × ((h : Uuid)
              → answer ≡ some h
              → view s' h
                ≡ some (record {
                  state = held;
                  wallet_id = req.wallet_id;
                  amount = req.amount;
                  contract_id = req.contract_id;
                }))
    pub releases :
        (h : Uuid) (s : S)
        → IsOk s
        → let (b, s') = svc.release_funds h s in IsOk s' × Settles returned h b s s'
    pub transfers :
        (h recipient : Uuid) (s : S)
        → IsOk s
        → let (b, s') = svc.transfer_funds h recipient s in IsOk s' × Settles paid h b s s'
