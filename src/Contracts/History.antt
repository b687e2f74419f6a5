-- ===== src/Contracts/History.antt =====
-- The contracts service over the real payments service.
use hire_flow.Prelude.{List, [], ◌∷◌, map}
use hire_flow.Prelude.Table.{All}
use hire_flow.Payments.Types as Payments
use hire_flow.Payments.Invariant.{IsSound}
use hire_flow.Contracts.Types.{Db, Env, PaymentsService}
use hire_flow.Contracts.Service.{Call, run}
use hire_flow.Contracts.Escrow.{EscrowLaws}
use hire_flow.Contracts.Consistency.{IsConsistent}
use hire_flow.Contracts.Consistency.Creation.{run-IsConsistent}
use hire_flow.Contracts.Client.{Network, client}
use hire_flow.Contracts.Client.View.{view}
use hire_flow.Contracts.Client.Laws.{client-EscrowLaws}

-- one call, with what goes wrong in the contracts service, on the way to the payments service, and
-- in there
abbrev pub Round : Type 0
Round = Env × Network × Payments.Env × Call

abbrev over_client : Round → Env × PaymentsService Payments.Db × Call
over_client (env, net, payments_env, call) = (env, client net payments_env, call)

-- both databases after a history
pub run_all : List Round → Payments.Db → Db → Payments.Db × Db
run_all rounds = run (map over_client rounds)

clients_lawful :
    (rounds : List Round)
    → All
        (λ (x : Env × PaymentsService Payments.Db × Call). EscrowLaws view IsSound x.1)
        (map over_client rounds)
clients_lawful [] = tt
clients_lawful ((env, net, payments_env, call) ∷ rest) =
    (client-EscrowLaws net payments_env, clients_lawful rest)

-- The two services together: from a sound payments database and contracts that agree with it, every
-- history of calls and payment events, whatever fails in either service or between them, ends in a
-- sound payments database and in contracts that agree with it: each contract that needs a hold has
-- one that was made for its wallet, amount and id, in a state that its status allows.
pub run_all-IsConsistent :
    (rounds : List Round) (money : Payments.Db) (db : Db)
    → IsSound money
    → IsConsistent view money db
    → let (money', db') = run_all rounds money db in IsSound money' × IsConsistent view money' db'
unfolding run_all
run_all-IsConsistent rounds money db sound good =
    run-IsConsistent view IsSound (map over_client rounds) (clients_lawful rounds) money db sound
      good
