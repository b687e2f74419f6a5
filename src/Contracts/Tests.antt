-- ===== src/Contracts/Tests.antt =====
-- The theorems on the contracts service at a small database: a contract between the two wallets of
-- the payments service that awaits its acceptance, and one that was cancelled.
use hire_flow.Prelude.{ℕ, ◌≡◌, refl, List, [], ◌∷◌, some, none, true, false, arith, ◌+◌, ◌*◌}
use hire_flow.Prelude.Int.{pos}
use hire_flow.Prelude.Table.{All}
use hire_flow.Payments.Types as Payments
use hire_flow.Payments.Invariant.{IsSound}
use hire_flow.Contracts.Types.{
  Contract, MilestoneSpec, Db, Env, PaymentsService, awaiting_accept, cancelled, durable,
}
use hire_flow.Contracts.Stores.{contract_key}
use hire_flow.Contracts.Service.{Call, creates, accepts, completes, payment_held, run}
use hire_flow.Contracts.Life.{Evolved, run-Evolved}
use hire_flow.Contracts.Escrow.{EscrowLaws}
use hire_flow.Contracts.Consistency.{IsConsistent, Backed}
use hire_flow.Contracts.Consistency.Creation.{run-IsConsistent}
use hire_flow.Contracts.Client.{answered, unanswered, client}
use hire_flow.Contracts.Client.View.{view}
use hire_flow.Contracts.Client.Laws.{client-EscrowLaws}
use hire_flow.Contracts.History.{Round, run_all, run_all-IsConsistent}
use hire_flow.Payments.Stores.{sum_active_by_wallet}
use hire_flow.Prelude.Table.{All-find}
use hire_flow.Contracts.Consistency.{needs_hold}

abbrev pub money : Payments.Db
money = record {
  wallets =
      record {
        id = 1;
        user_id = 11;
        balance = 100;
        currency = "USD";
        created_at = 1;
        updated_at = 1;
      }
      ∷ record {
        id = 2;
        user_id = 12;
        balance = 5;
        currency = "USD";
        created_at = 1;
        updated_at = 1;
      }
      ∷ [];
  holds =
      record {
        id = 7;
        wallet_id = 1;
        amount = 30;
        status = Payments.active;
        contract_id = 50;
        created_at = 2;
        expires_at = none;
      }
      ∷ [];
  transactions = [];
  outbox = [];
}

abbrev pub waiting : Contract
waiting = record {
  id = 50;
  client_id = 11;
  freelancer_id = 12;
  title = "logo";
  description = "";
  amount = pos 30;
  currency = "USD";
  status = awaiting_accept;
  client_wallet_id = 1;
  freelancer_wallet_id = 2;
  hold_id = some 7;
  created_at = 2;
  updated_at = 2;
}

abbrev given_up : Contract
given_up = record waiting { id = 49; status = cancelled; hold_id = none }

abbrev draft : Contract
draft = record given_up { id = 0; title = "site"; amount = pos 40 }

abbrev pub start : Db
start = record { contracts = waiting ∷ given_up ∷ []; milestones = []; outbox = [] }

abbrev pub env : ℕ → Env
env n = record {
  fails = λ p s. false;
  commit = λ p. durable;
  now = 9 + n;
  new_contract = 60 + n;
  new_milestone = λ i. 10 * n + i;
  new_entry = 30 + n;
}

abbrev pub payments_env : ℕ → Payments.Env
payments_env n = record {
  fails = λ s. false;
  commit = durable;
  now = 9 + n;
  new_hold = 80 + n;
  new_tx = 20 + 2 * n;
  new_credit_tx = 21 + 2 * n;
  new_entry = 30 + n;
}

abbrev milestone : MilestoneSpec
milestone = record { title = "all"; description = ""; amount = pos 40; position = pos 0 }

-- the waiting contract is accepted and completed, where the first attempt loses the answer of the
-- payments service, and a new one is made and held
abbrev rounds : List Round
rounds =
    (env 0, answered, payments_env 0, accepts 50)
    ∷ (env 1, answered, payments_env 1, creates draft (milestone ∷ []))
    ∷ (env 2, unanswered, payments_env 2, completes 50)
    ∷ (env 3, answered, payments_env 3, completes 50)
    ∷ (env 4, answered, payments_env 4, payment_held 61)
    ∷ []

abbrev calls : List (Env × PaymentsService Payments.Db × Call)
calls =
    (env 0, client answered (payments_env 0), accepts 50)
    ∷ (env 1, client unanswered (payments_env 1), completes 50)
    ∷ []

pub money-IsSound : IsSound money
unfolding sum_active_by_wallet
money-IsSound = record {
  wallet_keys = ground arith;
  hold_keys = ground arith;
  range = record { balances = ground arith; amounts = ground arith };
  positive = ground arith;
  solvent = λ k w e. ground arith;
}

waiting-Backed : Backed view money waiting
waiting-Backed = record {
  hold = 7;
  escrow = _;
  has = refl;
  seen = refl;
  match = record { contract = refl; wallet = refl; amount = refl };
  allowed = refl;
}

start-IsConsistent : IsConsistent view money start
start-IsConsistent id c found need =
    All-find contract_key (λ (x : Contract). needs_hold x.status ≡ true → Backed view money x) id
      start.contracts c ((λ n. waiting-Backed), ((λ n. cc), tt)) found need

calls-lawful :
    All (λ (x : Env × PaymentsService Payments.Db × Call). EscrowLaws view IsSound x.1) calls
calls-lawful = (
  client-EscrowLaws answered (payments_env 0),
  (client-EscrowLaws unanswered (payments_env 1), tt),
)

run_all-IsConsistent_example :
    let (money', db') = run_all rounds money start in IsSound money' × IsConsistent view money' db'
run_all-IsConsistent_example =
    run_all-IsConsistent rounds money start money-IsSound start-IsConsistent

run-IsConsistent_example :
    let (money', db') = run calls money start in IsSound money' × IsConsistent view money' db'
run-IsConsistent_example =
    run-IsConsistent view IsSound calls calls-lawful money start money-IsSound start-IsConsistent

client-EscrowLaws_example : EscrowLaws view IsSound (client unanswered (payments_env 1))
client-EscrowLaws_example = client-EscrowLaws unanswered (payments_env 1)

run-Evolved_example : Evolved 50 waiting (run calls money start).1
run-Evolved_example = run-Evolved 50 calls money start waiting refl
