-- ===== src/Payments/Tests.antt =====
-- The theorems on the payments service at a small database: two wallets, and a hold on the first.
use hire_flow.Prelude.{◌≡◌, refl, some, List, [], ◌∷◌, arith, false, none, ◌<◌}
use hire_flow.Prelude.Int.{pos}
use hire_flow.Payments.Types.{
  WalletRow, Hold, active, released, Db, Env, HoldRequest, ReleaseRequest, TransferRequest, durable,
}
use hire_flow.Payments.Service.{
  Request, hold_request, transfer_request, run, serve, serve-Follows, run-IsSound,
}
use hire_flow.Payments.Invariant.{IsSound}
use hire_flow.Payments.Refinement.Commit.{Follows}
use hire_flow.Payments.Audit.{Balanced, total_balance, run-total, run-Balanced}
use hire_flow.Payments.HoldLife.{Aged, SettledOnce, run-Aged, run-SettledOnce, settlements}
use hire_flow.Payments.Outcomes.{Works, Fresh}
use hire_flow.Payments.Overlap.{hold_funds_seen, overlapping_holds_overdraw}
use hire_flow.Payments.Outcomes.Answers.{Answers, serve-Answers}
use hire_flow.Payments.Handlers.{hold_funds}
use hire_flow.Payments.Stores.{sum_active_by_wallet}

abbrev pub client_wallet : WalletRow
client_wallet = record {
  id = 1;
  user_id = 11;
  balance = 100;
  currency = "USD";
  created_at = 1;
  updated_at = 1;
}

abbrev freelancer_wallet : WalletRow
freelancer_wallet = record {
  id = 2;
  user_id = 12;
  balance = 5;
  currency = "USD";
  created_at = 1;
  updated_at = 1;
}

abbrev first_hold : Hold
first_hold = record {
  id = 7;
  wallet_id = 1;
  amount = 30;
  status = active;
  contract_id = 50;
  created_at = 2;
  expires_at = none;
}

abbrev old_hold : Hold
old_hold = record first_hold { id = 6; status = released }

abbrev pub start : Db
start = record {
  wallets = client_wallet ∷ freelancer_wallet ∷ [];
  holds = first_hold ∷ [];
  transactions = [];
  outbox = [];
}

-- the same with a hold that was released before
abbrev later : Db
later = record start { holds = first_hold ∷ old_hold ∷ [] }

abbrev pub env : Env
env = record {
  fails = λ s. false;
  commit = durable;
  now = 9;
  new_hold = 8;
  new_tx = 20;
  new_credit_tx = 21;
  new_entry = 30;
}

abbrev next_env : Env
next_env = record env { new_tx = 22; new_credit_tx = 23; new_entry = 31 }

abbrev more : HoldRequest
more = record { wallet_id = 1; amount = pos 40; contract_id = 51 }

abbrev give_back : ReleaseRequest
give_back = record { hold_id = 7 }

abbrev pay : TransferRequest
pay = record { hold_id = 7; recipient_wallet_id = 2 }

-- a second hold, then the first one is paid out
abbrev requests : List (Env × Request)
requests = (env, hold_request (some more)) ∷ (next_env, transfer_request (some pay)) ∷ []

pub start-IsSound : IsSound start
unfolding sum_active_by_wallet
start-IsSound = record {
  wallet_keys = ground arith;
  hold_keys = ground arith;
  range = record { balances = ground arith; amounts = ground arith };
  positive = ground arith;
  solvent = λ k w e. ground arith;
}

env-Works : Works env
env-Works = record { calls = λ s. refl; commit = refl }

env-Fresh : Fresh env start
env-Fresh = record { hold = refl; tx = refl; credit_tx = refl; two = ground arith; entry = refl }

start-SettledOnce : SettledOnce start
unfolding settlements
start-SettledOnce id = ground arith

run-IsSound_example : IsSound (run start requests)
run-IsSound_example = run-IsSound start requests start-IsSound

run-total_example : total_balance (run start requests) ≡ total_balance start
run-total_example = run-total start requests start-IsSound

serve-Follows_example : Follows start (serve env (transfer_request (some pay)) start)
serve-Follows_example = serve-Follows env (transfer_request (some pay)) start start-IsSound

serve-Answers_example : Answers env start (serve env (hold_request (some more)) start)
serve-Answers_example = serve-Answers env (hold_request (some more)) start start-IsSound

run-SettledOnce_example : SettledOnce (run start requests)
run-SettledOnce_example = run-SettledOnce start requests start-IsSound start-SettledOnce

run-Balanced_example : Balanced 2 freelancer_wallet start (run start requests)
run-Balanced_example = run-Balanced 2 start requests start-IsSound freelancer_wallet refl

run-Aged_example : Aged 7 first_hold (run start requests)
run-Aged_example = run-Aged 7 start requests start-IsSound first_hold refl

-- two holds that the first wallet covers one by one
abbrev first_half : HoldRequest
first_half = record { wallet_id = 1; amount = pos 40; contract_id = 51 }

abbrev second_half : HoldRequest
second_half = record { wallet_id = 1; amount = pos 50; contract_id = 52 }

abbrev second_env : Env
second_env = record env { new_hold = 9; new_tx = 22; new_credit_tx = 23; new_entry = 31 }

overlapping_holds_overdraw_example :
    ((hold_funds second_env (some second_half) (hold_funds env (some first_half) start).1).0.status
      ≡ 422)
    × ((hold_funds_seen start.holds second_env
          (some second_half)
          (hold_funds env (some first_half) start).1).0.status
        ≡ 201)
    × (100
        < sum_active_by_wallet 1
            (hold_funds_seen start.holds second_env
              (some second_half)
              (hold_funds env (some first_half) start).1).1.holds)
unfolding sum_active_by_wallet
overlapping_holds_overdraw_example =
    overlapping_holds_overdraw env second_env first_half second_half client_wallet start 40 50
      (record { calls = λ s. refl; commit = refl }) (record { calls = λ s. refl; commit = refl })
      (record { hold = refl; tx = refl; credit_tx = refl; two = omega arith; entry = refl })
      (record { hold = refl; tx = refl; credit_tx = refl; two = omega arith; entry = refl }) refl
      refl refl (omega arith) (omega arith) (omega arith) refl refl (omega arith) (omega arith)
      (omega arith) (omega arith) (omega arith)
