-- ===== src/Contracts/Service.antt =====
-- What may happen to the contracts service: calls of its routes and deliveries of payment events,
-- in any order.
use hire_flow.Prelude.{List, [], ◌∷◌}
use hire_flow.Contracts.Types.{Uuid, Contract, MilestoneSpec, Db, Env, PaymentsService}
use hire_flow.Contracts.Saga.{
  create_contract, handle_payment_held, handle_payment_failed, accept_contract, complete_contract,
  cancel_contract,
}
use hire_flow.Contracts.Spec.{Effects, done}
use hire_flow.Contracts.Refinement.Methods.{
  Effects_trans, create_contract-Effects, handle_payment_held-Effects,
  handle_payment_failed-Effects, accept_contract-Effects, complete_contract-Effects,
  cancel_contract-Effects,
}

pub data Call : Type 0 where
  creates : Contract → List MilestoneSpec → Call
  accepts completes cancels : Uuid → Call
  payment_held payment_failed : Uuid → Call

module _ {S : Type 0} where
  -- one call of the saga; the payments service is given per call, since its failures differ
  unfoldable pub serve : Env → PaymentsService S → Call → S → Db → S × Db
  serve env svc (creates c ms) s db =
      let (_, s', db') = create_contract env svc c ms s db in (s', db')
  serve env svc (accepts id) s db = (s, (accept_contract env id db).1)
  serve env svc (completes id) s db =
      let (_, s', db') = complete_contract env svc id s db in (s', db')
  serve env svc (cancels id) s db = let (_, s', db') = cancel_contract env svc id s db in (s', db')
  serve env svc (payment_held id) s db = (s, (handle_payment_held env id db).1)
  serve env svc (payment_failed id) s db = (s, (handle_payment_failed env id db).1)

  unfoldable pub run : List (Env × PaymentsService S × Call) → S → Db → S × Db
  run [] s db = (s, db)
  run ((env, svc, call) ∷ rest) s db = let (s', db') = serve env svc call s db in run rest s' db'

  serve-Effects :
      (env : Env) (svc : PaymentsService S) (call : Call) (s : S) (db : Db)
      → Effects db (serve env svc call s db).1
  unfolding serve
  serve-Effects env svc (creates c ms) s db = create_contract-Effects env svc c ms s db
  serve-Effects env svc (accepts id) s db = accept_contract-Effects env id db
  serve-Effects env svc (completes id) s db = complete_contract-Effects env svc id s db
  serve-Effects env svc (cancels id) s db = cancel_contract-Effects env svc id s db
  serve-Effects env svc (payment_held id) s db = handle_payment_held-Effects env id db
  serve-Effects env svc (payment_failed id) s db = handle_payment_failed-Effects env id db

  -- Every history of calls, whatever fails in them and whatever the payments service answers, moves
  -- the database by the effects of the specification alone.
  pub run-Effects :
      (calls : List (Env × PaymentsService S × Call)) (s : S) (db : Db)
      → Effects db (run calls s db).1
  unfolding run
  run-Effects [] s db = done
  run-Effects ((env, svc, call) ∷ rest) s db =
      let (s', db') = serve env svc call s db in
      Effects_trans (serve-Effects env svc call s db) (run-Effects rest s' db')
