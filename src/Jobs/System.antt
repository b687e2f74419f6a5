-- ===== src/Jobs/System.antt =====
-- The jobs service with its publisher (main.go of services/jobs-api starts both): requests and
-- batches of the outbox, in any order.
pub mod Arrival
use hire_flow.Prelude.{List, [], ◌∷◌, ◌++◌}
use hire_flow.Outbox
use hire_flow.Outbox.{BatchEnv}
use hire_flow.Jobs.Types.{Db, Entry, Env}
use hire_flow.Jobs.Service.{Request, respond}

-- a request that is served, or a batch of the publisher
pub data Event : Type 0 where
  served : Env → Request → Event
  batch : BatchEnv → Event

-- The database, and what the broker has received.
pub record State : Type 0 where
  pub db : Db
  pub received : List Entry

unfoldable pub publish : BatchEnv → State → State
publish env s =
    let (_, rows, sent) = Outbox.publish_batch env s.db.outbox in
    record { db = record s.db { outbox = rows }; received = s.received ++ sent }

unfoldable pub happen : Event → State → State
unfolding publish
happen (served env req) s = record s { db = (respond env req s.db).1 }
happen (batch env) s = publish env s

unfoldable pub run_system : List Event → State → State
unfolding happen
run_system [] s = s
run_system (e ∷ es) s = run_system es (happen e s)

-- batches with no request between them
unfoldable pub drain : List BatchEnv → State → State
unfolding publish
drain [] s = s
drain (env ∷ envs) s = drain envs (publish env s)
