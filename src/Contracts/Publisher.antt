-- ===== src/Contracts/Publisher.antt =====
-- The outbox publisher of the contracts service (outbox_publisher.go and outbox.go in
-- services/contracts/cmd/server), whose statements are those of pkg/outbox over MySQL.
pub mod Announcement
mod Tests
use hire_flow.Prelude.{ℕ, List, [], ◌∷◌, ◌++◌}
use hire_flow.Outbox
use hire_flow.Outbox.{BatchEnv, BatchResult}
use hire_flow.Contracts.Types.{Entry, Db}

-- `SELECT … WHERE published_at IS NULL ORDER BY created_at LIMIT ?`
unfoldable pub fetch_unpublished : ℕ → Db → List Entry
fetch_unpublished limit db = Outbox.fetch_unpublished limit db.outbox

-- `UPDATE outbox SET published_at = CURRENT_TIMESTAMP(6) WHERE id IN (…)`
unfoldable pub mark_published : List ℕ → ℕ → Db → Db
mark_published ids now db = record db { outbox = Outbox.mark_published ids now db.outbox }

-- `PublishBatch`: the result, the database afterwards, and what the broker received
unfoldable pub publish_batch : BatchEnv → Db → BatchResult × Db × List Entry
publish_batch env db =
    let (result, rows, sent) = Outbox.publish_batch env db.outbox in
    (result, record db { outbox = rows }, sent)

-- the loop of `Run`
unfoldable pub run_publisher : List BatchEnv → Db → Db × List Entry
run_publisher [] db = (db, [])
run_publisher (env ∷ envs) db =
    let (_, db', sent) = publish_batch env db in
    let (db'', later) = run_publisher envs db' in (db'', sent ++ later)
