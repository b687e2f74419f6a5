-- ===== src/Outbox.antt =====
-- The outbox of pkg/outbox: rows written by the handlers, and the publisher that sends them to the
-- broker and marks them. The contracts service has the same code over MySQL (outbox.go,
-- outbox_publisher.go in services/contracts/cmd/server). `E` and `P` are the event types and the
-- payloads of the service.
pub mod Delivery
pub mod Drain
pub mod Arrival
mod Tests
use hire_flow.Prelude.{
  ℕ, Bool, true, false, Option, none, some, List, [], ◌∷◌, map, if◌then◌else◌, ◌++◌,
}
use hire_flow.Prelude.Database.{Commit, durable, refused, unacknowledged}
use hire_flow.Prelude.Table.{contains, filter, is_some}
use hire_flow.Prelude.Sorting.{sort_by, take}

pub record Entry (E P : Type 0) : Type 0 where
  pub id : ℕ
  pub aggregate_id : ℕ
  pub event_type : E
  pub payload : P
  pub created_at : ℕ
  pub published_at : Option ℕ

-- How `Publish` ends for one entry: acknowledged, not sent, or sent with the answer lost. The last
-- two are errors.
pub data Sending : Type 0 where
  acked unsent unanswered : Sending

-- What the world decides in the course of one batch.
pub record BatchEnv : Type 0 where
  pub begin_fails : Bool
  pub fetch_fails : Bool
  pub mark_fails : Bool
  pub sending : ℕ → Sending
  pub commit : Commit
  pub now : ℕ

-- whether `PublishBatch` returns an error
pub data BatchResult : Type 0 where
  done failed : BatchResult

-- the field `batch` that `NewPublisher` sets
abbrev pub batch : ℕ
batch = 100

abbrev pub is_acked : Sending → Bool
is_acked acked = true
is_acked _ = false

abbrev pub is_sent : Sending → Bool
is_sent unsent = false
is_sent _ = true

module _ {E P : Type 0} where
  -- the primary key
  abbrev pub entry_key : Entry E P → ℕ
  entry_key e = e.id

  abbrev pub is_unpublished : Entry E P → Bool
  is_unpublished e = elim e.published_at [ none ↦ true | some _ ↦ false ]

  -- `SELECT … WHERE published_at IS NULL ORDER BY created_at LIMIT $1`
  unfoldable pub fetch_unpublished : ℕ → List (Entry E P) → List (Entry E P)
  fetch_unpublished limit rows =
      take limit (sort_by (λ (e : Entry E P). e.created_at) (filter is_unpublished rows))

  abbrev pub mark : List ℕ → ℕ → Entry E P → Entry E P
  mark ids now e = if contains e.id ids then record e { published_at = some now } else e

  -- `UPDATE outbox SET published_at = now() WHERE id = ANY($1)`
  unfoldable pub mark_published : List ℕ → ℕ → List (Entry E P) → List (Entry E P)
  mark_published ids now rows = map (mark ids now) rows

  -- the loop over the entries: the ids that were acknowledged, and what the broker received
  unfoldable pub publish_all : (ℕ → Sending) → List (Entry E P) → List ℕ × List (Entry E P)
  publish_all sending [] = ([], [])
  publish_all sending (e ∷ es) =
      let (published, sent) = publish_all sending es in
      (
        (if is_acked (sending e.id) then e.id ∷ published else published),
        (if is_sent (sending e.id) then e ∷ sent else sent),
      )

  abbrev pub commit_rows :
      Commit → List (Entry E P) → List (Entry E P) → BatchResult × List (Entry E P)
  commit_rows durable before after = (done, after)
  commit_rows refused before after = (failed, before)
  commit_rows unacknowledged before after = (failed, after)

  -- the end of a batch: `MarkPublished`, if any entry was acknowledged, and the commit
  abbrev pub close_batch : BatchEnv → List ℕ → List (Entry E P) → BatchResult × List (Entry E P)
  close_batch env [] rows = commit_rows env.commit rows rows
  close_batch env (id ∷ ids) rows =
      if env.mark_fails
      then (failed, rows)
      else commit_rows env.commit rows (mark_published (id ∷ ids) env.now rows)

  abbrev pub publish_fetched :
      BatchEnv
      → List (Entry E P)
      → List (Entry E P)
      → BatchResult × List (Entry E P) × List (Entry E P)
  publish_fetched env [] rows = (done, rows, [])
  publish_fetched env (e ∷ es) rows =
      let (published, sent) = publish_all env.sending (e ∷ es) in
      let (result, rows') = close_batch env published rows in (result, rows', sent)

  -- `PublishBatch`: the result, the rows afterwards, and what the broker received
  unfoldable pub publish_batch :
      BatchEnv → List (Entry E P) → BatchResult × List (Entry E P) × List (Entry E P)
  publish_batch env rows =
      if env.begin_fails
      then (failed, rows, [])
      else if env.fetch_fails
      then (failed, rows, [])
      else publish_fetched env (fetch_unpublished batch rows) rows

  -- the loop of `Run`, which logs an error and waits for the next tick
  unfoldable pub run : List BatchEnv → List (Entry E P) → List (Entry E P) × List (Entry E P)
  run [] rows = (rows, [])
  run (env ∷ envs) rows =
      let (_, rows', sent) = publish_batch env rows in
      let (rows'', later) = run envs rows' in (rows'', sent ++ later)
