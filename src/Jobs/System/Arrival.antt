-- ===== src/Jobs/System/Arrival.antt =====
-- What the broker learns of the jobs.
use mathlib.Core.List.{Memᴰ}
use mathlib.Core.List.Memᴰ
use hire_flow.Prelude.{◌≡◌, ◌⊎◌, true, Option, none, some, List, [], ◌∷◌, if◌then◌else◌}
use hire_flow.Prelude.Table.{All, Keyed, is_some}
use hire_flow.Outbox
use hire_flow.Outbox.{is_unpublished}
use hire_flow.Jobs.Types.{Uuid, Db, Entry}
use hire_flow.Jobs.Stores.{entry_key}
use hire_flow.Jobs.Invariant.{IsIntact, told_by}
use hire_flow.Jobs.System.{State}

-- a row as it was before it was published
abbrev pub unmarked : Entry → Entry
unmarked e = record e { published_at = none }

-- Each event waits, or the broker has received it.
abbrev pub Waits : List Entry → Entry → Type 0
Waits got e = (is_unpublished e ≡ true) ⊎ Memᴰ (unmarked e) got

pub record IsHeard (s : State) : Type 0 where
  pub intact : IsIntact s.db
  pub event_keys : Keyed entry_key s.db.outbox
  pub waits : All (Waits s.received) s.db.outbox

-- new events wait, under ids of their own
abbrev Keeps : List Entry → Db → Type 0
Keeps got db = Keyed entry_key db.outbox × All (Waits got) db.outbox

-- the newest event about the job `id`
abbrev pub last_event : Uuid → List Entry → Option Entry
last_event id [] = none
last_event id (e ∷ es) = if is_some (told_by id e.payload) then some e else last_event id es
