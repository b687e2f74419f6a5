-- ===== src/Prelude/Database.antt =====
-- What the databases have in common.

-- How a commit ends: it is durable, it is refused and rolled back, or it is durable and the
-- connection is lost before the answer.
pub data Commit : Type 0 where
  durable refused unacknowledged : Commit
