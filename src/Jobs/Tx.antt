-- ===== src/Jobs/Tx.antt =====
-- Statements that fail with an `error`, the transaction of a handler, and what becomes of the error
-- that a handler returns (`customErrorHandler` of middleware.go).
use hire_flow.Prelude.{if◌then◌else◌, ℕ, ◌≡◌}
use hire_flow.Jobs.Types.{
  Db, Error, app_error, no_rows, http_error, other_error, Answer, error, not_found,
  internal_server_error, bind_message, Commit, durable, refused, unacknowledged, Env, Site, Message,
}

pub data Result (A : Type 0) : Type 0 where
  ok : A → Result A
  err : Error → Result A

abbrev pub Sql : Type 0 → Type 0
Sql A = Db → Result (A × Db)

infixl 5 ◌>>=◌ ◌>>◌
abbrev pub next : {A B : Type 0} → Result (A × Db) → (A → Sql B) → Result (B × Db)
next (ok (a, db)) f = f a db
next (err e) f = err e

abbrev pub ◌>>=◌ : {A B : Type 0} → Sql A → (A → Sql B) → Sql B
◌>>=◌ m f db = next (m db) f

abbrev pub ◌>>◌ : {A B : Type 0} → Sql A → Sql B → Sql B
m >> k = m >>= λ _. k

abbrev pub pure : {A : Type 0} → A → Sql A
pure a db = ok (a, db)

-- the end of a transaction
abbrev pub finish : Commit → Result (Answer × Db) → Db → Result Answer × Db
finish c (err e) before = (err e, before)
finish durable (ok (a, after)) before = (ok a, after)
finish refused (ok (a, after)) before = (err other_error, before)
finish unacknowledged (ok (a, after)) before = (err other_error, after)

unfoldable pub run_tx : Env → Sql Answer → Db → Result Answer × Db
run_tx env body db =
    if env.fails Site.begin then (err other_error, db) else finish env.commit (body db) db

-- `customErrorHandler`, before any of the answer is sent
abbrev pub error_answer : Error → Answer
error_answer (app_error code m) = record { status = code; body = error m }
error_answer no_rows = record { status = 404; body = error not_found }
error_answer (http_error code) = record { status = code; body = error bind_message }
error_answer other_error = record { status = 500; body = error internal_server_error }

-- the answer to what a handler returns
abbrev pub answer : Result Answer × Db → Answer × Db
answer (ok a, db) = (a, db)
answer (err e, db) = (error_answer e, db)

-- a request that was denied with an error, and changed nothing
abbrev pub Denies : ℕ → Message → Db → Answer × Db → Type 0
Denies status m db r = r ≡ (record { status = status; body = error m }, db)
