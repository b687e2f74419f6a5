-- ===== src/Payments/Tx.antt =====
-- The body of a database transaction in a handler: `BEGIN`, steps that may end the request with an
-- answer and roll back (`defer tx.Rollback`), and the commit.
use hire_flow.Prelude.{Option, none, some, if◌then◌else◌}
use hire_flow.Payments.Types.{
  Db, internal_server_error, error, Response, begin, durable, refused, unacknowledged, Commit, Env,
}

pub data TxResult {ℓ} (A : Type ℓ) : Type ℓ where
  ret : A → Db → TxResult A
  abort : Response → TxResult A

abbrev pub Tx : Type 0 → Type 0
Tx A = Db → TxResult A

infixl 5 ◌>>=◌ ◌>>◌
abbrev continue : {A B : Type 0} → TxResult A → (A → Tx B) → TxResult B
continue (ret a db) f = f a db
continue (abort r) f = abort r

abbrev pub ◌>>=◌ : {A B : Type 0} → Tx A → (A → Tx B) → Tx B
◌>>=◌ m f db = continue (m db) f

abbrev pub ◌>>◌ : {A B : Type 0} → Tx A → Tx B → Tx B
m >> k = m >>= λ _. k

module _ {A : Type 0} where
  abbrev pub pure : A → Tx A
  pure a db = ret a db

  -- an early return
  abbrev pub respond : Response → Tx A
  respond r db = abort r

-- What a query for one row brings: `ErrNoRows` apart from all other errors.
pub data Fetch (A : Type 0) : Type 0 where
  row : A → Fetch A
  no_rows failed : Fetch A

abbrev pub internal_error : Response
internal_error = record { status = 500; body = error internal_server_error }

module _ {A : Type 0} where
  -- a write: every handler answers 500 if it fails
  abbrev or_internal_error : Option (A × Db) → TxResult A
  or_internal_error none = abort internal_error
  or_internal_error (some (a, db)) = ret a db

  abbrev pub exec : (Db → Option (A × Db)) → Tx A
  exec op db = or_internal_error (op db)

  abbrev give : Fetch A → Response → Db → TxResult A
  give (row a) missing db = ret a db
  give no_rows missing db = abort missing
  give failed missing db = abort internal_error

  -- a query whose missing row has an answer of its own
  abbrev pub fetch : (Db → Fetch A) → Response → Tx A
  fetch query missing db = give (query db) missing db

-- the answer and the database after a body that reached `Commit`
abbrev pub committed : Commit → Response → Db → Db → Response × Db
committed durable r before after = (r, after)
committed refused r before after = (internal_error, before)
committed unacknowledged r before after = (internal_error, after)

abbrev pub finish : Commit → TxResult Response → Db → Response × Db
finish c (ret r after) before = committed c r before after
finish c (abort r) before = (r, before)

unfoldable pub run_tx : Env → Tx Response → Db → Response × Db
run_tx env body db =
    if env.fails begin then (internal_error, db) else finish env.commit (body db) db
