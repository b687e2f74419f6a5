-- ===== src/Jobs/Types.antt =====
-- The tables of the jobs database with the Go structs that are read from them, the requests, and
-- the errors and answers of the handlers (job.go, profile.go, skill.go, events.go, middleware.go).
use Prim.Native.String.{String}
use hire_flow.Prelude.{ℕ, Bool, Option, List}
use hire_flow.Prelude.Int.{ℤ}
pub use hire_flow.Prelude.Database.{Commit, durable, refused, unacknowledged}
use hire_flow.Outbox

-- a `uuid.UUID`; `uuid.Nil` is 0
abbrev pub Uuid : Type 0
Uuid = ℕ

-- A row of `jobs`, and the struct `Job`. The columns of the budget are of type INT.
pub record Job : Type 0 where
  pub id : Uuid
  pub title : String
  pub description : String
  pub budget_min : ℤ
  pub budget_max : ℤ
  pub status : String
  pub client_id : Uuid
  pub created_at : ℕ
  pub updated_at : ℕ

-- A row of `skills`, and the struct `Skill`.
pub record Skill : Type 0 where
  pub id : Uuid
  pub name : String
  pub category : String
  pub created_at : ℕ

-- A row of `profiles`.
pub record ProfileRow : Type 0 where
  pub id : Uuid
  pub full_name : String
  pub bio : String
  pub hourly_rate : ℤ
  pub available : Bool
  pub created_at : ℕ
  pub updated_at : ℕ

-- The struct `Profile`: a row with its skills.
pub record Profile : Type 0 where
  pub row : ProfileRow
  pub skills : List Skill

-- A row of `profile_skills`.
pub record Link : Type 0 where
  pub profile_id : Uuid
  pub skill_id : Uuid

-- The constants of events.go.
pub data EventType : Type 0 where
  job_created job_updated profile_created profile_updated : EventType

-- What `json.Marshal` is given for an event. The `aggregate_type` of a row is "job" or "profile", as
-- the payload is.
pub data Payload : Type 0 where
  job_payload : Job → Payload
  profile_payload : Profile → Payload

-- A row of `outbox`.
abbrev pub Entry : Type 0
Entry = Outbox.Entry EventType Payload

-- The database; new rows come first.
pub record Db : Type 0 where
  pub jobs : List Job
  pub profiles : List ProfileRow
  pub skills : List Skill
  pub links : List Link
  pub outbox : List Entry

pub record CreateJobRequest : Type 0 where
  pub title : String
  pub description : String
  pub budget_min : ℤ
  pub budget_max : ℤ
  pub client_id : Uuid

-- a field that is `none` is left as it is
pub record UpdateJobRequest : Type 0 where
  pub title : Option String
  pub description : Option String
  pub budget_min : Option ℤ
  pub budget_max : Option ℤ
  pub status : Option String

pub record CreateProfileRequest : Type 0 where
  pub full_name : String
  pub bio : String
  pub hourly_rate : ℤ

-- What `c.Bind` makes of a body: a request, or an `echo.HTTPError` with a code.
pub data Bound (A : Type 0) : Type 0 where
  bound : A → Bound A
  unbound : ℕ → Bound A

pub data Message : Type 0 where
  title_required client_id_required full_name_required invalid_job_id invalid_profile_id : Message
  invalid_status invalid_status_filter internal_server_error not_found : Message
  -- the message of an `echo.HTTPError`
  bind_message : Message

-- The errors that `customErrorHandler` tells apart: an `AppError`, `pgx.ErrNoRows`, an
-- `echo.HTTPError`, and any other.
pub data Error : Type 0 where
  app_error : ℕ → Message → Error
  no_rows : Error
  http_error : ℕ → Error
  other_error : Error

pub data Body : Type 0 where
  error : Message → Body
  job_json : Job → Body
  -- items, total
  jobs_json : List Job → ℕ → Body
  profile_json : Profile → Body

pub record Answer : Type 0 where
  pub status : ℕ
  pub body : Body

-- The calls of a handler that can fail for a reason outside the program.
pub data Site : Type 0 where
  begin create_job get_job list_jobs count_jobs update_job : Site
  create_profile get_profile get_skills reread_profile reread_skills delete_links insert_link
        touch_profile :
      Site
  marshal insert_outbox : Site

-- What the world decides in the course of one request: which calls fail, how the commit ends, the
-- clock, the values of `gen_random_uuid()`, and the rank of a text in the order of the database.
pub record Env : Type 0 where
  pub fails : Site → Bool
  pub commit : Commit
  pub now : ℕ
  pub new_job : Uuid
  pub new_profile : Uuid
  pub new_entry : Uuid
  pub collate : String → ℕ
