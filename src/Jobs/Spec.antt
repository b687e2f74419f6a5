-- ===== src/Jobs/Spec.antt =====
-- What the jobs service promises: the database moves by four kinds of steps, each of which writes
-- the event that tells of it, under an id that no event
-- had. Jobs/Refinement compares the handlers with it.
use Prim.Native.String.{len}
use hire_flow.Prelude.{◌≡◌, ◌≢◌, true, none, some, List, [], ◌∷◌}
use hire_flow.Prelude.Table.{find, update, contains}
use hire_flow.Jobs.Types.{
  Uuid, Job, ProfileRow, Link, job_created, job_updated, profile_created, profile_updated,
  job_payload, profile_payload, Db, CreateJobRequest, UpdateJobRequest, CreateProfileRequest, Env,
}
use hire_flow.Jobs.Stores.{
  job_key, profile_key, entry_key, find_job, find_profile, fits_int4, fits_if, new_job_row, patch,
  new_profile_row, linked, skills_of, touch,
}
use hire_flow.Jobs.Handlers.{event_row, status_allowed}

abbrev pub posted : Env → CreateJobRequest → Db → Db
posted env req db =
    let j = new_job_row env.new_job env.now req in
    record db {
      jobs = j ∷ db.jobs;
      outbox = event_row env j.id job_created (job_payload j) ∷ db.outbox;
    }

abbrev pub revised : Env → Uuid → UpdateJobRequest → Job → Db → Db
revised env id req j db = record db {
  jobs = update job_key id (patch env.now req) db.jobs;
  outbox = event_row env id job_updated (job_payload (patch env.now req j)) ∷ db.outbox;
}

abbrev pub joined : Env → CreateProfileRequest → Db → Db
joined env req db =
    let p = new_profile_row env.new_profile env.now req in
    record db {
      profiles = p ∷ db.profiles;
      outbox =
          event_row env p.id profile_created (profile_payload (record { row = p; skills = [] }))
          ∷ db.outbox;
    }

abbrev pub reskilled : Env → Uuid → ProfileRow → List Link → Db → Db
reskilled env id p links db = record db {
  profiles = update profile_key id (touch env.now) db.profiles;
  links = links;
  outbox =
      event_row env id profile_updated (
        profile_payload
          (record { row = touch env.now p; skills = skills_of env.collate id links db.skills }))
      ∷ db.outbox;
}

-- The profile has exactly the skills `ids`, and other profiles have the skills that they had.
pub record Replaces (id : Uuid) (ids : List Uuid) (before after : List Link) : Type 0 where
  pub exact : (s : Uuid) → linked id s after ≡ contains s ids
  pub rest : (p s : Uuid) → p ≢ id → linked p s after ≡ linked p s before

pub data Step (db : Db) : Db → Type 0 where
  -- a job with a title and a client is added under an id that no job had, and is a draft
  posting :
      (env : Env) (req : CreateJobRequest)
      → len req.title ≢ 0
      → req.client_id ≢ 0
      → fits_int4 req.budget_min ≡ true
      → fits_int4 req.budget_max ≡ true
      → find_job env.new_job db.jobs ≡ none
      → find entry_key env.new_entry db.outbox ≡ none
      → Step db (posted env req db)
  -- some fields of a job are replaced, its status by one of the four
  revising :
      (env : Env) (id : Uuid) (req : UpdateJobRequest) (j : Job)
      → find_job id db.jobs ≡ some j
      → status_allowed req.status ≡ true
      → fits_if req.budget_min ≡ true
      → fits_if req.budget_max ≡ true
      → find entry_key env.new_entry db.outbox ≡ none
      → Step db (revised env id req j db)
  -- a profile with a name is added under an id that no profile had, without skills
  joining :
      (env : Env) (req : CreateProfileRequest)
      → len req.full_name ≢ 0
      → fits_int4 req.hourly_rate ≡ true
      → find_profile env.new_profile db.profiles ≡ none
      → find entry_key env.new_entry db.outbox ≡ none
      → Step db (joined env req db)
  -- the skills of a profile are replaced
  reskilling :
      (env : Env) (id : Uuid) (p : ProfileRow) (ids : List Uuid) (links : List Link)
      → find_profile id db.profiles ≡ some p
      → Replaces id ids db.links links
      → find entry_key env.new_entry db.outbox ≡ none
      → Step db (reskilled env id p links db)
