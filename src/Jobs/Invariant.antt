-- ===== src/Jobs/Invariant.antt =====
-- What every request to the jobs service keeps of its database.
use hire_flow.Prelude.{
  ℕ, ◌≡◌, refl, true, Option, none, some, List, [], ◌∷◌, arith, ◌==◌, if◌then◌else◌,
}
use hire_flow.Prelude.Table.{Keyed, All, find_key, find-update, update-Keyed, All-update, is_some}
use hire_flow.Jobs.Types.{
  Uuid, Job, ProfileRow, Entry, Payload, job_payload, profile_payload, Db, Env, UpdateJobRequest,
}
use hire_flow.Jobs.Stores.{
  job_key, profile_key, find_job, find_profile, fits_int4, linked, patch, touch, fits_if,
}
use hire_flow.Jobs.Handlers.{valid_status, status_allowed}
use hire_flow.Jobs.Spec.{Step, posting, revising, joining, reskilling}
use hire_flow.Jobs.Refinement.Keeping.{run_keeps}
use hire_flow.Jobs.Service.{Request, run}

-- What an event says of the job `id`.
abbrev pub told_by : Uuid → Payload → Option Job
told_by id (job_payload j) = if j.id == id then some j else none
told_by id (profile_payload p) = none

abbrev pub or_else {ℓ} : {A : Type ℓ} → Option A → Option A → Option A
or_else none o = o
or_else (some a) o = some a

-- What the newest event about the job `id` says of it.
abbrev pub last_told : Uuid → List Entry → Option Job
last_told id [] = none
last_told id (e ∷ es) = or_else (told_by id e.payload) (last_told id es)

pub record RowOk (j : Job) : Type 0 where
  pub status : valid_status j.status ≡ true
  pub budget_min : fits_int4 j.budget_min ≡ true
  pub budget_max : fits_int4 j.budget_max ≡ true

pub record IsIntact (db : Db) : Type 0 where
  pub job_keys : Keyed job_key db.jobs
  pub profile_keys : Keyed profile_key db.profiles
  -- the status is one of the four, and the numbers fit their columns
  pub rows : All RowOk db.jobs
  pub rates : All (λ (p : ProfileRow). fits_int4 p.hourly_rate ≡ true) db.profiles
  -- skills belong to profiles that exist
  pub owned :
      (p s : Uuid) → linked p s db.links ≡ true → is_some (find_profile p db.profiles) ≡ true
  -- a reader of the events knows each job as it is
  pub told : (id : Uuid) → last_told id db.outbox ≡ find_job id db.jobs

patch-RowOk :
    (now : ℕ) (req : UpdateJobRequest)
    → status_allowed req.status ≡ true
    → fits_if req.budget_min ≡ true
    → fits_if req.budget_max ≡ true
    → (j : Job) → RowOk j
    → RowOk (patch now req j)
patch-RowOk now req allowed low high j r = ground arith

pub Step-IsIntact : {before after : Db} → Step before after → IsIntact before → IsIntact after
Step-IsIntact {before} (posting env req titled known low high fresh new) c = record {
  job_keys = (fresh, c.job_keys);
  profile_keys = c.profile_keys;
  rows = (
    record { status = unfold valid_status in refl; budget_min = low; budget_max = high },
    c.rows,
  );
  rates = c.rates;
  owned = c.owned;
  told = λ id. ground (arith, c.told id);
}
Step-IsIntact {before} (joining env req named rate fresh new) c = record {
  job_keys = c.job_keys;
  profile_keys = (fresh, c.profile_keys);
  rows = c.rows;
  rates = (rate, c.rates);
  owned = λ p s h. ground (arith, c.owned p s);
  told = c.told;
}
Step-IsIntact {before} (revising env id req j found allowed low high new) c = record {
  job_keys = update-Keyed job_key (patch env.now req) (λ j. refl) id before.jobs c.job_keys;
  profile_keys = c.profile_keys;
  rows =
      All-update job_key RowOk (patch env.now req) id before.jobs
        (patch-RowOk env.now req allowed low high) c.rows;
  rates = c.rates;
  owned = c.owned;
  told = λ k. ground (
    arith,
    c.told k,
    find-update job_key (patch env.now req) (λ j. refl) id k before.jobs,
    find_key job_key id before.jobs j,
  );
}
Step-IsIntact {before} (reskilling env id p ids links found replaces new) c = record {
  job_keys = c.job_keys;
  profile_keys =
      update-Keyed profile_key (touch env.now) (λ p. refl) id before.profiles c.profile_keys;
  rows = c.rows;
  rates =
      All-update profile_key (λ (q : ProfileRow). fits_int4 q.hourly_rate ≡ true) (touch env.now) id
        before.profiles (λ q h. h) c.rates;
  owned = λ q s h. ground (
    arith,
    c.owned q s,
    replaces.rest q s,
    find-update profile_key (touch env.now) (λ p. refl) id q before.profiles,
  );
  told = c.told;
}

-- Whatever is asked of the jobs service and whatever fails, an intact database stays so: keys
-- of jobs and profiles stand once, each job has one of the four statuses and numbers that fit an INT, skills belong to
-- profiles that exist, and the newest event about a job tells it as it is in the table, for every
-- job and for no other id.
pub run-IsIntact :
    (db : Db) (requests : List (Env × Request)) → IsIntact db → IsIntact (run db requests)
run-IsIntact = run_keeps IsIntact (λ a b st. Step-IsIntact st)
