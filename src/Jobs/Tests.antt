-- ===== src/Jobs/Tests.antt =====
-- The theorems on the jobs service at a small database: a job with its event, a profile, and two
-- skills.
use hire_flow.Prelude.{refl, some, none, true, false, [], ◌∷◌, arith, List, ◌≡◌}
use hire_flow.Prelude.Int.{pos, negsuc}
use hire_flow.Prelude.{◌≡◌}
use hire_flow.Jobs.Types.{
  Job, Skill, ProfileRow, Entry, job_created, job_payload, Db, CreateJobRequest, UpdateJobRequest,
  Env, bound, durable, unacknowledged,
}
use hire_flow.Jobs.Stores.{new_job_row, fits_int4}
use hire_flow.Jobs.Handlers.{valid_status}
use hire_flow.Jobs.Service.{Request, run, respond}
use hire_flow.Jobs.Spec.{posted}
use hire_flow.Jobs.Refinement.Requests.{Outcome, serve-Reports}
use hire_flow.Outbox
use hire_flow.Outbox.{BatchEnv, acked}
use hire_flow.Jobs.System.{Event, served, batch, State}
use hire_flow.Jobs.Invariant.{IsIntact, run-IsIntact}
use hire_flow.Jobs.Outcomes.Skills.{SkillsOutcome, update_skills-Works, IsWorking}
use hire_flow.Jobs.Outcomes.Reads.{ShowsJob, UpdateOutcome, create_job-get_job, update_job-Works}
use hire_flow.Jobs.Outcomes.Pages.{ListOutcome, list_jobs_bounds}

abbrev paint : Job
paint = record {
  id = 1;
  title = "Paint";
  description = "";
  budget_min = pos 10;
  budget_max = pos 20;
  status = "open";
  client_id = 5;
  created_at = 1;
  updated_at = 1;
}

abbrev told : Entry
told = record {
  id = 40;
  aggregate_id = 1;
  event_type = job_created;
  payload = job_payload paint;
  created_at = 1;
  published_at = none;
}

abbrev ann : ProfileRow
ann = record {
  id = 2;
  full_name = "Ann";
  bio = "";
  hourly_rate = pos 30;
  available = true;
  created_at = 1;
  updated_at = 1;
}

abbrev go_skill : Skill
go_skill = record { id = 100; name = "Go"; category = "backend"; created_at = 0 }

abbrev sql_skill : Skill
sql_skill = record { id = 101; name = "SQL"; category = "backend"; created_at = 0 }

abbrev start : Db
start = record {
  jobs = paint ∷ [];
  profiles = ann ∷ [];
  skills = sql_skill ∷ go_skill ∷ [];
  links = record { profile_id = 2; skill_id = 101 } ∷ [];
  outbox = told ∷ [];
}

-- names are ordered by a rank
abbrev env : Env
env = record {
  fails = λ s. false;
  commit = durable;
  now = 9;
  new_job = 3;
  new_profile = 4;
  new_entry = 41;
  collate = λ s. 0;
}

abbrev tile : CreateJobRequest
tile = record {
  title = "Tile";
  description = "";
  budget_min = pos 1;
  budget_max = pos 2;
  client_id = 5;
}

abbrev close : UpdateJobRequest
close = record {
  title = none;
  description = none;
  budget_min = none;
  budget_max = some (negsuc 4);
  status = some "closed";
}

serve-Reports_example : Outcome env (Request.put_job (some 1) (bound close)) start
serve-Reports_example = serve-Reports env (Request.put_job (some 1) (bound close)) start

start-IsIntact : IsIntact start
unfolding valid_status fits_int4
start-IsIntact = record {
  job_keys = (refl, tt);
  profile_keys = (refl, tt);
  rows = (record { status = refl; budget_min = refl; budget_max = refl }, tt);
  rates = (refl, tt);
  owned = λ p s h. ground arith;
  told = λ id. ground arith;
}

run-IsIntact_example : IsIntact (
    run start (
      (env, Request.post_job (bound tile))
      ∷ (
        record env { commit = unacknowledged; new_entry = 42 },
        Request.put_skills (some 2) (bound (100 ∷ [])),
      )
      ∷ []))
run-IsIntact_example = run-IsIntact start _ start-IsIntact

start-IsWorking : IsWorking env start
start-IsWorking = record { sites = λ s. refl; commit = refl; fresh = refl }

update_skills-Works_example :
    SkillsOutcome env 2
      (100 ∷ [])
      start
      (respond env (Request.put_skills (some 2) (bound (100 ∷ []))) start)
      (some ann)
      true
update_skills-Works_example = update_skills-Works env 2 (100 ∷ []) start start-IsWorking

create_job-get_job_example :
    ShowsJob 201
      (new_job_row 3 9 tile)
      (posted env tile start)
      (respond env (Request.post_job (bound tile)) start)
    × ShowsJob 200 (new_job_row 3 9 tile) (posted env tile start) (
        respond env
          (Request.get_job_id (some 3))
          (respond env (Request.post_job (bound tile)) start).1)
unfolding fits_int4
create_job-get_job_example =
    create_job-get_job env env tile start start-IsWorking refl (omega arith) (omega arith) refl refl
      refl

update_job-Works_example :
    UpdateOutcome env 1 close start
      (respond env (Request.put_job (some 1) (bound close)) start)
      true
      true
      (some paint)
unfolding valid_status fits_int4
update_job-Works_example = update_job-Works env 1 close start start-IsWorking

list_jobs_bounds_example :
    ListOutcome
      (pos 500)
      "open"
      start
      (respond env (Request.get_jobs (pos 500) (pos 0) "open") start)
      true
unfolding valid_status
list_jobs_bounds_example = list_jobs_bounds env (pos 500) (pos 0) "open" start refl refl

abbrev round : BatchEnv
round = record {
  begin_fails = false;
  fetch_fails = false;
  mark_fails = false;
  sending = λ id. acked;
  commit = durable;
  now = 10;
}

abbrev system : State
system = record { db = start; received = [] }

-- a batch, and then the job is closed
abbrev history : List Event
history = batch round ∷ served env (Request.put_job (some 1) (bound close)) ∷ []
