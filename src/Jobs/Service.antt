-- ===== src/Jobs/Service.antt =====
-- The routes that `RegisterRoutes` of job_handler.go and profile_handler.go mount, and a history of
-- requests. Requests are served one after another.
use hire_flow.Prelude.{Option, List, [], ◌∷◌}
use Prim.Native.String.{String}
use hire_flow.Prelude.Int.{ℤ}
use hire_flow.Jobs.Types.{
  Uuid, Db, CreateJobRequest, UpdateJobRequest, CreateProfileRequest, Bound, Answer, Env,
}
use hire_flow.Jobs.Tx.{Result, answer}
use hire_flow.Jobs.Handlers.{
  create_job, get_job, list_jobs, update_job, create_profile, get_profile, update_skills,
}

-- A request to one of the routes. An `id` in the path is `none` if it is no UUID.
pub data Request : Type 0 where
  post_job : Bound CreateJobRequest → Request
  get_jobs : ℤ → ℤ → String → Request
  get_job_id : Option Uuid → Request
  put_job : Option Uuid → Bound UpdateJobRequest → Request
  post_profile : Bound CreateProfileRequest → Request
  get_profile_id : Option Uuid → Request
  put_skills : Option Uuid → Bound (List Uuid) → Request

unfoldable pub serve : Env → Request → Db → Result Answer × Db
serve env (post_job body) db = create_job env body db
serve env (get_jobs limit offset status) db = list_jobs env limit offset status db
serve env (get_job_id id) db = get_job env id db
serve env (put_job id body) db = update_job env id body db
serve env (post_profile body) db = create_profile env body db
serve env (get_profile_id id) db = get_profile env id db
serve env (put_skills id body) db = update_skills env id body db

-- the answer that is sent, and the database after it
unfoldable pub respond : Env → Request → Db → Answer × Db
unfolding serve
respond env req db = answer (serve env req db)

unfoldable pub run : Db → List (Env × Request) → Db
run db [] = db
run db ((env, req) ∷ rest) = run (respond env req db).1 rest
