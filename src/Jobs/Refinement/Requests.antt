-- ===== src/Jobs/Refinement/Requests.antt =====
-- Every request to the jobs service, as at most one step of Jobs/Spec.
use Prim.Native.String.{len}
use hire_flow.Prelude.{◌≡◌, refl, inl, inr, none, some, arith, ◌==◌, Bool-cases}
use hire_flow.Jobs.Types.{
  Uuid, Db, CreateJobRequest, UpdateJobRequest, CreateProfileRequest, bound, unbound, Env,
}
use hire_flow.Jobs.Handlers.{
  create_job, get_job, list_jobs, update_job, create_profile, get_profile, update_skills,
  create_job_tx, update_job_tx, create_profile_tx, update_skills_tx, status_allowed,
}
use hire_flow.Jobs.Service.{Request, serve}
use hire_flow.Jobs.Refinement.Commit.{Reports, run_tx-Reports}
use hire_flow.Jobs.Refinement.Rows.{
  create_job_tx-Step, update_job_tx-Step, create_profile_tx-Step, update_skills_tx-Step,
}

create_job-Reports :
    (env : Env) (req : CreateJobRequest) (db : Db) → Reports env db (create_job env (bound req) db)
unfolding create_job
create_job-Reports env req db = elim (Bool-cases (len req.title == 0)) [
  | inl empty ↦ rw empty (inl refl)
  | inr titled ↦ rw titled (elim (Bool-cases (req.client_id == 0)) [
    | inl nil ↦ rw nil (inl refl)
    | inr known ↦ rw known (
        run_tx-Reports env (create_job_tx env req) db
          (λ a after e. create_job_tx-Step env req db a after (ground arith) (ground arith) e))
  ])
]

update_job-Reports :
    (env : Env) (id : Uuid) (req : UpdateJobRequest) (db : Db)
    → Reports env db (update_job env (some id) (bound req) db)
unfolding update_job
update_job-Reports env id req db = elim (Bool-cases (status_allowed req.status)) [
  | inl allowed ↦ rw allowed (
      run_tx-Reports env (update_job_tx env id req) db
        (λ a after e. update_job_tx-Step env id req db a after allowed e))
  | inr refused ↦ rw refused (inl refl)
]

create_profile-Reports :
    (env : Env) (req : CreateProfileRequest) (db : Db)
    → Reports env db (create_profile env (bound req) db)
unfolding create_profile
create_profile-Reports env req db = elim (Bool-cases (len req.full_name == 0)) [
  | inl empty ↦ rw empty (inl refl)
  | inr named ↦ rw named (
      run_tx-Reports env (create_profile_tx env req) db
        (λ a after e. create_profile_tx-Step env req db a after (ground arith) e))
]

-- A query leaves the database alone; any other request reports what it did.
abbrev pub Outcome : Env → Request → Db → Type 0
Outcome env (Request.get_jobs limit offset status) db =
    (serve env (Request.get_jobs limit offset status) db).1 ≡ db
Outcome env (Request.get_job_id id) db = (serve env (Request.get_job_id id) db).1 ≡ db
Outcome env (Request.get_profile_id id) db = (serve env (Request.get_profile_id id) db).1 ≡ db
Outcome env req db = Reports env db (serve env req db)

-- The queries of the jobs service leave its database alone. For any other request, whatever it asks
-- and whatever fails in it, a success means that one step of the specification was made, whose
-- premises hold, and an error means that nothing changed, unless the transaction was committed and
-- its acknowledgement was lost, and then such a step was made.
pub serve-Reports : (env : Env) (req : Request) (db : Db) → Outcome env req db
unfolding serve create_job update_job create_profile update_skills get_job get_profile list_jobs
serve-Reports env (Request.post_job (unbound code)) db = inl refl
serve-Reports env (Request.post_job (bound req)) db = create_job-Reports env req db
serve-Reports env (Request.get_jobs limit offset status) db = ground arith
serve-Reports env (Request.get_job_id none) db = refl
serve-Reports env (Request.get_job_id (some id)) db = refl
serve-Reports env (Request.put_job none body) db = inl refl
serve-Reports env (Request.put_job (some id) (unbound code)) db = inl refl
serve-Reports env (Request.put_job (some id) (bound req)) db = update_job-Reports env id req db
serve-Reports env (Request.post_profile (unbound code)) db = inl refl
serve-Reports env (Request.post_profile (bound req)) db = create_profile-Reports env req db
serve-Reports env (Request.get_profile_id none) db = refl
serve-Reports env (Request.get_profile_id (some id)) db = refl
serve-Reports env (Request.put_skills none body) db = inl refl
serve-Reports env (Request.put_skills (some id) (unbound code)) db = inl refl
serve-Reports env (Request.put_skills (some id) (bound ids)) db =
    run_tx-Reports env (update_skills_tx env id ids) db
      (λ a after e. update_skills_tx-Step env id ids db a after e)
