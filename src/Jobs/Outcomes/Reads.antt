-- ===== src/Jobs/Outcomes/Reads.antt =====
-- What Create and Update of job_handler.go answer if nothing fails for a reason outside the program,
-- and what GetByID then finds.
use Prim.Native.String.{len}
use hire_flow.Prelude.{
  ℕ, ◌≡◌, ◌≢◌, refl, ap, inl, inr, Bool, true, false, Option, none, some, arith, Bool-cases,
  Option-cases, ◌&&◌,
}
use hire_flow.Prelude.Table.{find-update, find_key}
use hire_flow.Jobs.Types.{
  Uuid, Job, Db, Env, Site, CreateJobRequest, UpdateJobRequest, bound, Answer, no_rows, other_error,
  job_json, invalid_status, internal_server_error, not_found,
}
use hire_flow.Jobs.Tx.{err, run_tx, answer, Denies}
use hire_flow.Jobs.Stores.{
  job_key, find_job, fits_int4, fits_if, new_job_row, patch, create_job_row, update_job_row,
  get_job_by_id, insert_entry,
}
use hire_flow.Jobs.Handlers.{
  create_job, create_job_tx, update_job, update_job_tx, get_job, emit, status_allowed,
}
use hire_flow.Jobs.Service.{Request, respond}
use hire_flow.Jobs.Spec.{posted, revised}
use hire_flow.Jobs.Outcomes.Skills.{IsWorking}

abbrev pub ShowsJob : ℕ → Job → Db → Answer × Db → Type 0
ShowsJob status j db r = r ≡ (record { status = status; body = job_json j }, db)

-- If nothing fails for a reason outside the program, a request with a title, a client and numbers
-- that fit is answered 201 with a draft job of the request's fields, and GetByID then answers with
-- the same job.
pub create_job-get_job :
    (env later : Env) (req : CreateJobRequest) (db : Db)
    → IsWorking env db
    → later.fails Site.get_job ≡ false
    → len req.title ≢ 0
    → req.client_id ≢ 0
    → fits_int4 req.budget_min ≡ true
    → fits_int4 req.budget_max ≡ true
    → find_job env.new_job db.jobs ≡ none
    → ShowsJob 201
        (new_job_row env.new_job env.now req)
        (posted env req db)
        (respond env (Request.post_job (bound req)) db)
      × ShowsJob 200 (new_job_row env.new_job env.now req) (posted env req db) (
          respond later
            (Request.get_job_id (some env.new_job))
            (respond env (Request.post_job (bound req)) db).1)
unfolding respond create_job run_tx create_job_tx get_job emit insert_entry create_job_row
    get_job_by_id
create_job-get_job env later req db w reads titled known low high fresh =
    let created : ShowsJob 201 (new_job_row env.new_job env.now req) (posted env req db)
        (respond env (Request.post_job (bound req)) db) =
      ground (
        arith,
        w.sites Site.begin,
        w.sites Site.create_job,
        w.sites Site.marshal,
        w.sites Site.insert_outbox,
        w.commit,
        w.fresh,
      ) in
    (created, ground arith)

-- What Update comes to: whether the status is one of the four, whether the numbers fit, and the job.
abbrev pub UpdateOutcome :
    Env → Uuid → UpdateJobRequest → Db → Answer × Db → Bool → Bool → Option Job → Type 0
UpdateOutcome env id req db r false fits found = Denies 400 invalid_status db r
UpdateOutcome env id req db r true false found = Denies 500 internal_server_error db r
UpdateOutcome env id req db r true true none = Denies 404 not_found db r
UpdateOutcome env id req db r true true (some j) =
    ShowsJob 200 (patch env.now req j) (revised env id req j db) r
    × ShowsJob 200 (patch env.now req j) (revised env id req j db)
        (respond env (Request.get_job_id (some id)) r.1)

abbrev pub fits_both : UpdateJobRequest → Bool
fits_both req = fits_if req.budget_min && fits_if req.budget_max

module _ (env : Env) (id : Uuid) (req : UpdateJobRequest) (db : Db) (w : IsWorking env db)
    (allowed : status_allowed req.status ≡ true) where
  too_large :
      fits_both req ≡ false → update_job env (some id) (bound req) db ≡ (err other_error, db)
  unfolding update_job run_tx update_job_tx update_job_row
  too_large big = ground (arith, w.sites Site.begin, w.sites Site.update_job, w.commit)

  absent :
      find_job id db.jobs ≡ none
      → fits_both req ≡ true
      → update_job env (some id) (bound req) db ≡ (err no_rows, db)
  unfolding update_job run_tx update_job_tx update_job_row
  absent missing fit =
      let moved = find-update job_key (patch env.now req) (λ j. refl) id id db.jobs in
      ground (arith, w.sites Site.begin, w.sites Site.update_job, w.commit)

  updated :
      (j : Job)
      → find_job id db.jobs ≡ some j
      → fits_both req ≡ true
      → UpdateOutcome env id req db
          (respond env (Request.put_job (some id) (bound req)) db)
          true
          true
          (some j)
  unfolding respond update_job run_tx update_job_tx update_job_row emit insert_entry get_job
      get_job_by_id
  updated j found fit =
      let moved = find-update job_key (patch env.now req) (λ j. refl) id id db.jobs in
      let own = find_key job_key id db.jobs j found in
      let done : ShowsJob 200 (patch env.now req j) (revised env id req j db)
          (respond env (Request.put_job (some id) (bound req)) db) =
        ground (
          arith,
          w.sites Site.begin,
          w.sites Site.update_job,
          w.sites Site.marshal,
          w.sites Site.insert_outbox,
          w.commit,
          w.fresh,
        ) in
      (done, ground (arith, w.sites Site.get_job))

-- If nothing fails for a reason outside the program, Update answers 400 for a status that is none of
-- the four, 500 for a number that no INT holds and 404 for a job that is missing, all without a
-- change; and else it answers 200 with the job in which the fields of the request are replaced and
-- the others are as before, and GetByID then answers with the same job.
pub update_job-Works :
    (env : Env) (id : Uuid) (req : UpdateJobRequest) (db : Db)
    → IsWorking env db
    → UpdateOutcome env id req db
        (respond env (Request.put_job (some id) (bound req)) db)
        (status_allowed req.status)
        (fits_both req)
        (find_job id db.jobs)
unfolding respond
update_job-Works env id req db w = elim (Bool-cases (status_allowed req.status)) [
  | inr bad ↦ rw bad (unfold update_job in ground arith)
  | inl allowed ↦ rw allowed (elim (Bool-cases (fits_both req)) [
    | inr big ↦ rw big (ap answer (too_large env id req db w allowed big))
    | inl fit ↦ rw fit (elim (Option-cases (find_job id db.jobs)) [
      | inl missing ↦ rw missing (ap answer (absent env id req db w allowed missing fit))
      | inr (j, found) ↦ rw found (updated env id req db w allowed j found fit)
    ])
  ])
]
