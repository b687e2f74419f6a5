-- ===== src/Jobs/Refinement/Rows.antt =====
-- The bodies of the four transactions, as steps of Jobs/Spec.
use Prim.Native.String.{len}
use hire_flow.Prelude.{◌≡◌, ◌≢◌, refl, inl, inr, true, none, List, arith, Option-cases, sym}
use hire_flow.Prelude.Table.{find, find-update, find_key}
use mathlib.Core.Path.{subst}
use hire_flow.Jobs.Types.{
  Uuid, Db, CreateJobRequest, UpdateJobRequest, CreateProfileRequest, Answer, Env, Site,
}
use hire_flow.Jobs.Tx.{ok}
use hire_flow.Jobs.Stores.{
  job_key, profile_key, entry_key, find_job, find_profile, fits_int4, fits_if, patch, touch,
  update_profile_skills, get_profile_by_id, update_job_row, create_job_row, create_profile_row,
  insert_entry,
}
use hire_flow.Jobs.Handlers.{
  create_job_tx, update_job_tx, create_profile_tx, update_skills_tx, status_allowed, emit,
}
use hire_flow.Jobs.Spec.{
  posted, revised, joined, reskilled, Step, posting, revising, joining, reskilling,
}
use hire_flow.Jobs.Refinement.Skills.{Result-cases, update_profile_skills_ok}

create_job_tx_ok :
    (env : Env) (req : CreateJobRequest) (db : Db) (a : Answer) (after : Db)
    → create_job_tx env req db ≡ ok (a, after)
    → (fits_int4 req.budget_min ≡ true)
      × (fits_int4 req.budget_max ≡ true)
      × (find_job env.new_job db.jobs ≡ none)
      × (find entry_key env.new_entry db.outbox ≡ none)
      × (after ≡ posted env req db)
unfolding create_job_tx create_job_row emit insert_entry
create_job_tx_ok env req db a after e =
    (ground arith, ground arith, ground arith, ground arith, ground arith)

pub create_job_tx-Step :
    (env : Env) (req : CreateJobRequest) (db : Db) (a : Answer) (after : Db)
    → len req.title ≢ 0
    → req.client_id ≢ 0
    → create_job_tx env req db ≡ ok (a, after)
    → Step db after
create_job_tx-Step env req db a after titled known e =
    let (low, high, fresh, new, is) = create_job_tx_ok env req db a after e in
    subst (Step db) (sym is) (posting env req titled known low high fresh new)

pub update_job_tx-Step :
    (env : Env) (id : Uuid) (req : UpdateJobRequest) (db : Db) (a : Answer) (after : Db)
    → status_allowed req.status ≡ true
    → update_job_tx env id req db ≡ ok (a, after)
    → Step db after
unfolding update_job_tx update_job_row emit insert_entry
update_job_tx-Step env id req db a after allowed e =
    let moved = find-update job_key (patch env.now req) (λ j. refl) id id db.jobs in
    elim (Option-cases (find_job id db.jobs)) [
      | inl missing ↦ absurd (ground arith)
      | inr (j, found) ↦
          let own = find_key job_key id db.jobs j found in
          let low : fits_if req.budget_min ≡ true = ground arith in
          let high : fits_if req.budget_max ≡ true = ground arith in
          let new : find entry_key env.new_entry db.outbox ≡ none = ground arith in
          let is : after ≡ revised env id req j db = ground arith in
          subst (Step db) (sym is) (revising env id req j found allowed low high new)
    ]

create_profile_tx_ok :
    (env : Env) (req : CreateProfileRequest) (db : Db) (a : Answer) (after : Db)
    → create_profile_tx env req db ≡ ok (a, after)
    → (fits_int4 req.hourly_rate ≡ true)
      × (find_profile env.new_profile db.profiles ≡ none)
      × (find entry_key env.new_entry db.outbox ≡ none)
      × (after ≡ joined env req db)
unfolding create_profile_tx create_profile_row emit insert_entry
create_profile_tx_ok env req db a after e = (ground arith, ground arith, ground arith, ground arith)

pub create_profile_tx-Step :
    (env : Env) (req : CreateProfileRequest) (db : Db) (a : Answer) (after : Db)
    → len req.full_name ≢ 0
    → create_profile_tx env req db ≡ ok (a, after)
    → Step db after
create_profile_tx-Step env req db a after named e =
    let (rate, fresh, new, is) = create_profile_tx_ok env req db a after e in
    subst (Step db) (sym is) (joining env req named rate fresh new)

pub update_skills_tx-Step :
    (env : Env) (id : Uuid) (ids : List Uuid) (db : Db) (a : Answer) (after : Db)
    → update_skills_tx env id ids db ≡ ok (a, after)
    → Step db after
unfolding update_skills_tx get_profile_by_id emit insert_entry
update_skills_tx-Step env id ids db a after e =
    let moved = find-update profile_key (touch env.now) (λ p. refl) id id db.profiles in
    elim (Option-cases (find_profile id db.profiles)) [
      | inl missing ↦ absurd (ground arith)
      | inr (p, found) ↦
          elim (Result-cases (
            update_profile_skills (env.fails Site.delete_links) (env.fails Site.insert_link)
              (env.fails Site.touch_profile) id env.now ids db)) [
                | inl (_, mid, made) ↦
                    let (replaces, rest) =
                      update_profile_skills_ok _ _ _ id env.now ids db mid made in
                    let own = find_key profile_key id db.profiles p found in
                    let new : find entry_key env.new_entry db.outbox ≡ none = ground arith in
                    let is : after ≡ reskilled env id p mid.links db = ground arith in
                    subst (Step db) (sym is) (reskilling env id p ids mid.links found replaces new)
                | inr (x, failed) ↦ absurd (ground arith)
              ]
    ]
