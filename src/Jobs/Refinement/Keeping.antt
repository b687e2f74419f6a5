-- ===== src/Jobs/Refinement/Keeping.antt =====
-- What every step of Jobs/Spec keeps is kept by every request to the jobs service.
use mathlib.Core.Path.{subst}
use hire_flow.Prelude.{◌≡◌, refl, sym, inl, inr, List, [], ◌∷◌}
use hire_flow.Jobs.Types.{Db, Answer, Env}
use hire_flow.Jobs.Tx.{Result, ok, err, answer}
use hire_flow.Jobs.Spec.{Step}
use hire_flow.Jobs.Service.{Request, serve, respond, run}
use hire_flow.Jobs.Refinement.Commit.{Reports}
use hire_flow.Jobs.Refinement.Requests.{Outcome, serve-Reports}

answer_keeps : (r : Result Answer × Db) → (answer r).1 ≡ r.1
answer_keeps (ok a, db) = refl
answer_keeps (err e, db) = refl

module _ (P : Db → Type 0) (step : (a b : Db) → Step a b → P a → P b) where
  Reports_keep : (env : Env) (db : Db) (r : Result Answer × Db) → P db → Reports env db r → P r.1
  Reports_keep env db (ok a, after) p st = step db after st p
  Reports_keep env db (err e, after) p (inl same) = subst P (sym same) p
  Reports_keep env db (err e, after) p (inr (lost, st)) = step db after st p

  serve_keeps : (env : Env) (req : Request) (db : Db) → P db → P (serve env req db).1
  serve_keeps env req db p = kept req (serve-Reports env req db)
    where
      kept : (q : Request) → Outcome env q db → P (serve env q db).1
      kept (Request.get_jobs limit offset status) same = subst P (sym same) p
      kept (Request.get_job_id id) same = subst P (sym same) p
      kept (Request.get_profile_id id) same = subst P (sym same) p
      kept (Request.post_job body) r = Reports_keep env db _ p r
      kept (Request.put_job id body) r = Reports_keep env db _ p r
      kept (Request.post_profile body) r = Reports_keep env db _ p r
      kept (Request.put_skills id body) r = Reports_keep env db _ p r

  pub respond_keeps : (env : Env) (req : Request) (db : Db) → P db → P (respond env req db).1
  unfolding respond
  respond_keeps env req db p =
      subst P (sym (answer_keeps (serve env req db))) (serve_keeps env req db p)

  pub run_keeps : (db : Db) (requests : List (Env × Request)) → P db → P (run db requests)
  unfolding run
  run_keeps db [] p = p
  run_keeps db ((env, req) ∷ rest) p =
      run_keeps (respond env req db).1 rest (respond_keeps env req db p)
