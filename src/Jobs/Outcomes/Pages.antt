-- ===== src/Jobs/Outcomes/Pages.antt =====
-- What List of job_handler.go answers.
use Prim.Native.String.{String, len}
use hire_flow.Prelude.{
  ◌≡◌, ◌≤◌, inl, inr, Bool, true, false, List, [], ◌∷◌, arith, ◌==◌, Bool-cases, ◌||◌,
}
use hire_flow.Prelude.Int.{ℤ, pos_part}
use hire_flow.Prelude.Table.{length, filter, All}
use hire_flow.Prelude.Paging.{newest, page, length-newest, All-newest}
use hire_flow.Prelude.Sorting.{length-take, length-drop, All-take, All-drop, drop}
use hire_flow.Jobs.Types.{Job, Db, Env, Site, Answer, jobs_json, invalid_status_filter}
use hire_flow.Jobs.Tx.{Denies}
use hire_flow.Jobs.Service.{Request, respond}
use hire_flow.Jobs.Stores.{has_status, list_job_rows, count_job_rows}
use hire_flow.Jobs.Handlers.{valid_status, list_jobs, clamp_limit, status_param}

filter-All {ℓ} : {A : Type ℓ} (p : A → Bool) (xs : List A) → All (λ x. p x ≡ true) (filter p xs)
filter-All p [] = tt
filter-All p (x ∷ xs) = elim (Bool-cases (p x)) [
  | inl e ↦ rw e (e, filter-All p xs)
  | inr e ↦ rw e (filter-All p xs)
]

abbrev pub known_filter : String → Bool
known_filter status = len status == 0 || valid_status status

abbrev pub asked_jobs : String → Db → List Job
asked_jobs status db = filter (has_status (status_param status)) db.jobs

-- What List comes to, if the filter is known and if it is not.
abbrev pub ListOutcome : ℤ → String → Db → Answer × Db → Bool → Type 0
ListOutcome limit status db r false = Denies 400 invalid_status_filter db r
ListOutcome limit status db r true =
    (items : List Job) × (r
      ≡ (record { status = 200; body = jobs_json items (length (asked_jobs status db)) }, db))
    × (length items ≤ 100)
    × (length items ≤ clamp_limit limit)
    × (length items ≤ length (asked_jobs status db))
    × All (λ j. has_status (status_param status) j ≡ true) items

clamp_limit_bounds : (n : ℤ) → (1 ≤ clamp_limit n) × (clamp_limit n ≤ 100)
clamp_limit_bounds n = ground arith

-- If its queries work, List answers 400 for a filter that is no status, and else 200 with at most
-- 100 jobs and at most as many as asked for, each of them of the status asked for, beside the number
-- of all such jobs. It changes nothing.
pub list_jobs_bounds :
    (env : Env) (limit offset : ℤ) (status : String) (db : Db)
    → env.fails Site.list_jobs ≡ false
    → env.fails Site.count_jobs ≡ false
    → ListOutcome limit status db
        (respond env (Request.get_jobs limit offset status) db)
        (known_filter status)
unfolding respond
list_jobs_bounds env limit offset status db lists counts = elim (Bool-cases (known_filter status)) [
  | inr unknown ↦ rw unknown (unfold list_jobs in ground arith)
  | inl known ↦ rw known (shown known)
]
  where
    shown :
        known_filter status ≡ true
        → ListOutcome limit status db (respond env (Request.get_jobs limit offset status) db) true
    shown known =
        let rows = newest (λ (j : Job). j.created_at) (asked_jobs status db) in
        let items = page (clamp_limit limit) (pos_part offset) rows in
        let (some_rows, few) = clamp_limit_bounds limit in
        let short = length-take (clamp_limit limit) (drop (pos_part offset) rows) in
        let rest = length-drop (pos_part offset) rows in
        let whole = length-newest (λ (j : Job). j.created_at) (asked_jobs status db) in
        let fit =
          All-newest (λ j. has_status (status_param status) j ≡ true) (λ (j : Job). j.created_at)
            (asked_jobs status db) (filter-All (has_status (status_param status)) db.jobs) in
        (
          items,
          (unfold list_jobs list_job_rows count_job_rows in ground arith),
          omega arith,
          omega arith,
          omega arith,
          All-take _ (clamp_limit limit) (drop (pos_part offset) rows)
              (All-drop _ (pos_part offset) rows fit),
        )
