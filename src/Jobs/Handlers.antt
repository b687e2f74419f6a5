-- ===== src/Jobs/Handlers.antt =====
-- The HTTP handlers of job_handler.go and profile_handler.go. A handler returns its answer or an
-- error, beside the database.
use Prim.Native.String.{String, len}
use text.Mathlib.Text as Text
use hire_flow.Prelude.{
  ℕ, Bool, true, ◌||◌, Option, none, some, List, not, ◌==◌, if◌then◌else◌, ◌&&◌,
}
use hire_flow.Prelude.Int.{ℤ, pos, pos_part, leb_ℤ, ltb_ℤ}
use hire_flow.Jobs.Types.{
  Uuid, Job, EventType, job_created, job_updated, profile_created, profile_updated, Payload,
  job_payload, profile_payload, Entry, Db, CreateJobRequest, UpdateJobRequest, CreateProfileRequest,
  Bound, bound, unbound, Message, title_required, client_id_required, full_name_required,
  invalid_job_id, invalid_profile_id, invalid_status, invalid_status_filter, app_error, http_error,
  other_error, job_json, jobs_json, profile_json, Answer, Site, Env, Profile,
}
use hire_flow.Jobs.Tx.{Result, ok, err, Sql, ◌>>=◌, ◌>>◌, pure, run_tx}
use hire_flow.Jobs.Stores.{
  create_job_row, get_job_by_id, list_job_rows, count_job_rows, update_job_row, create_profile_row,
  get_profile_by_id, update_profile_skills, insert_entry,
}

-- the keys of `validJobStatuses`
unfoldable pub valid_status : String → Bool
valid_status s =
    Text.◌==◌ s "draft" || Text.◌==◌ s "open" || Text.◌==◌ s "in_progress" || Text.◌==◌ s "closed"

abbrev pub event_row : Env → Uuid → EventType → Payload → Entry
event_row env id event payload = record {
  id = env.new_entry;
  aggregate_id = id;
  event_type = event;
  payload = payload;
  created_at = env.now;
  published_at = none;
}

-- `json.Marshal` and `outbox.Insert`
unfoldable pub emit : Env → Uuid → EventType → Payload → Sql (Unit {0})
unfolding insert_entry
emit env id event payload db =
    if env.fails Site.marshal
    then err other_error
    else insert_entry (env.fails Site.insert_outbox) (event_row env id event payload) db

abbrev reject : {A : Type 0} → Message → Db → Result A × Db
reject m db = (err (app_error 400 m), db)

unfoldable pub create_job_tx : Env → CreateJobRequest → Sql Answer
unfolding create_job_row emit
create_job_tx env req = do
  j ← create_job_row (env.fails Site.create_job) env.new_job env.now req
  emit env j.id job_created (job_payload j)
  pure (record { status = 201; body = job_json j })

unfoldable pub create_job : Env → Bound CreateJobRequest → Db → Result Answer × Db
create_job env (unbound code) db = (err (http_error code), db)
create_job env (bound req) db =
    if len req.title == 0
    then reject title_required db
    else if req.client_id == 0
    then reject client_id_required db
    else run_tx env (create_job_tx env req) db

abbrev found_job : Result (Job × Db) → Result Answer
found_job (ok (j, _)) = ok (record { status = 200; body = job_json j })
found_job (err e) = err e

-- `none` is a parameter that is not a UUID
unfoldable pub get_job : Env → Option Uuid → Db → Result Answer × Db
unfolding get_job_by_id
get_job env none db = reject invalid_job_id db
get_job env (some id) db = (found_job (get_job_by_id (env.fails Site.get_job) id db), db)

-- the bounds that the handler puts on the two numbers, which are 0 where `Atoi` reads none
abbrev pub clamp_limit : ℤ → ℕ
clamp_limit n = if leb_ℤ n (pos 0) then 20 else if ltb_ℤ (pos 100) n then 100 else pos_part n

abbrev counted_jobs : List Job → Result ℕ → Result Answer
counted_jobs items (ok total) = ok (record { status = 200; body = jobs_json items total })
counted_jobs items (err e) = err e

abbrev listed_jobs : Result (List Job) → Result ℕ → Result Answer
listed_jobs (ok items) total = counted_jobs items total
listed_jobs (err e) total = err e

abbrev pub status_param : String → Option String
status_param s = if len s == 0 then none else some s

unfoldable pub list_jobs : Env → ℤ → ℤ → String → Db → Result Answer × Db
unfolding list_job_rows count_job_rows
list_jobs env limit offset status db =
    if not (len status == 0) && not (valid_status status)
    then reject invalid_status_filter db
    else (
      listed_jobs
          (list_job_rows (env.fails Site.list_jobs) (status_param status) (clamp_limit limit)
            (pos_part offset) db)
          (count_job_rows (env.fails Site.count_jobs) (status_param status) db),
      db,
    )

unfoldable pub update_job_tx : Env → Uuid → UpdateJobRequest → Sql Answer
unfolding update_job_row emit
update_job_tx env id req = do
  j ← update_job_row (env.fails Site.update_job) id env.now req
  emit env j.id job_updated (job_payload j)
  pure (record { status = 200; body = job_json j })

abbrev pub status_allowed : Option String → Bool
status_allowed none = true
status_allowed (some s) = valid_status s

unfoldable pub update_job : Env → Option Uuid → Bound UpdateJobRequest → Db → Result Answer × Db
update_job env none req db = reject invalid_job_id db
update_job env (some id) (unbound code) db = (err (http_error code), db)
update_job env (some id) (bound req) db =
    if not (status_allowed req.status)
    then reject invalid_status db
    else run_tx env (update_job_tx env id req) db

unfoldable pub create_profile_tx : Env → CreateProfileRequest → Sql Answer
unfolding create_profile_row emit
create_profile_tx env req = do
  p ← create_profile_row (env.fails Site.create_profile) env.new_profile env.now req
  emit env p.row.id profile_created (profile_payload p)
  pure (record { status = 201; body = profile_json p })

unfoldable pub create_profile : Env → Bound CreateProfileRequest → Db → Result Answer × Db
create_profile env (unbound code) db = (err (http_error code), db)
create_profile env (bound req) db =
    if len req.full_name == 0
    then reject full_name_required db
    else run_tx env (create_profile_tx env req) db

abbrev found_profile : Result (Profile × Db) → Result Answer
found_profile (ok (p, _)) = ok (record { status = 200; body = profile_json p })
found_profile (err e) = err e

unfoldable pub get_profile : Env → Option Uuid → Db → Result Answer × Db
unfolding get_profile_by_id
get_profile env none db = reject invalid_profile_id db
get_profile env (some id) db = (
  found_profile (
      get_profile_by_id (env.fails Site.get_profile) (env.fails Site.get_skills) env.collate id db),
  db,
)

-- The profile is read before and after its skills are replaced.
unfoldable pub update_skills_tx : Env → Uuid → List Uuid → Sql Answer
unfolding get_profile_by_id update_profile_skills emit
update_skills_tx env id ids = do
  get_profile_by_id (env.fails Site.get_profile) (env.fails Site.get_skills) env.collate id
  update_profile_skills (env.fails Site.delete_links) (env.fails Site.insert_link)
      (env.fails Site.touch_profile) id env.now ids
  p ←
      get_profile_by_id (env.fails Site.reread_profile) (env.fails Site.reread_skills) env.collate
        id
  emit env p.row.id profile_updated (profile_payload p)
  pure (record { status = 200; body = profile_json p })

unfoldable pub update_skills : Env → Option Uuid → Bound (List Uuid) → Db → Result Answer × Db
update_skills env none req db = reject invalid_profile_id db
update_skills env (some id) (unbound code) db = (err (http_error code), db)
update_skills env (some id) (bound ids) db = run_tx env (update_skills_tx env id ids) db
