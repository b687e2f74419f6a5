-- ===== src/Jobs/Stores.antt =====
-- The SQL statements of job_store.go and profile_store.go, and `Insert` of pkg/outbox/store.go, with
-- the constraints of services/jobs-api/migrations. A statement takes first whether it fails for a
-- reason outside the program.
use Prim.Native.String.{String}
use hire_flow.Prelude.{
  ℕ, Bool, true, false, ◌&&◌, ◌||◌, Option, none, some, List, [], ◌∷◌, not, ◌==◌, if◌then◌else◌,
}
use hire_flow.Prelude.Int.{ℤ, pos, negsuc, leb_ℤ}
use hire_flow.Prelude.Table.{find, update, is_some, filter, length}
use hire_flow.Prelude.Sorting.{sort_by}
use hire_flow.Prelude.Paging.{newest, page}
use hire_flow.Jobs.Types.{
  Uuid, Job, Skill, ProfileRow, Profile, Link, Entry, Db, CreateJobRequest, UpdateJobRequest,
  CreateProfileRequest, no_rows, other_error,
}
use hire_flow.Jobs.Tx.{Result, ok, err, Sql, ◌>>◌, next}
use text.Mathlib.Text as Text

abbrev pub job_key : Job → Uuid
job_key j = j.id

abbrev pub profile_key : ProfileRow → Uuid
profile_key p = p.id

abbrev pub skill_key : Skill → Uuid
skill_key s = s.id

abbrev pub entry_key : Entry → Uuid
entry_key e = e.id

abbrev pub find_job : Uuid → List Job → Option Job
find_job = find job_key

abbrev pub find_profile : Uuid → List ProfileRow → Option ProfileRow
find_profile = find profile_key

-- The driver refuses a number that an INT cannot hold.
unfoldable pub fits_int4 : ℤ → Bool
fits_int4 n = leb_ℤ (negsuc 2147483647) n && leb_ℤ n (pos 2147483647)

abbrev pub new_job_row : Uuid → ℕ → CreateJobRequest → Job
new_job_row id now req = record {
  id = id;
  title = req.title;
  description = req.description;
  budget_min = req.budget_min;
  budget_max = req.budget_max;
  status = "draft";
  client_id = req.client_id;
  created_at = now;
  updated_at = now;
}

unfoldable pub create_job_row : Bool → Uuid → ℕ → CreateJobRequest → Sql Job
create_job_row fails id now req db =
    if fails
      || not (fits_int4 req.budget_min)
      || not (fits_int4 req.budget_max)
      || is_some (find_job id db.jobs)
    then err other_error
    else let j = new_job_row id now req in ok (j, record db { jobs = j ∷ db.jobs })

abbrev row_of : {A : Type 0} → Option A → Db → Result (A × Db)
row_of none db = err no_rows
row_of (some a) db = ok (a, db)

unfoldable pub get_job_by_id : Bool → Uuid → Sql Job
get_job_by_id fails id db = if fails then err other_error else row_of (find_job id db.jobs) db

abbrev pub has_status : Option String → Job → Bool
has_status none j = true
has_status (some s) j = Text.◌==◌ j.status s

-- `params.Limit > 0` and `params.Offset > 0` may fail only for 0, since the handler passes no other
unfoldable pub list_job_rows : Bool → Option String → ℕ → ℕ → Db → Result (List Job)
list_job_rows fails status limit offset db =
    let rows = newest (λ (j : Job). j.created_at) (filter (has_status status) db.jobs) in
    if fails
    then err other_error
    else ok (if limit == 0 then page (length rows) offset rows else page limit offset rows)

unfoldable pub count_job_rows : Bool → Option String → Db → Result ℕ
count_job_rows fails status db =
    if fails then err other_error else ok (length (filter (has_status status) db.jobs))

-- `COALESCE($n, column)`
abbrev pub coalesce {ℓ} : {A : Type ℓ} → Option A → A → A
coalesce none a = a
coalesce (some b) a = b

abbrev pub patch : ℕ → UpdateJobRequest → Job → Job
patch now req j = record j {
  title = coalesce req.title j.title;
  description = coalesce req.description j.description;
  budget_min = coalesce req.budget_min j.budget_min;
  budget_max = coalesce req.budget_max j.budget_max;
  status = coalesce req.status j.status;
  updated_at = now;
}

-- an absent number is NULL
abbrev pub fits_if : Option ℤ → Bool
fits_if none = true
fits_if (some n) = fits_int4 n

unfoldable pub update_job_row : Bool → Uuid → ℕ → UpdateJobRequest → Sql Job
update_job_row fails id now req db =
    if fails || not (fits_if req.budget_min) || not (fits_if req.budget_max)
    then err other_error
    else row_of (find_job id (update job_key id (patch now req) db.jobs))
        (record db { jobs = update job_key id (patch now req) db.jobs })

abbrev pub new_profile_row : Uuid → ℕ → CreateProfileRequest → ProfileRow
new_profile_row id now req = record {
  id = id;
  full_name = req.full_name;
  bio = req.bio;
  hourly_rate = req.hourly_rate;
  available = true;
  created_at = now;
  updated_at = now;
}

unfoldable pub create_profile_row : Bool → Uuid → ℕ → CreateProfileRequest → Sql Profile
create_profile_row fails id now req db =
    if fails || not (fits_int4 req.hourly_rate) || is_some (find_profile id db.profiles)
    then err other_error
    else let p = new_profile_row id now req in
      ok (record { row = p; skills = [] }, record db { profiles = p ∷ db.profiles })

-- whether the profile has the skill
abbrev pub linked : Uuid → Uuid → List Link → Bool
linked p s [] = false
linked p s (l ∷ ls) = (l.profile_id == p && l.skill_id == s) || linked p s ls

-- `SELECT … FROM skills s JOIN profile_skills ps ON … WHERE ps.profile_id = $1 ORDER BY s.name`; a
-- pair stands in `profile_skills` at most once
abbrev pub skills_of : (String → ℕ) → Uuid → List Link → List Skill → List Skill
skills_of collate p links skills =
    sort_by (λ (s : Skill). collate s.name) (filter (λ (s : Skill). linked p s.id links) skills)

-- the two queries of `GetByID`
unfoldable pub get_profile_by_id : Bool → Bool → (String → ℕ) → Uuid → Sql Profile
get_profile_by_id row_fails skills_fail collate id db =
    if row_fails
    then err other_error
    else next (row_of (find_profile id db.profiles) db) (λ p db'.
      if skills_fail
      then err other_error
      else ok (record { row = p; skills = skills_of collate id db'.links db'.skills }, db'))

-- one round of the loop of `UpdateSkills`, under the keys of `profile_skills`
unfoldable pub insert_link : Bool → Uuid → Uuid → Sql (Unit {0})
insert_link fails p s db =
    if fails
      || linked p s db.links
      || not (is_some (find_profile p db.profiles))
      || not (is_some (find skill_key s db.skills))
    then err other_error
    else ok (tt, record db { links = record { profile_id = p; skill_id = s } ∷ db.links })

-- the loop; a failure in any round is the failure of all, since the transaction rolls back
unfoldable pub insert_links : Bool → Uuid → List Uuid → Sql (Unit {0})
insert_links fails p [] db = ok (tt, db)
insert_links fails p (s ∷ ss) db = next (insert_link fails p s db) (λ _. insert_links fails p ss)

abbrev pub others : Uuid → List Link → List Link
others p links = filter (λ (l : Link). not (l.profile_id == p)) links

abbrev pub touch : ℕ → ProfileRow → ProfileRow
touch now p = record p { updated_at = now }

abbrev delete_links : Bool → Uuid → Sql (Unit {0})
delete_links fails p db =
    if fails then err other_error else ok (tt, record db { links = others p db.links })

abbrev touch_profile : Bool → Uuid → ℕ → Sql (Unit {0})
touch_profile fails p now db =
    if fails
    then err other_error
    else ok (tt, record db { profiles = update profile_key p (touch now) db.profiles })

-- `UpdateSkills`, with what fails of its three kinds of statements
unfoldable pub update_profile_skills : Bool → Bool → Bool → Uuid → ℕ → List Uuid → Sql (Unit {0})
update_profile_skills delete_fails insert_fails touch_fails p now ss = do
  delete_links delete_fails p
  insert_links insert_fails p ss
  touch_profile touch_fails p now

unfoldable pub insert_entry : Bool → Entry → Sql (Unit {0})
insert_entry fails e db =
    if fails || is_some (find entry_key e.id db.outbox)
    then err other_error
    else ok (tt, record db { outbox = e ∷ db.outbox })
