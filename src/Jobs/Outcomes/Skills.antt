-- ===== src/Jobs/Outcomes/Skills.antt =====
-- What UpdateSkills of profile_handler.go answers if nothing fails for a reason outside the program.
use hire_flow.Prelude.{
  ℕ, ◌≡◌, refl, ap, inl, inr, Bool, true, false, Option, none, some, List, [], ◌∷◌, arith,
  Bool-cases, Option-cases, String,
}
use hire_flow.Prelude.Table.{contains, find, filter, find-update, find_key}
use hire_flow.Prelude.Sorting.{sort_by}
use hire_flow.Prelude.Database.{durable}
use hire_flow.Jobs.Types.{
  Uuid, Skill, ProfileRow, Link, profile_json, internal_server_error, not_found, Db, Env, Site,
  bound, Answer,
}
use hire_flow.Jobs.Tx.{run_tx, answer, Denies}
use hire_flow.Jobs.Service.{Request, respond}
use hire_flow.Jobs.Stores.{
  profile_key, entry_key, find_profile, skills_of, touch, update_profile_skills, get_profile_by_id,
  insert_entry,
}
use hire_flow.Jobs.Outcomes.Acceptance.{
  acceptable, update_profile_skills_accepts, update_profile_skills-err,
}
use hire_flow.Jobs.Handlers.{update_skills, update_skills_tx, emit}
use hire_flow.Jobs.Spec.{reskilled, Replaces}
use hire_flow.Jobs.Refinement.Skills.{Result-cases, update_profile_skills_ok}

-- Nothing fails for a reason outside the program, and the new id of an outbox row is new.
pub record IsWorking (env : Env) (db : Db) : Type 0 where
  pub sites : (s : Site) → env.fails s ≡ false
  pub commit : env.commit ≡ durable
  pub fresh : find entry_key env.new_entry db.outbox ≡ none

-- The skills with the given ids, in the order of their names.
abbrev pub chosen : (String → ℕ) → List Uuid → List Skill → List Skill
chosen collate ids skills =
    sort_by (λ (s : Skill). collate s.name) (filter (λ (s : Skill). contains s.id ids) skills)

filter_ext :
    (f g : Skill → Bool) (xs : List Skill) → ((s : Skill) → f s ≡ g s) → filter f xs ≡ filter g xs
filter_ext f g [] h = refl
filter_ext f g (x ∷ xs) h = ground (arith, h x, filter_ext f g xs h)

skills_of-chosen :
    (collate : String → ℕ) (p : Uuid) (ids : List Uuid) (before links : List Link)
    (skills : List Skill)
    → Replaces p ids before links
    → skills_of collate p links skills ≡ chosen collate ids skills
skills_of-chosen collate p ids before links skills r =
    ap (sort_by (λ (s : Skill). collate s.name)) (filter_ext _ _ skills (λ s. r.exact s.id))

-- the answer of a success, and the database after it
abbrev pub replaced_answer : Env → List Uuid → ProfileRow → Db → Answer
replaced_answer env ids p db = record {
  status = 200;
  body = profile_json (record { row = touch env.now p; skills = chosen env.collate ids db.skills });
}

-- What UpdateSkills comes to for a profile, if it is there, and for ids that are acceptable or not.
abbrev pub SkillsOutcome :
    Env → Uuid → List Uuid → Db → Answer × Db → Option ProfileRow → Bool → Type 0
SkillsOutcome env id ids db r none b = Denies 404 not_found db r
SkillsOutcome env id ids db r (some p) false = Denies 500 internal_server_error db r
SkillsOutcome env id ids db r (some p) true =
    (links : List Link) × Replaces id ids db.links links
    × (r ≡ (replaced_answer env ids p db, reskilled env id p links db))

module _ (env : Env) (id : Uuid) (ids : List Uuid) (db : Db) (w : IsWorking env db) where
  abbrev result : Answer × Db
  result = answer (run_tx env (update_skills_tx env id ids) db)

  missing : find_profile id db.profiles ≡ none → Denies 404 not_found db result
  unfolding run_tx update_skills_tx get_profile_by_id
  missing absent = ground (arith, w.sites Site.begin, w.sites Site.get_profile, w.commit)

  refused_ids :
      (p : ProfileRow)
      → find_profile id db.profiles ≡ some p
      → acceptable ids db.skills ≡ false
      → Denies 500 internal_server_error db result
  unfolding run_tx update_skills_tx get_profile_by_id
  refused_ids p found bad =
      let same = update_profile_skills_accepts id env.now ids db (ground arith) in
      elim (Result-cases (update_profile_skills false false false id env.now ids db)) [
        | inl (_, mid, made) ↦ absurd (ground arith)
        | inr (x, failed) ↦
            let is = update_profile_skills-err id env.now ids db x failed in
            ground (
              arith,
              w.sites Site.begin,
              w.sites Site.get_profile,
              w.sites Site.get_skills,
              w.commit,
              w.sites Site.delete_links,
              w.sites Site.insert_link,
              w.sites Site.touch_profile,
            )
      ]

  accepted :
      (p : ProfileRow)
      → find_profile id db.profiles ≡ some p
      → acceptable ids db.skills ≡ true
      → SkillsOutcome env id ids db result (some p) true
  unfolding run_tx update_skills_tx get_profile_by_id emit insert_entry
  accepted p found good =
      let same = update_profile_skills_accepts id env.now ids db (ground arith) in
      elim (Result-cases (update_profile_skills false false false id env.now ids db)) [
        | inl (_, mid, made) ↦
            let (replaces, rest) =
              update_profile_skills_ok false false false id env.now ids db mid made in
            let own = find_key profile_key id db.profiles p found in
            let moved = find-update profile_key (touch env.now) (λ q. refl) id id db.profiles in
            let shown = skills_of-chosen env.collate id ids db.links mid.links db.skills replaces in
            (
              mid.links,
              replaces,
              ground (
                arith,
                w.sites Site.begin,
                w.sites Site.get_profile,
                w.sites Site.get_skills,
                w.commit,
                w.sites Site.delete_links,
                w.sites Site.insert_link,
                w.sites Site.touch_profile,
                w.sites Site.reread_profile,
                w.sites Site.reread_skills,
                w.sites Site.marshal,
                w.sites Site.insert_outbox,
                w.fresh,
              ),
            )
        | inr (x, failed) ↦ absurd (ground arith)
      ]

-- If nothing fails for a reason outside the program, UpdateSkills answers 404 for a profile that is
-- missing, 500 if an id is repeated or is no skill, both without a change, and else it gives the
-- profile exactly the skills with the given ids, shows them in the answer in the order of their
-- names, writes the event, and leaves the skills of other profiles alone.
pub update_skills-Works :
    (env : Env) (id : Uuid) (ids : List Uuid) (db : Db)
    → IsWorking env db
    → SkillsOutcome env id ids db
        (respond env (Request.put_skills (some id) (bound ids)) db)
        (find_profile id db.profiles)
        (acceptable ids db.skills)
unfolding respond update_skills
update_skills-Works env id ids db w = elim (Option-cases (find_profile id db.profiles)) [
  | inl absent ↦ rw absent (missing env id ids db w absent)
  | inr (p, found) ↦ rw found (elim (Bool-cases (acceptable ids db.skills)) [
    | inl good ↦ rw good (accepted env id ids db w p found good)
    | inr bad ↦ rw bad (refused_ids env id ids db w p found bad)
  ])
]
