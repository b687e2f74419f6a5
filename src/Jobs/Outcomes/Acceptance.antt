-- ===== src/Jobs/Outcomes/Acceptance.antt =====
-- Which lists of ids `UpdateSkills` of profile_store.go accepts.
use hire_flow.Prelude.{◌≡◌, refl, inl, inr, Bool, true, false, List, [], ◌∷◌, arith, ◌&&◌, not}
use hire_flow.Prelude.Table.{contains, find, is_some}
use hire_flow.Jobs.Types.{Uuid, Skill, Link, Db, Error, other_error}
use hire_flow.Jobs.Tx.{Result, ok, err}
use hire_flow.Jobs.Stores.{
  skill_key, find_profile, linked, others, insert_link, insert_links, update_profile_skills,
}
use hire_flow.Jobs.Refinement.Skills.{Result-cases, linked-others_own}

-- The ids are those of skills, and none of them is repeated.
abbrev pub acceptable : List Uuid → List Skill → Bool
acceptable [] skills = true
acceptable (s ∷ ss) skills =
    is_some (find skill_key s skills) && not (contains s ss) && acceptable ss skills

-- None of the ids is a skill of the profile.
abbrev unlinked : Uuid → List Uuid → List Link → Bool
unlinked p [] links = true
unlinked p (s ∷ ss) links = not (linked p s links) && unlinked p ss links

unlinked-insert :
    (p s : Uuid) (ss : List Uuid) (links : List Link)
    → unlinked p ss (record { profile_id = p; skill_id = s } ∷ links)
      ≡ (not (contains s ss) && unlinked p ss links)
unlinked-insert p s [] links = refl
unlinked-insert p s (t ∷ ss) links = ground (arith, unlinked-insert p s ss links)

unlinked-others :
    (p : Uuid) (ss : List Uuid) (links : List Link) → unlinked p ss (others p links) ≡ true
unlinked-others p [] links = refl
unlinked-others p (s ∷ ss) links =
    ground (arith, linked-others_own p s links, unlinked-others p ss links)

abbrev is_ok : {A : Type 0} → Result A → Bool
is_ok (ok a) = true
is_ok (err e) = false

-- the failures of the loop, which are all the same to the caller
insert_links-err :
    (p : Uuid) (ss : List Uuid) (db : Db) (e : Error)
    → insert_links false p ss db ≡ err e
    → e ≡ other_error
unfolding insert_links insert_link
insert_links-err p [] db e h = ground arith
insert_links-err p (s ∷ ss) db e h = ground (
  arith,
  insert_links-err p ss (record db { links = record { profile_id = p; skill_id = s } ∷ db.links })
      e,
)

insert_links_accepts :
    (p : Uuid) (ss : List Uuid) (db : Db)
    → is_some (find_profile p db.profiles) ≡ true
    → is_ok (insert_links false p ss db) ≡ (acceptable ss db.skills && unlinked p ss db.links)
unfolding insert_links insert_link
insert_links_accepts p [] db known = refl
insert_links_accepts p (s ∷ ss) db known = ground (
  arith,
  insert_links_accepts p ss
      (record db { links = record { profile_id = p; skill_id = s } ∷ db.links }),
  unlinked-insert p s ss db.links,
)

-- `UpdateSkills` of profile_store.go accepts what is acceptable.
pub update_profile_skills_accepts :
    (p now : Uuid) (ss : List Uuid) (db : Db)
    → is_some (find_profile p db.profiles) ≡ true
    → is_ok (update_profile_skills false false false p now ss db) ≡ acceptable ss db.skills
unfolding update_profile_skills
update_profile_skills_accepts p now ss db known =
    let cleared : Db = record db { links = others p db.links } in
    let same = insert_links_accepts p ss cleared known in
    let clear = unlinked-others p ss db.links in
    elim (Result-cases (insert_links false p ss cleared)) [
      | inl (_, mid, made) ↦ ground arith
      | inr (x, failed) ↦ ground arith
    ]

pub update_profile_skills-err :
    (p now : Uuid) (ss : List Uuid) (db : Db) (e : Error)
    → update_profile_skills false false false p now ss db ≡ err e
    → e ≡ other_error
unfolding update_profile_skills
update_profile_skills-err p now ss db e h =
    let cleared : Db = record db { links = others p db.links } in
    elim (Result-cases (insert_links false p ss cleared)) [
      | inl (_, mid, made) ↦ ground arith
      | inr (x, failed) ↦ let is = insert_links-err p ss cleared x failed in ground arith
    ]
