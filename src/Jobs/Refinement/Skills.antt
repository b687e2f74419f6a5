-- ===== src/Jobs/Refinement/Skills.antt =====
-- `UpdateSkills` of profile_store.go, and the skills that a profile then has.
use hire_flow.Prelude.{◌≡◌, ◌≢◌, refl, ◌⊎◌, inl, inr, Bool, false, ◌||◌, List, [], ◌∷◌, arith}
use hire_flow.Prelude.Table.{contains, update}
use hire_flow.Jobs.Types.{Uuid, Link, Db, Error}
use hire_flow.Jobs.Tx.{Result, ok, err}
use hire_flow.Jobs.Stores.{
  linked, others, insert_link, insert_links, update_profile_skills, profile_key, touch,
}
use hire_flow.Jobs.Spec.{Replaces}

pub Result-cases :
    {A : Type 0} (r : Result (A × Db))
    → ((a : A) × (after : Db) × (r ≡ ok (a, after))) ⊎ ((e : Error) × (r ≡ err e))
Result-cases (ok (a, after)) = inl (a, after, refl)
Result-cases (err e) = inr (e, refl)

pub linked-others_own : (p s : Uuid) (links : List Link) → linked p s (others p links) ≡ false
linked-others_own p s [] = refl
linked-others_own p s (l ∷ links) = ground (arith, linked-others_own p s links)

linked-others :
    (p q s : Uuid) (links : List Link) → q ≢ p → linked q s (others p links) ≡ linked q s links
linked-others p q s [] ne = refl
linked-others p q s (l ∷ links) ne = ground (arith, linked-others p q s links ne)

-- what the loop adds
insert_links_ok :
    (fails : Bool) (p : Uuid) (ss : List Uuid) (db after : Db)
    → insert_links fails p ss db ≡ ok (tt, after)
    → (after ≡ record db { links = after.links })
      × ((s : Uuid) → linked p s after.links ≡ (linked p s db.links || contains s ss))
      × ((q s : Uuid) → q ≢ p → linked q s after.links ≡ linked q s db.links)
unfolding insert_links
insert_links_ok fails p [] db after e =
    (ground arith, (λ s. ground arith), (λ q s ne. ground arith))
insert_links_ok fails p (s ∷ ss) db after e = elim (Result-cases (insert_link fails p s db)) [
  | inl (_, mid, made) ↦
      let added : mid ≡ record db { links = record { profile_id = p; skill_id = s } ∷ db.links } =
        unfold insert_link in ground arith in
      let (rest, own, foreign) = insert_links_ok fails p ss mid after (ground arith) in
      (ground arith, (λ t. ground (arith, own t)), (λ q t ne. ground (arith, foreign q t ne)))
  | inr (x, failed) ↦ absurd (ground arith)
]

-- `UpdateSkills`, if it succeeds, replaces the skills and changes nothing else but the time.
pub update_profile_skills_ok :
    (d i t : Bool) (p now : Uuid) (ss : List Uuid) (db after : Db)
    → update_profile_skills d i t p now ss db ≡ ok (tt, after)
    → Replaces p ss db.links after.links
      × (after ≡ record db {
        links = after.links;
        profiles = update profile_key p (touch now) db.profiles;
      })
unfolding update_profile_skills
update_profile_skills_ok d i t p now ss db after e =
    let cleared : Db = record db { links = others p db.links } in
    elim (Result-cases (insert_links i p ss cleared)) [
      | inl (_, mid, made) ↦
          let (rest, own, foreign) = insert_links_ok i p ss cleared mid made in
          let links : after.links ≡ mid.links = ground arith in
          (
            record {
              exact = λ s. ground (arith, own s, linked-others_own p s db.links);
              rest = λ q s ne. ground (arith, foreign q s ne, linked-others p q s db.links ne);
            },
            ground arith,
          )
      | inr (x, failed) ↦ absurd (ground arith)
    ]
