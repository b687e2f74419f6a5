-- ===== src/Contracts/Milestones.antt =====
-- `ListByContract` of milestone_store.go, which reads what `CreateBatch` (Contracts/Stores) writes.
use hire_flow.Prelude.{
  ℕ, ◌+◌, ◌-◌, ◌<◌, ◌≡◌, refl, ap, ◌∙◌, Bool, true, false, Option, none, some, List, [], ◌∷◌, ◌++◌,
  arith, ◌==◌, if◌then◌else◌,
}
use mathlib.Core.List.{append_assoc, append-nil}
use hire_flow.Prelude.Int.{ℤ, pos, negsuc}
use hire_flow.Prelude.Table.{filter, All}
use hire_flow.Prelude.Sorting.{sort_by}
use hire_flow.Prelude.Paging.{reverse, All-reverse}
use hire_flow.Contracts.Types.{Uuid, Milestone, Db, ok}
use hire_flow.Contracts.Stores.{create_batch, create_milestone_row}

-- the order of the numbers that an INT holds
abbrev pub rank : ℤ → ℕ
rank (pos n) = 2147483648 + n
rank (negsuc n) = 2147483647 - n

abbrev position_rank : Milestone → ℕ
position_rank m = rank m.position

abbrev pub of_contract : Uuid → Milestone → Bool
of_contract id m = m.contract_id == id

unfoldable pub list_by_contract : Bool → Uuid → Db → Option (List Milestone)
list_by_contract fails id db =
    if fails then none else some (sort_by position_rank (filter (of_contract id) db.milestones))

-- each position is below those that follow
abbrev pub Ascending : List Milestone → Type 0
Ascending [] = Unit
Ascending (m ∷ ms) = All (λ n. rank m.position < rank n.position) ms × Ascending ms

create_batch_ok :
    (ms : List Milestone) (db after : Db)
    → create_batch false ms db ≡ ok (tt, after)
    → after.milestones ≡ reverse ms ++ db.milestones
unfolding create_batch create_milestone_row
create_batch_ok [] db after e = ground arith
create_batch_ok (m ∷ ms) db after e =
    let rest = create_batch_ok ms (record db { milestones = m ∷ db.milestones }) after in
    let shift = append_assoc (reverse ms) (m ∷ []) db.milestones in ground (arith, rest, shift)

filter-append :
    (p : Milestone → Bool) (xs ys : List Milestone)
    → filter p (xs ++ ys) ≡ filter p xs ++ filter p ys
filter-append p [] ys = refl
filter-append p (x ∷ xs) ys = ground (arith, filter-append p xs ys)

filter_all :
    (p : Milestone → Bool) (xs : List Milestone) → All (λ m. p m ≡ true) xs → filter p xs ≡ xs
filter_all p [] h = refl
filter_all p (x ∷ xs) h = ground (arith, h.0, filter_all p xs h.1)

-- the least comes first
sort_by_least :
    (x : Milestone) (xs : List Milestone)
    → All (λ n. rank x.position < rank n.position) xs
    → sort_by position_rank (xs ++ x ∷ []) ≡ x ∷ sort_by position_rank xs
sort_by_least x [] h = refl
sort_by_least x (y ∷ ys) h = ground (arith, h.0, sort_by_least x ys h.1)

sort_by-reverse : (ms : List Milestone) → Ascending ms → sort_by position_rank (reverse ms) ≡ ms
sort_by-reverse [] h = refl
sort_by-reverse (m ∷ ms) h =
    sort_by_least m (reverse ms) (All-reverse _ ms h.0) ∙ ap (λ l. m ∷ l) (sort_by-reverse ms h.1)

-- Milestones of a contract that had none are read back as they were written, if their positions
-- ascend.
pub create_batch-list_by_contract :
    (id : Uuid) (ms : List Milestone) (db after : Db)
    → All (λ m. of_contract id m ≡ true) ms
    → Ascending ms
    → filter (of_contract id) db.milestones ≡ []
    → create_batch false ms db ≡ ok (tt, after)
    → list_by_contract false id after ≡ some ms
unfolding list_by_contract
create_batch-list_by_contract id ms db after own ascending new made =
    let rows : filter (of_contract id) after.milestones ≡ reverse ms =
      ap (filter (of_contract id)) (create_batch_ok ms db after made)
      ∙ filter-append (of_contract id) (reverse ms) db.milestones
      ∙ ap (λ l. filter (of_contract id) (reverse ms) ++ l) new
      ∙ append-nil _
      ∙ filter_all (of_contract id) (reverse ms) (All-reverse _ ms own) in
    ap some (ap (sort_by position_rank) rows ∙ sort_by-reverse ms ascending)
