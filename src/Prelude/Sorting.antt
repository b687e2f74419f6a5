-- ===== src/Prelude/Sorting.antt =====
-- `ORDER BY` as a stable insertion sort, with `LIMIT` and `OFFSET` as `take` and `drop`.
use hire_flow.Prelude.{
  ℕ, zero, suc, ◌+◌, ◌-◌, ◌≤◌, ◌≡◌, ◌≢◌, refl, ap, ◌∙◌, none, Bool, true, false, List, [], ◌∷◌,
  ◌++◌, arith, leb, if◌then◌else◌, Bool-cases, inl, inr,
}
use hire_flow.Prelude.Table.{length, sum_by, All, find, Keyed}
use mathlib.Core.Path.{subst}
use mathlib.Core.List.{Permᴰ}
use Prim.Native.Nat.{min}

module _ {ℓ} {A : Type ℓ} where
  abbrev pub take : ℕ → List A → List A
  take zero xs = []
  take (suc n) [] = []
  take (suc n) (x ∷ xs) = x ∷ take n xs

  abbrev pub drop : ℕ → List A → List A
  drop zero xs = xs
  drop (suc n) [] = []
  drop (suc n) (x ∷ xs) = drop n xs

  pub length-take : (n : ℕ) (xs : List A) → length (take n xs) ≡ min n (length xs)
  length-take zero xs = omega arith
  length-take (suc n) [] = omega arith
  length-take (suc n) (x ∷ xs) = omega (arith, length-take n xs)

  pub length-drop : (n : ℕ) (xs : List A) → length (drop n xs) ≡ length xs - n
  length-drop zero xs = omega arith
  length-drop (suc n) [] = omega arith
  length-drop (suc n) (x ∷ xs) = omega (arith, length-drop n xs)

  pub take-append-drop : (n : ℕ) (xs : List A) → take n xs ++ drop n xs ≡ xs
  take-append-drop zero xs = refl
  take-append-drop (suc n) [] = refl
  take-append-drop (suc n) (x ∷ xs) = rw (take-append-drop n xs)

  pub sum_by-append : (g : A → ℕ) (xs ys : List A) → sum_by g (xs ++ ys) ≡ sum_by g xs + sum_by g ys
  sum_by-append g [] ys = omega arith
  sum_by-append g (x ∷ xs) ys = omega (arith, sum_by-append g xs ys)

  pub All-take {κ} : (P : A → Type κ) (n : ℕ) (xs : List A) → All P xs → All P (take n xs)
  All-take P zero xs h = tt
  All-take P (suc n) [] h = tt
  All-take P (suc n) (x ∷ xs) h = (h.0, All-take P n xs h.1)

  pub All-drop {κ} : (P : A → Type κ) (n : ℕ) (xs : List A) → All P xs → All P (drop n xs)
  All-drop P zero xs h = h
  All-drop P (suc n) [] h = tt
  All-drop P (suc n) (x ∷ xs) h = All-drop P n xs h.1

module _ {ℓ} {A : Type ℓ} (key : A → ℕ) where
  abbrev insert : A → List A → List A
  insert a [] = a ∷ []
  insert a (x ∷ xs) = if leb (key a) (key x) then a ∷ x ∷ xs else x ∷ insert a xs

  -- ascending by `key`; rows of one key stay in their order
  abbrev pub sort_by : List A → List A
  sort_by [] = []
  sort_by (x ∷ xs) = insert x (sort_by xs)

  -- Each row is followed by rows of no smaller key.
  abbrev pub IsSorted : List A → Type 0
  IsSorted [] = Unit
  IsSorted (x ∷ xs) = All (λ y. key x ≤ key y) xs × IsSorted xs

  sum_by-insert : (g : A → ℕ) (a : A) (xs : List A) → sum_by g (insert a xs) ≡ g a + sum_by g xs
  sum_by-insert g a [] = refl
  sum_by-insert g a (x ∷ xs) = ground (arith, sum_by-insert g a xs)

  pub sum_by-sort_by : (g : A → ℕ) (xs : List A) → sum_by g (sort_by xs) ≡ sum_by g xs
  sum_by-sort_by g [] = refl
  sum_by-sort_by g (x ∷ xs) = omega (arith, sum_by-insert g x (sort_by xs), sum_by-sort_by g xs)

  All-insert {κ} : (P : A → Type κ) (a : A) (xs : List A) → P a → All P xs → All P (insert a xs)
  All-insert P a [] p h = (p, tt)
  All-insert P a (x ∷ xs) p h = choose (leb (key a) (key x)) (All-insert P a xs p h.1)
    where
      choose : (b : Bool) → All P (insert a xs) → All P (if b then a ∷ x ∷ xs else x ∷ insert a xs)
      choose true r = (p, h)
      choose false r = (h.0, r)

  pub All-sort_by {κ} : (P : A → Type κ) (xs : List A) → All P xs → All P (sort_by xs)
  All-sort_by P [] h = tt
  All-sort_by P (x ∷ xs) h = All-insert P x (sort_by xs) h.0 (All-sort_by P xs h.1)

  All-le_trans : (m n : ℕ) (xs : List A) → m ≤ n → All (λ y. n ≤ key y) xs → All (λ y. m ≤ key y) xs
  All-le_trans m n [] h p = tt
  All-le_trans m n (x ∷ xs) h p = (omega arith, All-le_trans m n xs h p.1)

  insert-IsSorted : (a : A) (xs : List A) → IsSorted xs → IsSorted (insert a xs)
  insert-IsSorted a [] h = (tt, tt)
  insert-IsSorted a (x ∷ xs) h = elim (Bool-cases (leb (key a) (key x))) [
    | inl first ↦ rw first ((ground arith, All-le_trans (key a) (key x) xs (ground arith) h.0), h)
    | inr later ↦
        rw later (All-insert (λ y. key x ≤ key y) a xs (ground arith) h.0, insert-IsSorted a xs h.1)
  ]

  pub sort_by-IsSorted : (xs : List A) → IsSorted (sort_by xs)
  sort_by-IsSorted [] = tt
  sort_by-IsSorted (x ∷ xs) = insert-IsSorted x (sort_by xs) (sort_by-IsSorted xs)

  pub IsSorted-take : (n : ℕ) (xs : List A) → IsSorted xs → IsSorted (take n xs)
  IsSorted-take zero xs h = tt
  IsSorted-take (suc n) [] h = tt
  IsSorted-take (suc n) (x ∷ xs) h =
      (All-take (λ y. key x ≤ key y) n xs h.0, IsSorted-take n xs h.1)

  -- Rows of different keys may be inserted in either order.
  insert_swap :
      (a b : A) (xs : List A) → key a ≢ key b → insert a (insert b xs) ≡ insert b (insert a xs)
  insert_swap a b [] ne = ground arith
  insert_swap a b (x ∷ xs) ne = ground (arith, insert_swap a b xs ne)

  Permᴰ-find : {xs ys : List A} (k : ℕ) → Permᴰ xs ys → find key k xs ≡ none → find key k ys ≡ none
  Permᴰ-find k Permᴰ.nil h = h
  Permᴰ-find k (Permᴰ.cons e p) h = let same = ap key e in ground (arith, Permᴰ-find k p)
  Permᴰ-find k (Permᴰ.swap e e') h = let same = ap key e in let same' = ap key e' in ground arith
  Permᴰ-find k (Permᴰ.trans p q) h = Permᴰ-find k q (Permᴰ-find k p h)

  Permᴰ-Keyed : {xs ys : List A} → Permᴰ xs ys → Keyed key xs → Keyed key ys
  Permᴰ-Keyed Permᴰ.nil h = h
  Permᴰ-Keyed (Permᴰ.cons {b = b} {l₂ = l₂} e p) h =
      (subst (λ c. find key (key c) l₂ ≡ none) e (Permᴰ-find _ p h.0), Permᴰ-Keyed p h.1)
  Permᴰ-Keyed (Permᴰ.swap {a = a} {b = b} {b' = b'} {l = l} e e') h =
      subst (λ x. Keyed key (x ∷ b' ∷ l)) e'
        (subst (λ x. Keyed key (b ∷ x ∷ l)) e
          ((ground (arith, h.0, h.1.0), (ground (arith, h.0, h.1.0), h.1.1))))
  Permᴰ-Keyed (Permᴰ.trans p q) h = Permᴰ-Keyed q (Permᴰ-Keyed p h)

  -- Under unique keys the sorted rows do not depend on the order in which they were.
  pub sort_by-Permᴰ : {xs ys : List A} → Permᴰ xs ys → Keyed key xs → sort_by xs ≡ sort_by ys
  sort_by-Permᴰ Permᴰ.nil h = refl
  sort_by-Permᴰ (Permᴰ.cons {l₂ = l₂} e p) h =
      ap (insert _) (sort_by-Permᴰ p h.1) ∙ ap (λ x. insert x (sort_by l₂)) e
  sort_by-Permᴰ (Permᴰ.swap {a = a} {b = b} {a' = a'} {l = l} e e') h =
      insert_swap a b (sort_by l) (ground (arith, h.0))
      ∙ ap (λ x. insert x (insert a (sort_by l))) e'
      ∙ ap (λ x. insert a' (insert x (sort_by l))) e
  sort_by-Permᴰ (Permᴰ.trans p q) h = sort_by-Permᴰ p h ∙ sort_by-Permᴰ q (Permᴰ-Keyed p h)
