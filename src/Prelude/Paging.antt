-- ===== src/Prelude/Paging.antt =====
-- `ORDER BY … DESC LIMIT … OFFSET …`, and reading a table page by page.
use hire_flow.Prelude.{
  ℕ, zero, suc, ◌+◌, ◌*◌, ◌≤◌, ◌≡◌, refl, sym, ap, ◌∙◌, List, [], ◌∷◌, ◌++◌, map, arith,
}
use mathlib.Core.List.{Permᴰ}
use mathlib.Core.List.Permᴰ
use hire_flow.Prelude.Table.{length, sum_by, All, Keyed}
use hire_flow.Prelude.Sorting.{
  take, drop, sort_by, take-append-drop, sum_by-append, sum_by-sort_by, All-sort_by, sort_by-Permᴰ,
}

module _ {ℓ} {A : Type ℓ} where
  abbrev pub reverse : List A → List A
  reverse [] = []
  reverse (x ∷ xs) = reverse xs ++ (x ∷ [])

  pub reverse-Permᴰ : (xs : List A) → Permᴰ xs (reverse xs)
  reverse-Permᴰ [] = Permᴰ.nil
  reverse-Permᴰ (x ∷ xs) =
      Permᴰ.trans (Permᴰ.cons refl (reverse-Permᴰ xs)) (Permᴰ.append_comm (x ∷ []) (reverse xs))

  -- the rows with the latest first
  abbrev pub newest : (A → ℕ) → List A → List A
  newest at xs = reverse (sort_by at xs)

  -- The order in which the database comes upon the rows of one query. `ORDER BY … DESC` leaves rows
  -- that it does not tell apart in it, and another query may have another one.
  abbrev pub IsScan : (List A → List A) → Type ℓ
  IsScan scan = (rows : List A) → Permᴰ rows (scan rows)

  -- under times that differ, ORDER BY leaves one order
  pub newest-scan :
      (at : A → ℕ) (scan : List A → List A) (rows : List A)
      → IsScan scan
      → Keyed at rows
      → newest at (scan rows) ≡ newest at rows
  newest-scan at scan rows complete distinct =
      ap reverse (sym (sort_by-Permᴰ at (complete rows) distinct))

  abbrev pub page : ℕ → ℕ → List A → List A
  page limit offset xs = take limit (drop offset xs)

  sum_by-reverse : (g : A → ℕ) (xs : List A) → sum_by g (reverse xs) ≡ sum_by g xs
  sum_by-reverse g [] = refl
  sum_by-reverse g (x ∷ xs) =
      omega (arith, sum_by-append g (reverse xs) (x ∷ []), sum_by-reverse g xs)

  pub sum_by-newest : (at g : A → ℕ) (xs : List A) → sum_by g (newest at xs) ≡ sum_by g xs
  sum_by-newest at g xs = sum_by-reverse g (sort_by at xs) ∙ sum_by-sort_by at g xs

  length-sum_by : (xs : List A) → length xs ≡ sum_by (λ x. 1) xs
  length-sum_by [] = refl
  length-sum_by (x ∷ xs) = omega (arith, length-sum_by xs)

  pub length-newest : (at : A → ℕ) (xs : List A) → length (newest at xs) ≡ length xs
  length-newest at xs =
      length-sum_by (newest at xs) ∙ sum_by-newest at (λ x. 1) xs ∙ sym (length-sum_by xs)

  pub All-append {κ} : (P : A → Type κ) (xs ys : List A) → All P xs → All P ys → All P (xs ++ ys)
  All-append P [] ys h k = k
  All-append P (x ∷ xs) ys h k = (h.0, All-append P xs ys h.1 k)

  pub All-reverse {κ} : (P : A → Type κ) (xs : List A) → All P xs → All P (reverse xs)
  All-reverse P [] h = tt
  All-reverse P (x ∷ xs) h = All-append P (reverse xs) (x ∷ []) (All-reverse P xs h.1) (h.0, tt)

  pub All-newest {κ} : (P : A → Type κ) (at : A → ℕ) (xs : List A) → All P xs → All P (newest at xs)
  All-newest P at xs h = All-reverse P (sort_by at xs) (All-sort_by at P xs h)

  drop_zero_of_length : (n : ℕ) (xs : List A) → length xs ≤ n → drop n xs ≡ []
  drop_zero_of_length zero [] h = refl
  drop_zero_of_length zero (x ∷ xs) h = ground arith
  drop_zero_of_length (suc n) [] h = refl
  drop_zero_of_length (suc n) (x ∷ xs) h = drop_zero_of_length n xs (omega arith)

  drop_nil : (m : ℕ) → drop {A = A} m [] ≡ []
  drop_nil zero = refl
  drop_nil (suc m) = refl

  drop-drop : (m n : ℕ) (xs : List A) → drop m (drop n xs) ≡ drop (n + m) xs
  drop-drop m zero xs = (let same : m ≡ zero + m = omega arith in ap (λ k. drop k xs) same)
  drop-drop m (suc n) [] = drop_nil m ∙ sym (drop_nil (suc n + m))
  drop-drop m (suc n) (x ∷ xs) =
      drop-drop m n xs
      ∙ (let same : suc (n + m) ≡ suc n + m = omega arith in ap (λ k. drop k (x ∷ xs)) same)

  -- the rows on `count` pages in a row
  abbrev pub pages : ℕ → ℕ → ℕ → List A → List A
  pages zero limit offset xs = []
  pages (suc count) limit offset xs = page limit offset xs ++ pages count limit (offset + limit) xs

  -- Pages in a row cover the rows, each once, as soon as there are enough of them.
  pub pages_cover :
      (count limit offset : ℕ) (xs : List A)
      → length xs ≤ offset + limit * count
      → pages count limit offset xs ≡ drop offset xs
  pages_cover zero limit offset xs h = sym (drop_zero_of_length offset xs (omega arith))
  pages_cover (suc count) limit offset xs h =
      ap (λ rest. page limit offset xs ++ rest)
        (pages_cover count limit (offset + limit) xs (omega arith)
          ∙ sym (drop-drop limit offset xs))
      ∙ take-append-drop limit (drop offset xs)

  pub map-append {κ} :
      {B : Type κ} (f : A → B) (xs ys : List A) → map f (xs ++ ys) ≡ map f xs ++ map f ys
  map-append f [] ys = refl
  map-append f (x ∷ xs) ys = rw (map-append f xs ys)
