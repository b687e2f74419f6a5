-- ===== src/Prelude/Table.antt =====
-- Tables of rows with a numeric key: the first row of a key, an update of the rows of a key, and
-- sums over the rows.
use hire_flow.Prelude.{
  ℕ, suc, ◌+◌, ◌≡◌, refl, sym, inl, inr, Bool, true, false, ◌||◌, Option, none, some, List, [], ◌∷◌,
  ◌≢◌, ap, ◌∙◌, arith, ◌==◌, if◌then◌else◌, Bool-cases,
}
use mathlib.Core.Path.{subst}
use mathlib.Core.List.{Memᴰ}
use mathlib.Core.List.Memᴰ
use mathlib.Core.Option.{some-injective}

module _ {ℓ} {A : Type ℓ} where
  abbrev pub length : List A → ℕ
  length [] = 0
  length (x ∷ xs) = suc (length xs)

  abbrev pub is_some : Option A → Bool
  is_some none = false
  is_some (some _) = true

  abbrev pub sum_by : (A → ℕ) → List A → ℕ
  sum_by g [] = 0
  sum_by g (x ∷ xs) = g x + sum_by g xs

  abbrev pub All {κ} : (A → Type κ) → List A → Type κ
  All P [] = Unit
  All P (x ∷ xs) = P x × All P xs

  pub All-Memᴰ {κ} : (P : A → Type κ) (a : A) (xs : List A) → All P xs → Memᴰ a xs → P a
  All-Memᴰ P a [] h m = absurd (Memᴰ.not-nil m)
  All-Memᴰ P a (x ∷ xs) h (Memᴰ.head e) = subst P (sym e) h.0
  All-Memᴰ P a (x ∷ xs) h (Memᴰ.tail m) = All-Memᴰ P a xs h.1 m

  pub All-weaken {κ μ} :
      (P : A → Type κ) (Q : A → Type μ) (xs : List A) → ((x : A) → P x → Q x) → All P xs → All Q xs
  All-weaken P Q [] f h = tt
  All-weaken P Q (x ∷ xs) f h = (f x h.0, All-weaken P Q xs f h.1)

  pub Memᴰ-all : (xs : List A) → All (λ x. Memᴰ x xs) xs
  Memᴰ-all [] = tt
  Memᴰ-all (x ∷ xs) = (
    Memᴰ.head refl,
    All-weaken (λ y. Memᴰ y xs) (λ y. Memᴰ y (x ∷ xs)) xs (λ y m. Memᴰ.tail m) (Memᴰ-all xs),
  )

  abbrev pub filter : (A → Bool) → List A → List A
  filter p [] = []
  filter p (x ∷ xs) = let rest = filter p xs in if p x then x ∷ rest else rest

  abbrev pub map_option {κ} : {B : Type κ} → (A → B) → Option A → Option B
  map_option f none = none
  map_option f (some a) = some (f a)

abbrev pub contains : ℕ → List ℕ → Bool
contains k [] = false
contains k (j ∷ js) = j == k || contains k js

module _ {ℓ} {A : Type ℓ} (key : A → ℕ) where
  abbrev pub find : ℕ → List A → Option A
  find k [] = none
  find k (x ∷ xs) = if key x == k then some x else find k xs

  -- `UPDATE … WHERE id = k`: every row of the key is changed.
  abbrev pub update : ℕ → (A → A) → List A → List A
  update k f [] = []
  update k f (x ∷ xs) = (if key x == k then f x else x) ∷ update k f xs

  -- No key occurs twice: what a primary key promises.
  abbrev pub Keyed : List A → Type ℓ
  Keyed [] = Unit
  Keyed (x ∷ xs) = (find (key x) xs ≡ none) × Keyed xs

  pub find_key : (k : ℕ) (xs : List A) (x : A) → find k xs ≡ some x → key x ≡ k
  find_key k [] x e = cc
  find_key k (y ∷ xs) x e = ground (arith, find_key k xs x)

  -- A row that was found is found under its own key.
  pub find_own : (k : ℕ) (xs : List A) (x : A) → find k xs ≡ some x → find (key x) xs ≡ some x
  find_own k xs x e = subst (λ j. find j xs ≡ some x) (sym (find_key k xs x e)) e

  pub All-find {κ} :
      (P : A → Type κ) (k : ℕ) (xs : List A) (x : A) → All P xs → find k xs ≡ some x → P x
  All-find P k [] x h e = cc
  All-find P k (y ∷ xs) x h e = elim (Bool-cases (key y == k)) [
    | inl here ↦ subst P (some-injective _ _ (rw here at e)) h.0
    | inr later ↦ All-find P k xs x h.1 (rw later at e)
  ]

  -- a key that is not found is no row's
  pub find-none : (k : ℕ) (xs : List A) (x : A) → find k xs ≡ none → Memᴰ x xs → key x ≢ k
  find-none k [] x e m = absurd (Memᴰ.not-nil m)
  find-none k (y ∷ xs) x e (Memᴰ.head is) =
      λ same. let here : key y ≡ k = ap key (sym is) ∙ same in ground arith
  find-none k (y ∷ xs) x e (Memᴰ.tail m) = find-none k xs x (ground arith) m

  -- Under unique keys each row is found under its own key.
  pub Keyed-All : (xs : List A) → Keyed xs → All (λ x. find (key x) xs ≡ some x) xs
  Keyed-All [] h = tt
  Keyed-All (y ∷ xs) h = (ground arith, weaken xs (Keyed-All xs h.1))
    where
      weaken :
          (zs : List A)
          → All (λ x. find (key x) xs ≡ some x) zs
          → All (λ x. find (key x) (y ∷ xs) ≡ some x) zs
      weaken [] p = tt
      weaken (z ∷ zs) p = (ground (arith, h.0, p.0), weaken zs p.1)

  module _ (f : A → A) (keeps : (x : A) → key (f x) ≡ key x) where
    pub find-update :
        (k j : ℕ) (xs : List A)
        → find j (update k f xs) ≡ (if k == j then map_option f (find j xs) else find j xs)
    find-update k j [] = ground arith
    find-update k j (x ∷ xs) = ground (arith, find-update k j xs, keeps x)

    pub update-Keyed : (k : ℕ) (xs : List A) → Keyed xs → Keyed (update k f xs)
    update-Keyed k [] h = tt
    update-Keyed k (x ∷ xs) h =
        ground (arith, update-Keyed k xs h.1, keeps x, find-update k (key x) xs)

  pub update_missing : (f : A → A) (k : ℕ) (xs : List A) → find k xs ≡ none → update k f xs ≡ xs
  update_missing f k [] h = refl
  update_missing f k (x ∷ xs) h = ground (arith, update_missing f k xs)

  -- An update of one row changes a sum by what the row changes.
  pub sum_by-update :
      (f : A → A) (g : A → ℕ) (k : ℕ) (xs : List A) (x : A)
      → Keyed xs
      → find k xs ≡ some x
      → sum_by g (update k f xs) + g x ≡ sum_by g xs + g (f x)
  sum_by-update f g k [] x h e = cc
  sum_by-update f g k (y ∷ xs) x h e =
      ground (arith, sum_by-update f g k xs x h.1, update_missing f k xs)

  pub All-update {κ} :
      (P : A → Type κ) (f : A → A) (k : ℕ) (xs : List A)
      → ((x : A) → P x → P (f x))
      → All P xs
      → All P (update k f xs)
  All-update P f k [] step h = tt
  All-update P f k (x ∷ xs) step h = (choose (key x == k), All-update P f k xs step h.1)
    where
      choose : (b : Bool) → P (if b then f x else x)
      choose true = step x h.0
      choose false = h.0

module _ {ℓ} {A : Type ℓ} (key : A → ℕ) where
  -- Under unique keys two rows of one key are the same.
  pub Keyed-same :
      (xs : List A) (x y : A) → Keyed key xs → Memᴰ x xs → Memᴰ y xs → key x ≡ key y → x ≡ y
  Keyed-same [] x y h m n e = absurd (Memᴰ.not-nil m)
  Keyed-same (z ∷ xs) x y h (Memᴰ.head p) (Memᴰ.head q) e = p ∙ sym q
  Keyed-same (z ∷ xs) x y h (Memᴰ.head p) (Memᴰ.tail n) e =
      absurd (find-none key (key z) xs y h.0 n (sym e ∙ ap key p))
  Keyed-same (z ∷ xs) x y h (Memᴰ.tail m) (Memᴰ.head q) e =
      absurd (find-none key (key z) xs x h.0 m (e ∙ ap key q))
  Keyed-same (z ∷ xs) x y h (Memᴰ.tail m) (Memᴰ.tail n) e = Keyed-same xs x y h.1 m n e
