-- ===== src/Prelude/Int.antt =====
-- Signed integers over the native numbers, and Go's `int64`, whose sums wrap around.
use hire_flow.Prelude.{ℕ, suc, ◌+◌, ◌-◌, ◌≤◌, ◌<◌, ◌≡◌, refl, Bool, arith, ltb, leb, if◌then◌else◌}

-- `negsuc n` is -(n + 1).
pub data ℤ : Type 0 where
  pos : ℕ → ℤ
  negsuc : ℕ → ℤ

abbrev pub pos_part : ℤ → ℕ
pos_part (pos n) = n
pos_part (negsuc n) = 0

abbrev pub neg_part : ℤ → ℕ
neg_part (pos n) = 0
neg_part (negsuc n) = suc n

-- a - b, as an integer.
abbrev pub sub_ℕ : ℕ → ℕ → ℤ
sub_ℕ a b = if leb b a then pos (a - b) else negsuc (b - a - 1)

infixl 65 ◌+ℤ◌ ◌-ℤ◌
infix 50 ◌≤ℤ◌
unfoldable pub ◌+ℤ◌ : ℤ → ℤ → ℤ
a +ℤ b = sub_ℕ (pos_part a + pos_part b) (neg_part a + neg_part b)

unfoldable pub ◌-ℤ◌ : ℤ → ℤ → ℤ
a -ℤ b = sub_ℕ (pos_part a + neg_part b) (neg_part a + pos_part b)

abbrev pub ◌≤ℤ◌ : ℤ → ℤ → Type 0
a ≤ℤ b = pos_part a + neg_part b ≤ pos_part b + neg_part a

abbrev pub ltb_ℤ : ℤ → ℤ → Bool
ltb_ℤ a b = ltb (pos_part a + neg_part b) (pos_part b + neg_part a)

abbrev pub leb_ℤ : ℤ → ℤ → Bool
leb_ℤ a b = leb (pos_part a + neg_part b) (pos_part b + neg_part a)

pub +ℤ_parts :
    (a b : ℤ)
    → pos_part (a +ℤ b) + neg_part a + neg_part b ≡ neg_part (a +ℤ b) + pos_part a + pos_part b
unfolding ◌+ℤ◌
+ℤ_parts a b = ground arith

pub -ℤ_parts :
    (a b : ℤ)
    → pos_part (a -ℤ b) + neg_part a + pos_part b ≡ neg_part (a -ℤ b) + pos_part a + neg_part b
unfolding ◌-ℤ◌
-ℤ_parts a b = ground arith

pub eq_of_parts : (a b : ℤ) → pos_part a + neg_part b ≡ pos_part b + neg_part a → a ≡ b
eq_of_parts a b h = ground arith

pub ruleset int_laws = (arith, +ℤ_parts, -ℤ_parts, eq_of_parts)

-- The largest `int64`, 2^63 - 1, and the number of its values, 2^64.
abbrev pub int64_max : ℕ
int64_max = 9223372036854775807

abbrev int64_size : ℕ
int64_size = 18446744073709551616

-- Two's complement of one sum or difference of two `int64` values.
abbrev pub wrap_int64 : ℤ → ℤ
wrap_int64 (pos n) = if leb n int64_max then pos n else sub_ℕ n int64_size
wrap_int64 (negsuc n) = if leb n int64_max then negsuc n else sub_ℕ int64_size (suc n)

unfoldable pub add_int64 : ℤ → ℤ → ℤ
unfolding ◌+ℤ◌
add_int64 a b = wrap_int64 (a +ℤ b)

unfoldable pub sub_int64 : ℤ → ℤ → ℤ
unfolding ◌-ℤ◌
sub_int64 a b = wrap_int64 (a -ℤ b)

pub add_int64_fits : (a b : ℕ) → a + b ≤ int64_max → add_int64 (pos a) (pos b) ≡ pos (a + b)
unfolding add_int64
add_int64_fits a b h = ground arith

-- A sum that does not fit comes out negative.
pub add_int64_overflow :
    (a b : ℕ)
    → a ≤ int64_max
    → b ≤ int64_max
    → int64_max < a + b
    → leb_ℤ (pos 0) (add_int64 (pos a) (pos b)) ≡ Bool.false
unfolding add_int64
add_int64_overflow a b ha hb h = ground arith

pub sub_int64_fits : (a b : ℕ) → a ≤ int64_max → b ≤ a → sub_int64 (pos a) (pos b) ≡ pos (a - b)
unfolding sub_int64
sub_int64_fits a b ha h = ground arith
