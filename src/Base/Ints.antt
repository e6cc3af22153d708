-- ===== src/Base/Ints.antt =====
-- Signed integers over the native numbers, under the library's names, and Go's `int64`: an
-- integer kept in range by wrapping. Sums and orders go through the two parts of an integer.
use Prim.Native.Nat.{ℕ, suc, ◌+◌, ◌-◌, ◌%◌, ◌^◌, ◌≤◌, ◌<◌}
use mathlib.Core.Path.{◌≡◌}
use mathlib.Core.Logic.{◌↔◌}
use mathlib.Core.Bool.{Bool, true}
use native.Mathlib.Omega.{arith}
use touchstone.Base.Tests.{ltb, leb, ◌==◌, if◌then◌else◌}

-- `negsuc n` is -(n + 1).
pub data ℤ : Type 0 where
  pos : ℕ → ℤ
  negsuc : ℕ → ℤ

abbrev pub pos_part : ℤ → ℕ
pos_part (pos n) = n
pos_part (negsuc n) = 0

abbrev pub neg_part : ℤ → ℕ
neg_part (pos n) = 0
neg_part (negsuc n) = suc n

abbrev pub sub_ℕ : ℕ → ℕ → ℤ
sub_ℕ a b = if leb b a then pos (a - b) else negsuc (b - a - 1)

infixl 65 ◌+ℤ◌ ◌-ℤ◌
infix 50 ◌≤ℤ◌ ◌<ℤ◌ ◌==ℤ◌
unfoldable pub ◌+ℤ◌ : ℤ → ℤ → ℤ
a +ℤ b = sub_ℕ (pos_part a + pos_part b) (neg_part a + neg_part b)

unfoldable pub ◌-ℤ◌ : ℤ → ℤ → ℤ
a -ℤ b = sub_ℕ (pos_part a + neg_part b) (neg_part a + pos_part b)

abbrev pub ◌≤ℤ◌ : ℤ → ℤ → Type 0
a ≤ℤ b = pos_part a + neg_part b ≤ pos_part b + neg_part a

abbrev pub ◌<ℤ◌ : ℤ → ℤ → Type 0
a <ℤ b = pos_part a + neg_part b < pos_part b + neg_part a

abbrev pub ltb_ℤ : ℤ → ℤ → Bool
ltb_ℤ a b = ltb (pos_part a + neg_part b) (pos_part b + neg_part a)

abbrev pub leb_ℤ : ℤ → ℤ → Bool
leb_ℤ a b = leb (pos_part a + neg_part b) (pos_part b + neg_part a)

abbrev pub ◌==ℤ◌ : ℤ → ℤ → Bool
a ==ℤ b = pos_part a + neg_part b == pos_part b + neg_part a

pub +ℤ_parts :
    (a b : ℤ)
    → pos_part (a +ℤ b) + neg_part a + neg_part b ≡ neg_part (a +ℤ b) + pos_part a + pos_part b
unfolding ◌+ℤ◌
+ℤ_parts a b = ground arith

pub -ℤ_parts :
    (a b : ℤ)
    → pos_part (a -ℤ b) + neg_part a + pos_part b ≡ neg_part (a -ℤ b) + pos_part a + neg_part b
unfolding ◌-ℤ◌
-ℤ_parts a b = ground arith

pub eq_of_parts : (a b : ℤ) → pos_part a + neg_part b ≡ pos_part b + neg_part a → a ≡ b
eq_of_parts a b h = ground arith

pub ==ℤ_iff : (a b : ℤ) → ((a ==ℤ b) ≡ true) ↔ (a ≡ b)
==ℤ_iff a b = (λ h. eq_of_parts a b (ground arith), λ h. ground arith)

pub ruleset int_laws = (arith, +ℤ_parts, -ℤ_parts, eq_of_parts)

-- The least natural number congruent to an integer modulo 2 ^ 64.
abbrev pub to_uint64 : ℤ → ℕ
to_uint64 (pos n) = n % 2 ^ 64
to_uint64 (negsuc n) = 2 ^ 64 - 1 - n % 2 ^ 64

-- Go's `int64(x)` of a 64-bit word.
abbrev pub of_uint64 : ℕ → ℤ
of_uint64 n = if ltb n (2 ^ 63) then pos n else negsuc (2 ^ 64 - 1 - n)

unfoldable pub to_int64 : ℤ → ℤ
to_int64 x = of_uint64 (to_uint64 x)

-- The values that an `int64` holds.
abbrev pub IsInt64 : ℤ → Type 0
IsInt64 x = (pos_part x < 2 ^ 63) × (neg_part x ≤ 2 ^ 63)

pub to_int64-IsInt64 : (x : ℤ) → IsInt64 (to_int64 x)
unfolding to_int64
to_int64-IsInt64 x = ground arith

pub to_int64-eq : (x : ℤ) → IsInt64 x → to_int64 x ≡ x
unfolding to_int64
to_int64-eq x h = ground arith

pub IsInt64-of_bounds :
    (x : ℤ) → negsuc 9223372036854775807 ≤ℤ x → x ≤ℤ pos 9223372036854775807 → IsInt64 x
IsInt64-of_bounds (pos n) h k = omega arith
IsInt64-of_bounds (negsuc n) h k = omega arith

-- Addition and subtraction of `int64` values.
infixl 65 ◌+64◌ ◌-64◌
unfoldable pub ◌+64◌ : ℤ → ℤ → ℤ
a +64 b = to_int64 (a +ℤ b)

unfoldable pub ◌-64◌ : ℤ → ℤ → ℤ
a -64 b = to_int64 (a -ℤ b)

-- Sums and differences of natural numbers that fit in 64 bits.
pub pos_add64 : (a b : ℕ) → a + b < 2 ^ 63 → (pos a +64 pos b) ≡ pos (a + b)
unfolding ◌+64◌ ◌+ℤ◌ to_int64
pos_add64 a b h = ground arith

pub pos_sub64 : (a b : ℕ) → b ≤ a → a < 2 ^ 63 → (pos a -64 pos b) ≡ pos (a - b)
unfolding ◌-64◌ ◌-ℤ◌ to_int64
pos_sub64 a b le h = ground arith
