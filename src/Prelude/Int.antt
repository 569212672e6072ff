-- ===== src/Prelude/Int.antt =====
-- Signed integers over the native numbers, and Go's int64 arithmetic on them.
use Prim.Native.Nat.{ℕ, suc, ◌+◌, ◌-◌, ◌*◌, ◌/◌, ◌%◌, ◌^◌, ◌≤◌, ◌<◌}
use mathlib.Core.Path.{◌≡◌}
use mathlib.Core.Bool.{Bool}
use native.Mathlib.Omega.{arith}
use platform_agent.Prelude.Tests.{◌==◌, ltb, leb, if◌then◌else◌}

-- `negsuc n` is -(n + 1).
pub data ℤ : Type 0 where
  pos : ℕ → ℤ
  negsuc : ℕ → ℤ

abbrev pub pos_part : ℤ → ℕ
pos_part (pos n) = n
pos_part (negsuc n) = 0

abbrev pub neg_part : ℤ → ℕ
neg_part (pos n) = 0
neg_part (negsuc n) = suc n

-- a - b, as an integer.
abbrev pub sub_ℕ : ℕ → ℕ → ℤ
sub_ℕ a b = if leb b a then pos (a - b) else negsuc (b - a - 1)

infix 50 ◌≤ℤ◌ ◌<ℤ◌
abbrev pub ◌≤ℤ◌ : ℤ → ℤ → Type 0
a ≤ℤ b = pos_part a + neg_part b ≤ pos_part b + neg_part a

abbrev pub ◌<ℤ◌ : ℤ → ℤ → Type 0
a <ℤ b = pos_part a + neg_part b < pos_part b + neg_part a

abbrev pub ltb_ℤ : ℤ → ℤ → Bool
ltb_ℤ a b = ltb (pos_part a + neg_part b) (pos_part b + neg_part a)

abbrev pub leb_ℤ : ℤ → ℤ → Bool
leb_ℤ a b = leb (pos_part a + neg_part b) (pos_part b + neg_part a)

abbrev pub equal_ℤ : ℤ → ℤ → Bool
equal_ℤ a b = pos_part a + neg_part b == pos_part b + neg_part a

-- The int64 that a mathematical integer wraps round to: two's complement at 64 bits.
wrap_magnitude : ℕ → ℤ
wrap_magnitude m = if ltb m (2 ^ 63) then pos m else negsuc (2 ^ 64 - 1 - m)

wrap_complement : ℕ → ℤ
wrap_complement m = if ltb m (2 ^ 63) then negsuc m else pos (2 ^ 64 - 1 - m)

unfoldable pub wrap64 : ℤ → ℤ
unfolding wrap_magnitude wrap_complement
wrap64 (pos n) = wrap_magnitude (n % 2 ^ 64)
wrap64 (negsuc n) = wrap_complement (n % 2 ^ 64)

-- Go's `a + b` and `a - b` at int64.
unfoldable pub add64 : ℤ → ℤ → ℤ
add64 a b = wrap64 (sub_ℕ (pos_part a + pos_part b) (neg_part a + neg_part b))

unfoldable pub sub64 : ℤ → ℤ → ℤ
sub64 a b = wrap64 (sub_ℕ (pos_part a + neg_part b) (neg_part a + pos_part b))

-- Go's `a * b` at int64.
unfoldable pub mul64 : ℤ → ℤ → ℤ
mul64 a b = wrap64 (
    sub_ℕ (pos_part a * pos_part b + neg_part a * neg_part b)
      (pos_part a * neg_part b + neg_part a * pos_part b))

-- Go's `a / d` and `a % d` at a positive constant: both round towards zero.
unfoldable pub quo64 : ℤ → ℕ → ℤ
quo64 a d = sub_ℕ (pos_part a / d) (neg_part a / d)

unfoldable pub rem64 : ℤ → ℕ → ℤ
rem64 a d = sub_ℕ (pos_part a % d) (neg_part a % d)

-- The value is one that an int64 holds.
abbrev pub IsInt64 : ℤ → Type 0
IsInt64 a = (pos_part a < 2 ^ 63) × (neg_part a ≤ 2 ^ 63)

pub wrap64-IsInt64 : (a : ℤ) → IsInt64 (wrap64 a)
unfolding wrap64
wrap64-IsInt64 (pos n) = ground arith
wrap64-IsInt64 (negsuc n) = ground arith

-- In range nothing wraps.
pub wrap64_of_IsInt64 : (a : ℤ) → IsInt64 a → wrap64 a ≡ a
unfolding wrap64
wrap64_of_IsInt64 (pos n) h = ground arith
wrap64_of_IsInt64 (negsuc n) h = ground arith

-- Two positive int64 values are subtracted with no wrap.
pub sub64_pos : (a b : ℕ) → a < 2 ^ 63 → b ≤ a → sub64 (pos a) (pos b) ≡ pos (a - b)
unfolding sub64 wrap64
sub64_pos a b h k = ground arith

-- A positive int64 plus a small constant is the sum, or has wrapped to a negative number.
pub add64_pos : (a c : ℕ) → a + c < 2 ^ 63 → add64 (pos a) (pos c) ≡ pos (a + c)
unfolding add64 wrap64
add64_pos a c h = ground arith

pub add64_wraps :
    (a c : ℕ)
    → a < 2 ^ 63
    → c < 2 ^ 63
    → 2 ^ 63 ≤ a + c
    → add64 (pos a) (pos c) ≡ negsuc (2 ^ 64 - 1 - (a + c))
unfolding add64 wrap64
add64_wraps a c h k o = ground arith

-- A product of two positive int64 values that stays in range.
pub mul64_pos : (a b : ℕ) → a * b < 2 ^ 63 → mul64 (pos a) (pos b) ≡ pos (a * b)
unfolding mul64 wrap64
mul64_pos a b h = ground arith

pub quo64_pos : (a : ℕ) → quo64 (pos a) 10000 ≡ pos (a / 10000)
unfolding quo64
quo64_pos a = ground arith

pub rem64_pos : (a : ℕ) → rem64 (pos a) 10000 ≡ pos (a % 10000)
unfolding rem64
rem64_pos a = ground arith

pub quo64_half : (a : ℕ) → quo64 (pos a) 2 ≡ pos (a / 2)
unfolding quo64
quo64_half a = ground arith
