-- ===== src/Prelude/Int.antt =====
-- Signed integers over the native numbers, under the library's names, and the `i32` of Rust: an
-- integer of the range `IsI32`, with its two's complement word.
use mathlib.Core.Option.{Option, none, some}
use Prim.Native.Nat.{ℕ, zero, suc, ◌+◌, ◌-◌, ◌%◌, ◌^◌, ◌≤◌, ◌<◌}
use mathlib.Core.Path.{◌≡◌}
use mathlib.Core.Bool.{Bool}
use native.Mathlib.Omega.{arith}
use fiddlers_db.Prelude.Tests.{ltb, leb, ◌==◌, if◌then◌else◌}

-- `negsuc n` is -(n + 1).
pub data ℤ : Type 0 where
  pos : ℕ → ℤ
  negsuc : ℕ → ℤ

abbrev pub pos_part : ℤ → ℕ
pos_part (pos n) = n
pos_part (negsuc n) = 0

abbrev pub neg_part : ℤ → ℕ
neg_part (pos n) = 0
neg_part (negsuc n) = suc n

-- a - b, as an integer.
abbrev pub sub_ℕ : ℕ → ℕ → ℤ
sub_ℕ a b = if leb b a then pos (a - b) else negsuc (b - a - 1)

infix 50 ◌<ℤ◌ ◌≤ℤ◌ ◌==ℤ◌
abbrev pub ◌<ℤ◌ : ℤ → ℤ → Type 0
a <ℤ b = pos_part a + neg_part b < pos_part b + neg_part a

abbrev pub ◌≤ℤ◌ : ℤ → ℤ → Type 0
a ≤ℤ b = pos_part a + neg_part b ≤ pos_part b + neg_part a

abbrev pub ltb_ℤ : ℤ → ℤ → Bool
ltb_ℤ a b = ltb (pos_part a + neg_part b) (pos_part b + neg_part a)

abbrev pub ◌==ℤ◌ : ℤ → ℤ → Bool
a ==ℤ b = (pos_part a + neg_part b) == (pos_part b + neg_part a)

pub eq_of_parts : (a b : ℤ) → pos_part a + neg_part b ≡ pos_part b + neg_part a → a ≡ b
eq_of_parts a b h = ground arith

pub eq_of_==ℤ : (a b : ℤ) → (a ==ℤ b) ≡ Bool.true → a ≡ b
eq_of_==ℤ a b h = eq_of_parts a b (ground arith)

-- `i32::MIN`
abbrev pub i32_min : ℤ
i32_min = negsuc (2 ^ 31 - 1)

-- The range of an `i32`.
abbrev pub IsI32 : ℤ → Type 0
IsI32 z = (pos_part z < 2 ^ 31) × (neg_part z ≤ 2 ^ 31)

-- `z as u32`: the two's complement word.
abbrev pub word32 : ℤ → ℕ
word32 (pos n) = n % 2 ^ 32
word32 (negsuc n) = 2 ^ 32 - 1 - n % 2 ^ 32

-- `w as i32` of a number: the integer that its low 32 bits stand for.
abbrev pub as_i32 : ℕ → ℤ
as_i32 n = if ltb (n % 2 ^ 32) (2 ^ 31) then pos (n % 2 ^ 32) else negsuc (2 ^ 32 - 1 - n % 2 ^ 32)

-- `z as usize`: sign extension to 64 bits.
abbrev pub i32_as_usize : ℤ → ℕ
i32_as_usize (pos n) = n
i32_as_usize (negsuc n) = 2 ^ 64 - 1 - n

-- `z + 1` and `z - 1` on `i32` values, with overflow checks: `none` where Rust panics.
abbrev pub i32_succ : ℤ → Option ℤ
i32_succ (pos n) = if ltb (n + 1) (2 ^ 31) then some (pos (n + 1)) else none
i32_succ (negsuc zero) = some (pos 0)
i32_succ (negsuc (suc n)) = some (negsuc n)

abbrev pub i32_pred : ℤ → Option ℤ
i32_pred (pos zero) = some (negsuc 0)
i32_pred (pos (suc n)) = some (pos n)
i32_pred (negsuc n) = if ltb (n + 1) (2 ^ 31) then some (negsuc (n + 1)) else none

pub as_i32-word32 : (z : ℤ) → IsI32 z → as_i32 (word32 z) ≡ z
as_i32-word32 (pos n) h = ground arith
as_i32-word32 (negsuc n) h = ground arith

pub word32-lt : (z : ℤ) → word32 z < 2 ^ 32
word32-lt (pos n) = omega arith
word32-lt (negsuc n) = omega arith
