-- ===== src/Prelude/Int.antt =====
-- Signed 64-bit values as integers. `negsuc n` is -(n + 1).
use Prim.Native.Nat.{◌^◌, ℕ, suc, ◌+◌, ◌-◌}
use mathlib.Core.Path.{◌≡◌}
use mathlib.Core.Bool.{Bool}
use native.Mathlib.Omega.{arith}
use panopticon_agent.Prelude.Tests.{ltb, leb, if◌then◌else◌}

pub data ℤ : Type 0 where
  pos : ℕ → ℤ
  negsuc : ℕ → ℤ

abbrev pub pos_part : ℤ → ℕ
pos_part (pos n) = n
pos_part (negsuc n) = 0

abbrev pub neg_part : ℤ → ℕ
neg_part (pos n) = 0
neg_part (negsuc n) = suc n

-- a - b, as an integer.
abbrev pub sub_ℕ : ℕ → ℕ → ℤ
sub_ℕ a b = if leb b a then pos (a - b) else negsuc (b - a - 1)

-- The test `a < b`.
abbrev pub ltb_ℤ : ℤ → ℤ → Bool
ltb_ℤ a b = ltb (pos_part a + neg_part b) (pos_part b + neg_part a)

abbrev pub leb_ℤ : ℤ → ℤ → Bool
leb_ℤ a b = leb (pos_part a + neg_part b) (pos_part b + neg_part a)

-- Two values with one offset compare as the naturals do.
pub ltb_ℤ-sub_ℕ : (a b c : ℕ) → ltb_ℤ (sub_ℕ a c) (sub_ℕ b c) ≡ ltb a b
ltb_ℤ-sub_ℕ a b c = ground arith

-- The values of a 64-bit unsigned number.
abbrev pub size_mod : ℕ
size_mod = 2 ^ 64

-- The difference of two 64-bit unsigned values.
abbrev pub sub_size : ℕ → ℕ → ℕ
sub_size a b = if leb b a then a - b else a + size_mod - b
