-- ===== src/Base/Words.antt =====
-- C's unsigned and signed 32-bit integers. An `unsigned` is a number below 2 ^ 32; an `int` is
-- read from its bit pattern by `to_int`.
use Prim.Native.Nat.{ℕ, ◌+◌, ◌-◌, ◌%◌, ◌^◌}
use mathlib.Core.Bool.{Bool}
use fp_sisop20_f.Base.Tests.{ltb, leb, if◌then◌else◌}

abbrev pub word : ℕ
word = 2 ^ 32

-- unsigned addition and subtraction
abbrev pub add32 : ℕ → ℕ → ℕ
add32 a b = (a + b) % word

abbrev pub sub32 : ℕ → ℕ → ℕ
sub32 a b = (a + word - b) % word

-- `negsuc n` is -(n + 1).
pub data ℤ : Type 0 where
  pos : ℕ → ℤ
  negsuc : ℕ → ℤ

abbrev pub minus_one : ℤ
minus_one = negsuc 0

-- a - b, as an integer.
abbrev pub sub_ℕ : ℕ → ℕ → ℤ
sub_ℕ a b = if leb b a then pos (a - b) else negsuc (b - a - 1)

-- `(int) x`
abbrev pub to_int : ℕ → ℤ
to_int x = if ltb x (2 ^ 31) then pos x else negsuc (word - x - 1)

-- `(uint) x`
abbrev pub to_uint : ℤ → ℕ
to_uint (pos n) = n % word
to_uint (negsuc n) = (word - 1 - n % word) % word

-- what a loop bound `i < n` on an `int` counts to
abbrev pub nonneg_part : ℤ → ℕ
nonneg_part (pos n) = n
nonneg_part (negsuc _) = 0

abbrev pub is_neg : ℤ → Bool
is_neg (pos _) = Bool.false
is_neg (negsuc _) = Bool.true
