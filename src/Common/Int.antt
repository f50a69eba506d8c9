-- ===== src/Common/Int.antt =====
-- Go's signed integers over the native numbers, and the two's complement patterns that stand for
-- them in a word. `half` is 2 ^ (w - 1) for a word of w bits.
use jocko.Common.Tests.{ltb, if◌then◌else◌}
use Prim.Native.Nat.{ℕ, suc, ◌+◌, ◌-◌, ◌*◌, ◌%◌, ◌≤◌, ◌<◌}
use mathlib.Core.Path.{◌≡◌}
use mathlib.Core.Bool.{Bool}
use native.Mathlib.Nat.{mod-eq_of_lt}
use native.Mathlib.Omega.{arith}

-- `negsuc n` is -(n + 1).
pub data ℤ : Type 0 where
  pos : ℕ → ℤ
  negsuc : ℕ → ℤ

abbrev pub pos_part : ℤ → ℕ
pos_part (pos n) = n
pos_part (negsuc n) = 0

abbrev pub neg_part : ℤ → ℕ
neg_part (pos n) = 0
neg_part (negsuc n) = suc n

abbrev pub sub_ℕ : ℕ → ℕ → ℤ
sub_ℕ a b = if ltb a b then negsuc (b - a - 1) else pos (a - b)

infixl 65 ◌+ℤ◌ ◌-ℤ◌
unfoldable pub ◌+ℤ◌ : ℤ → ℤ → ℤ
a +ℤ b = sub_ℕ (pos_part a + pos_part b) (neg_part a + neg_part b)

unfoldable pub ◌-ℤ◌ : ℤ → ℤ → ℤ
a -ℤ b = sub_ℕ (pos_part a + neg_part b) (neg_part a + pos_part b)

infix 50 ◌≤ℤ◌
abbrev pub ◌≤ℤ◌ : ℤ → ℤ → Type 0
a ≤ℤ b = pos_part a + neg_part b ≤ pos_part b + neg_part a

abbrev pub ltb_ℤ : ℤ → ℤ → Bool
ltb_ℤ a b = ltb (pos_part a + neg_part b) (pos_part b + neg_part a)

-- The integer fits a word with the sign bit at `half`.
abbrev pub InWord : ℕ → ℤ → Type 0
InWord half (pos n) = n < half
InWord half (negsuc n) = n < half

-- uintW(in) of a signed integer, and intW(in) of a pattern.
unfoldable pub unsigned : ℕ → ℤ → ℕ
unsigned half (pos n) = n % (2 * half)
unsigned half (negsuc n) = 2 * half - 1 - n % (2 * half)

unfoldable pub signed : ℕ → ℕ → ℤ
signed half v = if ltb v half then pos v else negsuc (2 * half - 1 - v)

pub unsigned-lt : (half : ℕ) (z : ℤ) → 0 < half → unsigned half z < 2 * half
unfolding unsigned
unsigned-lt half (pos n) h = omega arith
unsigned-lt half (negsuc n) h = omega arith

-- A conversion to the pattern and back gives the integer, if that fits the word.
pub signed-unsigned : (half : ℕ) (z : ℤ) → InWord half z → signed half (unsigned half z) ≡ z
unfolding signed unsigned
signed-unsigned half (pos n) h = ground (arith, mod-eq_of_lt {n = n} {m = 2 * half} (omega arith))
signed-unsigned half (negsuc n) h =
    ground (arith, mod-eq_of_lt {n = n} {m = 2 * half} (omega arith))
