-- ===== src/CommitLog/Int64.antt =====
-- Go's int64 as its bits, a number below 2 ^ 64, and what the operations of the commit log come to.
use jocko.Common.{ℕ, ◌+◌, ◌-◌, ◌%◌, ◌<◌, ◌≡◌, ◌↔◌, Bool, true, ltb, arith}

abbrev pub two_63 : ℕ
two_63 = 9223372036854775808

abbrev pub two_64 : ℕ
two_64 = 18446744073709551616

-- int64(-1)
abbrev pub minus_one : ℕ
minus_one = 18446744073709551615

unfoldable pub add64 : ℕ → ℕ → ℕ
add64 a b = (a + b) % two_64

unfoldable pub sub64 : ℕ → ℕ → ℕ
sub64 a b = (a + two_64 - b % two_64) % two_64

-- a < b: the sign bit is the highest.
unfoldable pub lt64 : ℕ → ℕ → Bool
lt64 a b = ltb ((a + two_63) % two_64) ((b + two_63) % two_64)

-- Below 2 ^ 63 the order is that of the numbers.
pub lt64_iff : (a b : ℕ) → a < two_63 → b < two_63 → (lt64 a b ≡ true) ↔ (a < b)
unfolding lt64
lt64_iff a b ha hb = (λ h. ground arith, λ h. ground arith)

pub data LogError : Type 0 where
  eof index_corrupt bad_truncate_number disk_error : LogError

-- What a call comes to: a value, an error, or a run-time panic.
pub data Reply (A : Type 0) : Type 0 where
  done : A → Reply A
  failed : LogError → Reply A
  panicked : Reply A
