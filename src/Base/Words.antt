-- ===== src/Base/Words.antt =====
-- 64-bit machine words as bit patterns: uint64_t values, and int64_t values in two's complement.
use Prim.Native.Nat.{ℕ, ◌+◌, ◌-◌, ◌%◌}
use mathlib.Core.Bool.{Bool, ◌&&◌}
use nighthawk.Base.Tests.{ltb}

abbrev pub word_size : ℕ
word_size = 18446744073709551616

-- The least bit pattern that reads as a negative int64_t.
abbrev pub sign_bit : ℕ
sign_bit = 9223372036854775808

abbrev pub inc64 : ℕ → ℕ
inc64 w = (w + 1) % word_size

abbrev pub dec64 : ℕ → ℕ
dec64 w = (w + 18446744073709551615) % word_size

abbrev pub add64 : ℕ → ℕ → ℕ
add64 a b = (a + b) % word_size

-- `a - b` on uint64_t, for `b` below 2^64.
abbrev pub sub64 : ℕ → ℕ → ℕ
sub64 a b = (a + (word_size - b)) % word_size

-- `w > 0` where `w` is read as an int64_t.
abbrev pub is_positive64 : ℕ → Bool
is_positive64 w = ltb 0 w && ltb w sign_bit
