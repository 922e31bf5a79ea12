-- ===== src/Common/Words.antt =====
-- Go's int64 as a bit pattern below 2^64: sums and differences wrap round, and the order reads
-- the top bit as the sign. A uint64 is the same pattern, read without a sign.
use Prim.Native.Nat.{ℕ, ◌+◌, ◌-◌, ◌/◌, ◌%◌, ◌<◌}
use mathlib.Core.Bool.{Bool}
use pipsim.Common.Tests.{ltb, if◌then◌else◌}

-- 2^64
abbrev pub word_size : ℕ
word_size = 0x10000000000000000

-- 2^63, the first pattern that reads as a negative number.
abbrev pub sign_bit : ℕ
sign_bit = 0x8000000000000000

abbrev pub IsWord : ℕ → Type 0
IsWord a = a < word_size

-- `a + b`, `a - b`, `-a` on int64.
abbrev pub add64 : ℕ → ℕ → ℕ
add64 a b = (a + b) % word_size

abbrev pub sub64 : ℕ → ℕ → ℕ
sub64 a b = (a + (word_size - b % word_size)) % word_size

abbrev pub neg64 : ℕ → ℕ
neg64 a = (word_size - a % word_size) % word_size

-- `a < b` on int64: flipping the sign bit turns the signed order into the unsigned one.
abbrev pub lt64 : ℕ → ℕ → Bool
lt64 a b = ltb ((a + sign_bit) % word_size) ((b + sign_bit) % word_size)

-- `a / 2` on int64, which rounds towards zero.
abbrev pub half64 : ℕ → ℕ
half64 a = if ltb a sign_bit then a / 2 else neg64 (neg64 a / 2)
