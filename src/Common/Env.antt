-- ===== src/Common/Env.antt =====
-- What the services use of Go's `os.Getenv` and `strconv.ParseInt` in base 10.
use Prim.Native.Nat.{ℕ, ◌+◌, ◌-◌, ◌%◌, ◌<◌}
use mathlib.Core.Path.{◌≡◌, refl, ◌∙◌, ap}
use mathlib.Core.Logic.{◌≢◌, inl, inr}
use mathlib.Core.List.{[], ◌∷◌}
use mathlib.Core.Option.{Option, none, some}
use native.Mathlib.Nat.{mod-eq_of_lt}
use native.Mathlib.Omega.{arith}
use pipsim.Common.Lists.{All}
use pipsim.Common.Tests.{nat_eq, ltb, leb, if◌then◌else◌, Bool-cases}
use pipsim.Common.Words.{word_size}
use pipsim.Common.Strings.{Bytes, Bytes-Eq, decimal, decimal-All-IsDigit, IsDigit}
use pipsim.Common.Assoc.{Assoc, lookup}
use pipsim.Common.Text.{parse_uint, parse_uint-decimal, decimal-ne-nil}

abbrev pub Env : Type 0
Env = Assoc Bytes Bytes

-- A variable that is not set reads as the empty text.
abbrev pub or_empty : Option Bytes → Bytes
or_empty none = []
or_empty (some v) = v

unfoldable pub getenv : Env → Bytes → Bytes
getenv environment key = or_empty (lookup key environment)

-- `if v, err := …; err == nil { return v }; return def`
abbrev pub or_default : ℕ → Option ℕ → ℕ
or_default fallback none = fallback
or_default fallback (some v) = v

-- A number of zero or more below the limit, and minus a number up to it, as bit patterns.
abbrev pub in_range : ℕ → Option ℕ → Option ℕ
in_range limit none = none
in_range limit (some n) = if ltb n limit then some n else none

abbrev pub in_range_negated : ℕ → Option ℕ → Option ℕ
in_range_negated limit none = none
in_range_negated limit (some n) =
    if leb n limit then some ((limit + limit - n) % (limit + limit)) else none

-- `strconv.ParseInt(s, 10, w)` for a limit of 2^(w - 1).
unfoldable pub parse_int : ℕ → Bytes → Option ℕ
parse_int limit [] = none
parse_int limit (c ∷ s) =
    if nat_eq c b'-'
    then in_range_negated limit (parse_uint s)
    else if nat_eq c b'+'
    then in_range limit (parse_uint s)
    else in_range limit (parse_uint (c ∷ s))

-- `%d` of a signed number as a bit pattern.
unfoldable pub signed : ℕ → ℕ → Bytes
signed limit n = if ltb n limit then decimal n else b'-' ∷ decimal (limit + limit - n)

parse_int-IsDigit :
    (limit : ℕ) (s : Bytes)
    → s ≢ []
    → All IsDigit s
    → parse_int limit s ≡ in_range limit (parse_uint s)
unfolding parse_int
parse_int-IsDigit limit [] ne h = absurd (ne refl)
parse_int-IsDigit limit (c ∷ s) ne h = ground (arith, h.0)

-- The decimal form of a signed number is read back.
pub parse_int-signed :
    (limit n : ℕ)
    → limit < word_size
    → n < limit + limit
    → parse_int limit (signed limit n) ≡ some n
unfolding signed
parse_int-signed limit n small range = elim (Bool-cases (ltb n limit)) [
  | inl positive ↦ rw positive (
      parse_int-IsDigit limit (decimal n) (decimal-ne-nil n) (decimal-All-IsDigit n)
      ∙ (ap (in_range limit) (parse_uint-decimal n (ground arith)) ∙ rw positive refl))
  | inr negative ↦ rw negative (
      unfold parse_int in
      ap (in_range_negated limit) (parse_uint-decimal (limit + limit - n) (ground arith))
      ∙ ground (arith, mod-eq_of_lt range))
]
