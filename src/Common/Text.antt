-- ===== src/Common/Text.antt =====
-- What the services use of Go's `strings` and `strconv`: Split by a byte, TrimSpace on ASCII text,
-- Trim of a byte, and ParseUint in base 10 for 64 bits.
use Prim.Native.Nat.{ℕ, zero, suc, ◌+◌, ◌*◌, ◌-◌, ◌/◌, ◌%◌, ◌^◌, ◌<◌}
use mathlib.Core.Path.{◌≡◌, refl, ap, ◌∙◌}
use mathlib.Core.Logic.{◌≢◌, inl, inr}
use mathlib.Core.Bool.{Bool, true, false, ◌&&◌, ◌||◌}
use mathlib.Core.List.{List, [], ◌∷◌, ◌++◌}
use mathlib.Core.Option.{Option, none, some}
use native.Mathlib.Nat.{pow-suc}
use native.Mathlib.Omega.{arith}
use pipsim.Common.Lists.{All, All-mono}
use pipsim.Common.Tests.{nat_eq, ltb, leb, if◌then◌else◌, Bool-cases}
use pipsim.Common.Words.{word_size}
use pipsim.Common.Strings.{Bytes, digits, decimal, IsDigit, decimal-All-IsDigit}

abbrev pub prepend : ℕ → List Bytes → List Bytes
prepend c [] = (c ∷ []) ∷ []
prepend c (p ∷ ps) = (c ∷ p) ∷ ps

-- `strings.Split(s, sep)` for a separator of one byte.
unfoldable pub split : Bytes → ℕ → List Bytes
split [] sep = [] ∷ []
split (c ∷ s) sep = let parts = split s sep in if nat_eq c sep then [] ∷ parts else prepend c parts

abbrev pub is_space : ℕ → Bool
is_space c = nat_eq c 32 || (leb 9 c && leb c 13)

-- Bytes at an end of which the test holds are dropped.
unfoldable pub trim_left : (ℕ → Bool) → Bytes → Bytes
trim_left test [] = []
trim_left test (c ∷ s) = let rest = trim_left test s in if test c then rest else c ∷ s

abbrev pub keep : Bool → ℕ → Bytes → Bytes
keep true c [] = []
keep false c [] = c ∷ []
keep _ c (d ∷ s) = c ∷ d ∷ s

unfoldable pub trim_right : (ℕ → Bool) → Bytes → Bytes
trim_right test [] = []
trim_right test (c ∷ s) = keep (test c) c (trim_right test s)

unfoldable pub trim : (ℕ → Bool) → Bytes → Bytes
unfolding trim_left trim_right
trim test s = trim_right test (trim_left test s)

-- `strings.TrimSpace(s)`
abbrev pub trim_space : Bytes → Bytes
trim_space s = trim is_space s

abbrev pub is_digit : ℕ → Bool
is_digit c = leb b'0' c && leb c b'9'

-- The digits after those that stand for `n`; a number that does not fit 64 bits is an error.
unfoldable pub read_digits : ℕ → Bytes → Option ℕ
read_digits n [] = some n
read_digits n (c ∷ s) =
    let n' = n * 10 + (c - b'0') in
    let rest = read_digits n' s in if is_digit c && ltb n' word_size then rest else none

-- `strconv.ParseUint(s, 10, 64)`
unfoldable pub parse_uint : Bytes → Option ℕ
unfolding read_digits
parse_uint [] = none
parse_uint (c ∷ s) = read_digits 0 (c ∷ s)

-- The text has no such byte.
abbrev pub Lacks : ℕ → Bytes → Type 0
Lacks sep = All (λ c. c ≢ sep)

split-Lacks : (s : Bytes) (sep : ℕ) → Lacks sep s → split s sep ≡ s ∷ []
unfolding split
split-Lacks [] sep h = refl
split-Lacks (c ∷ s) sep h = ground (arith, split-Lacks s sep h.1)

-- A part up to the first separator.
pub split-append :
    (s rest : Bytes) (sep : ℕ) → Lacks sep s → split (s ++ (sep ∷ rest)) sep ≡ s ∷ split rest sep
unfolding split
split-append [] rest sep h = ground arith
split-append (c ∷ s) rest sep h = ground (arith, split-append s rest sep h.1)

-- A decimal form has no byte that is not a digit.
pub decimal-Lacks : (sep n : ℕ) → ((c : ℕ) → IsDigit c → c ≢ sep) → Lacks sep (decimal n)
decimal-Lacks sep n differs = All-mono differs (decimal n) (decimal-All-IsDigit n)

-- The parts with the separator between them.
abbrev pub join : ℕ → Bytes → List Bytes → Bytes
join sep p [] = p
join sep p (q ∷ qs) = p ++ (sep ∷ join sep q qs)

pub split-join :
    (sep : ℕ) (p : Bytes) (ps : List Bytes)
    → Lacks sep p
    → All (Lacks sep) ps
    → split (join sep p ps) sep ≡ p ∷ ps
split-join sep p [] h hs = split-Lacks p sep h
split-join sep p (q ∷ qs) h hs =
    split-append p (join sep q qs) sep h ∙ ap (λ parts. p ∷ parts) (split-join sep q qs hs.0 hs.1)

module _ (test : ℕ → Bool) where
  -- Bytes that are all dropped, or all kept.
  abbrev pub Drops : Bytes → Type 0
  Drops = All (λ c. test c ≡ true)

  abbrev pub Keeps : Bytes → Type 0
  Keeps = All (λ c. test c ≡ false)

  trim_left-append : (s t : Bytes) → Drops s → trim_left test (s ++ t) ≡ trim_left test t
  unfolding trim_left
  trim_left-append [] t h = refl
  trim_left-append (c ∷ s) t h = ground (arith, trim_left-append s t h.1)

  trim_left-Keeps : (s t : Bytes) → Keeps s → s ≢ [] → trim_left test (s ++ t) ≡ s ++ t
  unfolding trim_left
  trim_left-Keeps [] t h ne = absurd (ne refl)
  trim_left-Keeps (c ∷ s) t h ne = ground arith

  trim_right-Drops : (s : Bytes) → Drops s → trim_right test s ≡ []
  unfolding trim_right
  trim_right-Drops [] h = refl
  trim_right-Drops (c ∷ s) h = rw (trim_right-Drops s h.1, h.0)

  trim_right-append : (s t : Bytes) → Keeps s → Drops t → trim_right test (s ++ t) ≡ s
  unfolding trim_right
  trim_right-append [] t h d = trim_right-Drops t d
  trim_right-append (c ∷ []) t h d = rw (trim_right-Drops t d, h.0)
  trim_right-append (c ∷ (e ∷ s)) t h d = rw (trim_right-append (e ∷ s) t h.1 d)

  -- A text between bytes that are dropped.
  pub trim-between :
      (left s right : Bytes)
      → Drops left
      → Keeps s
      → s ≢ []
      → Drops right
      → trim test (left ++ (s ++ right)) ≡ s
  unfolding trim
  trim-between left s right hl hs ne hr =
      rw (trim_left-append left (s ++ right) hl, trim_left-Keeps s right hs ne)
        (trim_right-append s right hs hr)

module _ (test : ℕ → Bool) where
  -- A text that trimming leaves alone, at its start and at its end.
  abbrev pub Starts : Bytes → Type 0
  Starts [] = Unit
  Starts (c ∷ s) = test c ≡ false

  abbrev pub Ends : Bytes → Type 0
  Ends [] = Unit
  Ends (c ∷ []) = test c ≡ false
  Ends (c ∷ (d ∷ s)) = Ends (d ∷ s)

  trim_left-Starts : (s : Bytes) → Starts s → trim_left test s ≡ s
  unfolding trim_left
  trim_left-Starts [] h = refl
  trim_left-Starts (c ∷ s) h = ground arith

  trim_right-Ends : (s : Bytes) → Ends s → trim_right test s ≡ s
  unfolding trim_right
  trim_right-Ends [] h = refl
  trim_right-Ends (c ∷ []) h = rw h
  trim_right-Ends (c ∷ (d ∷ s)) h = rw (trim_right-Ends (d ∷ s) h)

  pub trim_lem : (s : Bytes) → Starts s → Ends s → trim test s ≡ s
  unfolding trim
  trim_lem s h k = rw (trim_left-Starts s h) (trim_right-Ends s k)

  pub Starts-append : (s t : Bytes) → s ≢ [] → Starts s → Starts (s ++ t)
  Starts-append [] t ne h = absurd (ne refl)
  Starts-append (c ∷ s) t ne h = h

  pub Ends-append : (s t : Bytes) → t ≢ [] → Ends t → Ends (s ++ t)
  Ends-append [] t ne h = h
  Ends-append (c ∷ []) [] ne h = absurd (ne refl)
  Ends-append (c ∷ []) (d ∷ t) ne h = h
  Ends-append (c ∷ (d ∷ s)) t ne h = Ends-append (d ∷ s) t ne h

read_last :
    (n : ℕ) (out : Bytes)
    → n < word_size
    → read_digits (n / 10) ((b'0' + n % 10) ∷ out) ≡ read_digits n out
unfolding read_digits
read_last n out small =
    let e : n / 10 * 10 + (b'0' + n % 10 - b'0') ≡ n = omega arith in rw e (ground arith)

-- Reading the digits of `n` is reading on after `n`.
read_digits-digits :
    (fuel n : ℕ) (out : Bytes)
    → n < 10 ^ fuel
    → n < word_size
    → read_digits 0 (digits fuel n out) ≡ read_digits n out
unfolding digits
read_digits-digits zero n out h small = let e : n ≡ 0 = omega arith in rw e
read_digits-digits (suc fuel) n out h small = elim (Bool-cases (ltb n 10)) [
  | inl one ↦ rw one (unfold read_digits in ground arith)
  | inr more ↦ rw more (
      read_digits-digits fuel (n / 10) ((b'0' + n % 10) ∷ out) (omega (arith, pow-suc 10 fuel))
        (omega arith)
      ∙ read_last n out small)
]

parse_uint-read_digits : (s : Bytes) → s ≢ [] → parse_uint s ≡ read_digits 0 s
unfolding parse_uint
parse_uint-read_digits [] h = absurd (h refl)
parse_uint-read_digits (c ∷ s) h = refl

digits-ne-nil : (fuel n : ℕ) (out : Bytes) → out ≢ [] → digits fuel n out ≢ []
unfolding digits
digits-ne-nil zero n out h = h
digits-ne-nil (suc fuel) n out h =
    ground (arith, digits-ne-nil fuel (n / 10) ((b'0' + n % 10) ∷ out))

pub decimal-ne-nil : (n : ℕ) → decimal n ≢ []
unfolding decimal digits
decimal-ne-nil n = ground (arith, digits-ne-nil 19 (n / 10) ((b'0' + n % 10) ∷ []))

-- The decimal form of a uint64 is read back.
pub parse_uint-decimal : (n : ℕ) → n < word_size → parse_uint (decimal n) ≡ some n
unfolding decimal
parse_uint-decimal n small =
    parse_uint-read_digits (decimal n) (decimal-ne-nil n)
    ∙ (read_digits-digits 20 n [] (omega arith) small ∙ unfold read_digits in refl)

read_digits-lt :
    (n : ℕ) (s : Bytes) (m : ℕ) → n < word_size → read_digits n s ≡ some m → m < word_size
unfolding read_digits
read_digits-lt n [] m small h = ground arith
read_digits-lt n (c ∷ s) m small h = ground (arith, read_digits-lt (n * 10 + (c - b'0')) s m)

pub parse_uint-lt : (s : Bytes) (m : ℕ) → parse_uint s ≡ some m → m < word_size
unfolding parse_uint
parse_uint-lt [] m h = cc
parse_uint-lt (c ∷ s) m h = read_digits-lt 0 (c ∷ s) m (omega arith) h
