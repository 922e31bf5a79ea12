-- ===== src/Farm/Redis.antt =====
-- A building's shifts in a hash of Redis: `redisStore` of
-- services/workplaces/farm/internal/farm/store.go, with its two Lua scripts. A script runs as one
-- step; HGETALL goes in the order of the list. A number of Lua is a double. How a command reaches Redis is an argument.
pub mod Scripts
pub mod Claims
pub mod Branches
pub mod Refines
mod Tests
use pipsim.Common.{
  ℕ, zero, suc, ◌+◌, ◌-◌, ◌*◌, ◌/◌, ◌%◌, ◌&&◌, ◌||◌, nat_eq, Bool, true, false, not, Option, none,
  some, List, [], ◌∷◌, ◌++◌, ltb, leb, if◌then◌else◌, length,
}
use Prim.Native.Nat.{min}
use pipsim.Common.Tests.{◌==◌}
use pipsim.Common.Strings.{Bytes, Bytes-Eq, bytes, decimal}
use pipsim.Common.Text.{split, parse_uint, join}
use pipsim.Common.Assoc.{Assoc, lookup, insert, delete}
use pipsim.Farm.Shifts.{to_int32, already_on_shift, no_free_positions}
use pipsim.Farm.Dapr.{Rules}

abbrev pub Hash : Type 0
Hash = Assoc Bytes Bytes

abbrev pub colon : ℕ
colon = b':'

-- `a .. ':' .. b .. ':' .. c`
abbrev pub value_text : Bytes → Bytes → Bytes → Bytes
value_text a b c = join colon a (b ∷ c ∷ [])

-- The doubles among the numbers: all of them below 2^53.
abbrev pub exact_limit : ℕ
exact_limit = 0x20000000000000

-- The smallest power of two, from `unit` on, that has a double's 53 bits reach past `n`. A uint64
-- needs at most eleven steps.
unfoldable pub unit_for : ℕ → ℕ → ℕ → ℕ
unit_for zero unit n = unit
unit_for (suc steps) unit n =
    let coarser = unit_for steps (2 * unit) n in
    if ltb n (exact_limit * unit) then unit else coarser

-- A half goes to the even neighbour.
unfoldable pub round_to : ℕ → ℕ → ℕ
round_to unit n =
    let low = n / unit in
    let above = 2 * (n % unit) in
    if ltb unit above || nat_eq unit above && nat_eq (low % 2) 1
    then (low + 1) * unit
    else low * unit

-- The double that is nearest to a number.
unfoldable pub double : ℕ → ℕ
unfolding unit_for round_to
double n = let rounded = round_to (unit_for 11 1 n) n in if ltb n exact_limit then n else rounded

-- `tonumber`, of a text that the store has written: a decimal number.
unfoldable pub tonumber : Bytes → Option ℕ
tonumber text = elim (parse_uint text) [ none ↦ none | some n ↦ some (double n) ]

-- The match of "[^:]+:[^:]+:(.+)", which may begin at any part of the value.
unfoldable pub third_match : List Bytes → Option Bytes
third_match (a ∷ (b ∷ (c ∷ rest))) =
    let later = third_match (b ∷ (c ∷ rest)) in
    let tail = join colon c rest in if a == [] || b == [] || tail == [] then later else some tail
third_match _ = none

-- The two matches of "([^:]+):([^:]+):".
unfoldable pub two_matches : List Bytes → Option (Bytes × Bytes)
two_matches (a ∷ (b ∷ (c ∷ rest))) =
    let later = two_matches (b ∷ (c ∷ rest)) in if a == [] || b == [] then later else some (a, b)
two_matches _ = none

abbrev pub number_in : Option Bytes → Option ℕ
number_in none = none
number_in (some text) = tonumber text

-- `tonumber(string.match(value, "[^:]+:[^:]+:(.+)"))`
unfoldable pub third_number : List Bytes → Option ℕ
unfolding third_match tonumber
third_number parts = number_in (third_match parts)

unfoldable pub last_ms : Bytes → Option ℕ
unfolding third_number
last_ms value = third_number (split value colon)

-- `now - lastMs > lease`; the numbers are the doubles of the two arguments.
unfoldable pub is_over : ℕ → ℕ → Option ℕ → Bool
unfolding double
is_over now lease none = true
is_over now lease (some at_ms) = ltb (double lease) (double (double now - at_ms))

-- The loop of the claim script: the hash, and the positions that are held, or `none` where the pip
-- is on shift.
unfoldable pub scan : Bytes → ℕ → ℕ → Hash → Hash → ℕ → Hash × Option ℕ
unfolding is_over
scan field now lease [] hash held = (hash, some held)
scan field now lease (e ∷ entries) hash held = elim (is_over now lease (last_ms e.1)) [
  | true ↦ scan field now lease entries (delete e.0 hash) held
  | false ↦ elim (e.0 == field) [
    | true ↦ (hash, none)
    | false ↦ scan field now lease entries hash (held + 1)
  ]
]

-- The end of the claim script.
unfoldable pub take : Bytes → Bytes → Bytes → ℕ → Hash × Option ℕ → Hash × Bool × Bytes
unfolding double
take field tick now max (hash, none) = (hash, false, already_on_shift)
take field tick now max (hash, some held) =
    if leb (double max) held
    then (hash, false, no_free_positions)
    else (insert field (value_text tick tick now) hash, true, bytes "")

unfoldable pub claim_script : ℕ → ℕ → ℕ → ℕ → ℕ → Hash → Hash × Bool × Bytes
unfolding scan take
claim_script pip tick now lease max hash =
    take (decimal pip) (decimal tick) (decimal now) max (scan (decimal pip) now lease hash hash 0)

-- The touch script on the texts that it reads; a difference below 0 counts as 0, and a text that is
-- no number is an error of the script.
unfoldable pub touch_match :
    Bytes → ℕ → ℕ → ℕ → Option (Bytes × Bytes) → Hash → Hash × Option (ℕ × Bool)
unfolding double tonumber
touch_match field tick now cap none hash = (hash, none)
touch_match field tick now cap (some (started, last_tick)) hash = elim (tonumber last_tick) [
  | none ↦ (hash, none)
  | some last ↦ (
    insert field (value_text started (decimal tick) (decimal now)) hash,
    some (to_int32 (min (double (double tick - last)) (double cap)), true),
  )
]

unfoldable pub touch_value : Bytes → ℕ → ℕ → ℕ → List Bytes → Hash → Hash × Option (ℕ × Bool)
unfolding touch_match two_matches
touch_value field tick now cap parts hash = touch_match field tick now cap (two_matches parts) hash

abbrev pub touch_found : Bytes → ℕ → ℕ → ℕ → Option Bytes → Hash → Hash × Option (ℕ × Bool)
touch_found field tick now cap none hash = (hash, some (0, false))
touch_found field tick now cap (some value) hash =
    touch_value field tick now cap (split value colon) hash

unfoldable pub touch_script : ℕ → ℕ → ℕ → ℕ → Hash → Hash × Option (ℕ × Bool)
unfolding touch_value
touch_script pip tick now cap hash =
    touch_found (decimal pip) tick now cap (lookup (decimal pip) hash) hash

-- A command is carried out and answered, or lost on the way, or carried out without an answer.
pub data Link : Type 0 where
  answered lost unanswered : Link

unfoldable pub over : {A : Type 0} → Link → Hash × Option A → Hash → Hash × Option A
over answered (hash', reply) hash = (hash', reply)
over lost (hash', reply) hash = (hash, none)
over unanswered (hash', reply) hash = (hash', none)

abbrev pub or_zero : Option ℕ → ℕ
or_zero none = 0
or_zero (some n) = n

abbrev pub first_number : List Bytes → ℕ
first_number [] = 0
first_number (a ∷ rest) = or_zero (parse_uint a)

unfoldable pub drop_field : Link → Bytes → Hash → Option Bytes → Hash × Option (ℕ × Bool)
unfolding over
drop_field link field hash none = (hash, some (0, false))
drop_field link field hash (some value) =
    over link (delete field hash, some (first_number (split value colon), true)) hash

module _ (rules : Rules) where
  unfoldable pub claim : Link → ℕ → ℕ → ℕ → Hash → Hash × Option (Bool × Bytes)
  unfolding over claim_script
  claim link pip tick now hash =
      let (hash', accepted, reason) = claim_script pip tick now rules.lease rules.max hash in
      over link (hash', some (accepted, reason)) hash

  unfoldable pub touch : Link → ℕ → ℕ → ℕ → Hash → Hash × Option (ℕ × Bool)
  unfolding over touch_script
  touch link pip tick now hash = over link (touch_script pip tick now rules.max_gap hash) hash

  -- An HGET, and an HDEL where it found the field: two commands.
  unfoldable pub release : Link → Link → ℕ → Hash → Hash × Option (ℕ × Bool)
  unfolding drop_field
  release answered del pip hash = drop_field del (decimal pip) hash (lookup (decimal pip) hash)
  release lost del pip hash = (hash, none)
  release unanswered del pip hash = (hash, none)

  unfoldable pub count : Link → Hash → Hash × Option ℕ
  unfolding over
  count link hash = over link (hash, some (length hash)) hash
