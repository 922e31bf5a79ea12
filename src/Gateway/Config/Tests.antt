-- ===== src/Gateway/Config/Tests.antt =====
-- Runs of the gateway's configuration and of its gauge, and the theorem at one.
use pipsim.Common.{ℕ, ◌≡◌, refl, Option, none, some, [], ◌∷◌, arith}
use pipsim.Common.Env.{Env, getenv, parse_int, signed}
use pipsim.Common.Strings.{Bytes, Bytes-Eq, bytes, bytes_eq, decimal}
use pipsim.Common.Text.{split, trim, parse_uint}
use pipsim.Common.Assoc.{lookup}
use pipsim.Gateway.Config.{workplace_positions, workplace_addrs, offers_pending}
use pipsim.Gateway.Config.Positions.{Placed, place_all, workplace_positions-join}

-- Two thousand to the left of the origin.
abbrev first : Placed
first = record { id = 3; position = record { x_milli = 0xfffff830; y_milli = 500 } }

abbrev second : Placed
second = record { id = 9; position = record { x_milli = 1; y_milli = 2 } }

abbrev settings : Env
settings =
    (bytes "WORKPLACE_POSITIONS", bytes "3:-2000:500,9:1:2")
    ∷ (bytes "WORKPLACE_ADDRS", bytes " a ,, b")
    ∷ (bytes "FARM_ADDR", bytes "c")
    ∷ []

run-addrs : workplace_addrs settings ≡ bytes "a" ∷ bytes "b" ∷ bytes "c" ∷ []
unfolding workplace_addrs getenv lookup bytes_eq split trim
run-addrs = refl

-- A y that does not fit 32 bits, and an id of 0.
run-bad_y : workplace_positions ((bytes "WORKPLACE_POSITIONS", bytes "3:1:2147483648") ∷ []) ≡ none
unfolding workplace_positions getenv lookup bytes_eq split trim parse_int parse_uint
run-bad_y = refl

run-no_id : workplace_positions ((bytes "WORKPLACE_POSITIONS", bytes "0:1:1") ∷ []) ≡ none
unfolding workplace_positions getenv lookup bytes_eq split trim parse_int parse_uint
run-no_id = refl

-- Two farms share a queue, the third driver has no kind yet, and the tavern's queue cannot be read.
abbrev depth : Bytes → Option ℕ
depth [] = none
depth (c ∷ kind) = lookup (c ∷ kind) ((bytes "farm", 4) ∷ [])

run-gauge :
    offers_pending depth [] (bytes "farm" ∷ bytes "farm" ∷ bytes "" ∷ bytes "tavern" ∷ [])
    ≡ (bytes "farm", 4) ∷ []
unfolding offers_pending lookup bytes_eq
run-gauge = refl

workplace_positions-join_example :
    workplace_positions settings ≡ some (place_all (first ∷ second ∷ []) [])
unfolding getenv lookup bytes_eq signed decimal
workplace_positions-join_example = workplace_positions-join settings first (second ∷ []) refl (
  (λ e. omega (arith, e), omega arith, omega arith, omega arith),
  ((λ e. omega (arith, e), omega arith, omega arith, omega arith), tt),
)
