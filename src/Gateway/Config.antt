-- ===== src/Gateway/Config.antt =====
-- The gateway's configuration, services/world-gateway/cmd/gateway/main.go, and what its `main` makes
-- of it: the drivers of the workplaces that it can reach, and the gauge of the pending offers.
pub mod Positions
pub mod Gauge
mod Tests
use pipsim.Common.{
  ℕ, Bool, true, false, ◌||◌, Option, none, some, List, [], ◌∷◌, ◌++◌, map, nat_eq, if◌then◌else◌,
}
use pipsim.Common.Env.{Env, getenv, or_default, parse_int}
use pipsim.Common.Tests.{◌==◌, ℕ-Eq}
use pipsim.Common.Strings.{Bytes, Bytes-Eq, bytes}
use pipsim.Common.Text.{split, trim_space, parse_uint}
use pipsim.Common.Assoc.{Assoc, insert}
use pipsim.Economy.Driver.{Driver}
use pipsim.Economy.Registration.{Position, Address, discover}

abbrev pub comma : ℕ
comma = b','

abbrev pub colon : ℕ
colon = b':'

-- 2^31
abbrev pub int32_limit : ℕ
int32_limit = 0x80000000

unfoldable pub env : Env → Bytes → Bytes → Bytes
env environment key fallback =
    let v = getenv environment key in if v == bytes "" then fallback else v

unfoldable pub env_uint : Env → Bytes → ℕ → ℕ
env_uint environment key fallback = or_default fallback (parse_uint (getenv environment key))

-- The parts that are not blank.
unfoldable pub addresses : List Bytes → List Bytes
addresses [] = []
addresses (a ∷ parts) =
    let rest = addresses parts in
    let address = trim_space a in if address == bytes "" then rest else address ∷ rest

unfoldable pub workplace_addrs : Env → List Bytes
unfolding addresses
workplace_addrs environment =
    let listed = addresses (split (getenv environment (bytes "WORKPLACE_ADDRS")) comma) in
    let farm = trim_space (getenv environment (bytes "FARM_ADDR")) in
    if farm == bytes "" then listed else listed ++ farm ∷ []

-- `out[id] = &simv1.Vec2{…}`, once the three numbers are known.
abbrev pub place : Option ℕ → Option ℕ → Option ℕ → Assoc ℕ Position → Option (Assoc ℕ Position)
place (some id) (some x) (some y) out =
    if nat_eq id 0 then none else some (insert id (record { x_milli = x; y_milli = y }) out)
place none x y out = none
place (some id) none y out = none
place (some id) (some x) none out = none

-- The three fields of a part; another number of fields is an error.
unfoldable pub add_position : List Bytes → Assoc ℕ Position → Option (Assoc ℕ Position)
add_position (id ∷ x ∷ y ∷ []) out =
    place (parse_uint (trim_space id)) (parse_int int32_limit (trim_space x))
      (parse_int int32_limit (trim_space y)) out
add_position [] out = none
add_position (_ ∷ []) out = none
add_position (_ ∷ _ ∷ []) out = none
add_position (_ ∷ _ ∷ _ ∷ _ ∷ _) out = none

-- A blank part is passed over.
unfoldable pub read_part : Bytes → Assoc ℕ Position → Option (Assoc ℕ Position)
unfolding add_position
read_part [] out = some out
read_part (c ∷ part) out = add_position (split (c ∷ part) colon) out

-- The loop over the parts, up to the first error.
unfoldable pub read_positions : List Bytes → Assoc ℕ Position → Option (Assoc ℕ Position)
unfolding read_part
read_positions [] out = some out
read_positions (part ∷ parts) out = elim (read_part (trim_space part) out) [
  | none ↦ none
  | some out' ↦ read_positions parts out'
]

abbrev pub positions_from : Bytes → Option (Assoc ℕ Position)
positions_from [] = some []
positions_from (c ∷ raw) = read_positions (split (c ∷ raw) comma) []

-- `none` is an error.
unfoldable pub workplace_positions : Env → Option (Assoc ℕ Position)
unfolding read_positions
workplace_positions environment =
    positions_from (trim_space (getenv environment (bytes "WORKPLACE_POSITIONS")))

-- The loop of `main` over the addresses: the drivers that were found, in order, without those of an
-- address that fails.
unfoldable pub discover_all : {W : Type 0} → List (Address W) → W → W × List Driver
discover_all [] w = (w, [])
discover_all (address ∷ rest) w =
    let (w', found) = discover address w in
    let (w'', others) = discover_all rest w' in
    (w'', elim found [ none ↦ others | some ds ↦ ds ++ others ])

unfoldable pub is_among : Bytes → List Bytes → Bool
is_among kind [] = false
is_among kind (k ∷ kinds) = let rest = is_among kind kinds in if k == kind then true else rest

abbrev pub observe : Bytes → Option ℕ → List (Bytes × ℕ) → List (Bytes × ℕ)
observe kind none others = others
observe kind (some depth) others = (kind, depth) ∷ others

-- The callback of the gauge, with the kinds that it has seen: the depth of each kind's queue once,
-- and nothing for a driver that does not know its kind, or for a queue that cannot be read.
unfoldable pub offers_pending : (Bytes → Option ℕ) → List Bytes → List Bytes → List (Bytes × ℕ)
unfolding is_among
offers_pending queue_depth seen [] = []
offers_pending queue_depth seen (kind ∷ kinds) =
    let skipped = offers_pending queue_depth seen kinds in
    let others = offers_pending queue_depth (kind ∷ seen) kinds in
    if kind == bytes "" || is_among kind seen
    then skipped
    else observe kind (queue_depth kind) others
