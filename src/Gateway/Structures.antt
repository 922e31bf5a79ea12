-- ===== src/Gateway/Structures.antt =====
-- The structures on the map: services/world-gateway/internal/gateway/structures.go. What sim-core
-- and the services that are polled answer is a parameter; the timer that registers again every
-- five seconds is not modelled.
pub mod Layout
use pipsim.Common.{
  ℕ, ◌+◌, ◌*◌, ◌%◌, Bool, true, false, Option, none, some, List, [], ◌∷◌, ◌++◌, nat_eq,
  if◌then◌else◌,
}
use pipsim.Common.Tests.{◌==◌}
use pipsim.Common.Strings.{Bytes, Bytes-Eq, bytes}
use pipsim.Common.Text.{split, trim, trim_space}

pub record Structure : Type 0 where
  pub kind : Bytes
  pub role : Bytes
  pub health_url : Bytes

abbrev pub structure_row_y : ℕ
structure_row_y = 1500

abbrev pub structure_spacing_x : ℕ
structure_spacing_x = 4000

abbrev pub structure_first_x : ℕ
structure_first_x = 2000

abbrev pub structure_id_base : ℕ
structure_id_base = 900_000

abbrev pub semicolon : ℕ
semicolon = b';'

abbrev pub bar : ℕ
bar = b'|'

-- `parts[0]` and `parts[1]` of what is left, or the empty text.
abbrev pub first_field : List Bytes → Bytes
first_field [] = []
first_field (p ∷ ps) = trim_space p

abbrev pub second_field : List Bytes → Bytes
second_field [] = []
second_field (p ∷ ps) = first_field ps

-- A structure with no kind is passed over.
abbrev pub with_kind : Bytes → List Bytes → List Structure → List Structure
with_kind [] fields later = later
with_kind (c ∷ kind) fields later =
    record { kind = c ∷ kind; role = first_field fields; health_url = second_field fields } ∷ later

unfoldable pub add_fields : List Bytes → List Structure → List Structure
add_fields [] later = later
add_fields (p ∷ ps) later = with_kind (trim_space p) ps later

abbrev pub add_entry : Bytes → List Structure → List Structure
add_entry [] later = later
add_entry (c ∷ entry) later = add_fields (split (c ∷ entry) bar) later

-- The loop over the entries.
unfoldable pub read_entries : List Bytes → List Structure
unfolding add_fields
read_entries [] = []
read_entries (entry ∷ entries) = add_entry (trim_space entry) (read_entries entries)

unfoldable pub parse_structures : Bytes → List Structure
unfolding read_entries
parse_structures raw = read_entries (split raw semicolon)

-- The intent that registers a structure; a coordinate is an int32 as a bit pattern.
pub record RegisterStructure : Type 0 where
  pub structure_id : ℕ
  pub kind : Bytes
  pub x_milli : ℕ
  pub y_milli : ℕ
  pub role : Bytes
  pub healthy : Bool

-- What the registrar asks of others: a GET answers with a status, or fails.
pub record Outside (W : Type 0) : Type 0 where
  pub submit : RegisterStructure → W → W × Bool
  pub get : Bytes → W → W × Option ℕ

abbrev pub is_ok : Option ℕ → Bool
is_ok none = false
is_ok (some status) = nat_eq status 200

module _ {W : Type 0} (out : Outside W) where
  -- A structure with no URL counts as up.
  unfoldable pub healthy : Structure → W → W × Bool
  healthy s w =
      if s.health_url == bytes ""
      then (w, true)
      else let (w', status) = out.get s.health_url w in (w', is_ok status)

  -- The loop over the structures, from the i-th on. An intent that is refused is only logged.
  unfoldable pub register_all : ℕ → List Structure → W → W
  unfolding healthy
  register_all i [] w = w
  register_all i (s ∷ ss) w =
      let (w', up) = healthy s w in
      let (w'', _) =
        out.submit
          (record {
            structure_id = structure_id_base + i;
            kind = s.kind;
            x_milli = (structure_first_x + i * structure_spacing_x) % 0x100000000;
            y_milli = structure_row_y;
            role = s.role;
            healthy = up;
          })
          w' in
      register_all (i + 1) ss w''
