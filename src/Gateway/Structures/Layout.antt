-- ===== src/Gateway/Structures/Layout.antt =====
-- The text of the variable STRUCTURES (ParseStructures of
-- services/world-gateway/internal/gateway/structures.go).
use pipsim.Common.{◌≡◌, ◌≢◌, refl, ap, ◌∙◌, List, [], ◌∷◌, ◌++◌, arith, All, All-append, map}
use pipsim.Common.Strings.{Bytes}
use pipsim.Common.Text.{
  split, trim_space, is_space, join, Lacks, split-join, Starts, Ends, trim_lem, Starts-append,
  Ends-append,
}
use pipsim.Gateway.Structures.{
  Structure, semicolon, bar, add_entry, add_fields, with_kind, first_field, second_field,
  read_entries, parse_structures,
}

-- A field has no separator, and no blank at an end.
abbrev pub IsField : Bytes → Type 0
IsField s = Lacks semicolon s × Lacks bar s × Starts is_space s × Ends is_space s

abbrev pub IsStructure : Structure → Type 0
IsStructure s = IsField s.kind × IsField s.role × IsField s.health_url × (s.kind ≢ [])

-- `kind|role|health-url`
abbrev pub structure_text : Structure → Bytes
structure_text s = join bar s.kind (s.role ∷ s.health_url ∷ [])

structure_text-Ends : (a b c : Bytes) → Ends is_space c → Ends is_space (join bar a (b ∷ c ∷ []))
structure_text-Ends a b [] h =
    Ends-append is_space a (bar ∷ (b ++ (bar ∷ []))) (λ e. cc)
      (Ends-append is_space (bar ∷ b) (bar ∷ []) (λ e. cc) refl)
structure_text-Ends a b (d ∷ c) h =
    Ends-append is_space a (bar ∷ (b ++ (bar ∷ (d ∷ c)))) (λ e. cc)
      (Ends-append is_space (bar ∷ b) (bar ∷ (d ∷ c)) (λ e. cc) h)

trim-structure_text :
    (s : Structure) → IsStructure s → trim_space (structure_text s) ≡ structure_text s
trim-structure_text s h =
    trim_lem is_space (structure_text s) (Starts-append is_space s.kind _ h.3 h.0.2)
      (structure_text-Ends s.kind s.role s.health_url h.2.3)

structure_text-Lacks : (s : Structure) → IsStructure s → Lacks semicolon (structure_text s)
structure_text-Lacks s h =
    All-append (λ c. c ≢ semicolon) s.kind _ h.0.0
      (
        (λ e. omega arith),
        All-append (λ c. c ≢ semicolon) s.role _ h.1.0 ((λ e. omega arith), h.2.0),
      )

with_kind-kind :
    (kind : Bytes) (fields : List Bytes) (later : List Structure)
    → kind ≢ []
    → with_kind kind fields later
      ≡ record { kind = kind; role = first_field fields; health_url = second_field fields } ∷ later
with_kind-kind [] fields later h = absurd (h refl)
with_kind-kind (c ∷ kind) fields later h = refl

trim-field : (s : Bytes) → IsField s → trim_space s ≡ s
trim-field s h = trim_lem is_space s h.2 h.3

add_fields-structure :
    (s : Structure) (later : List Structure)
    → IsStructure s
    → add_fields (s.kind ∷ s.role ∷ s.health_url ∷ []) later ≡ s ∷ later
unfolding add_fields
add_fields-structure s later h = rw (
  trim-field s.kind h.0,
  with_kind-kind s.kind (s.role ∷ s.health_url ∷ []) later h.3,
  trim-field s.role h.1,
  trim-field s.health_url h.2,
)

add_entry-fields :
    (entry : Bytes) (later : List Structure)
    → entry ≢ []
    → add_entry entry later ≡ add_fields (split entry bar) later
add_entry-fields [] later h = absurd (h refl)
add_entry-fields (c ∷ entry) later h = refl

structure_text-ne-nil :
    (a : Bytes) (rest : List Bytes) (b : Bytes) → a ≢ [] → join bar a (b ∷ rest) ≢ []
structure_text-ne-nil [] rest b h = absurd (h refl)
structure_text-ne-nil (c ∷ a) rest b h = λ e. cc

add_entry-structure :
    (s : Structure) (later : List Structure)
    → IsStructure s
    → add_entry (trim_space (structure_text s)) later ≡ s ∷ later
add_entry-structure s later h =
    rw
      (
        trim-structure_text s h,
        add_entry-fields (structure_text s) later
            (structure_text-ne-nil s.kind (s.health_url ∷ []) s.role h.3),
        split-join bar s.kind (s.role ∷ s.health_url ∷ []) h.0.1 (h.1.1, (h.2.1, tt)),
      )
      (add_fields-structure s later h)

read_entries-map :
    (ss : List Structure) → All IsStructure ss → read_entries (map structure_text ss) ≡ ss
unfolding read_entries
read_entries-map [] h = refl
read_entries-map (s ∷ ss) h =
    add_entry-structure s (read_entries (map structure_text ss)) h.0
    ∙ ap (λ later. s ∷ later) (read_entries-map ss h.1)

All-Lacks :
    (ss : List Structure) → All IsStructure ss → All (Lacks semicolon) (map structure_text ss)
All-Lacks [] h = tt
All-Lacks (s ∷ ss) h = (structure_text-Lacks s h.0, All-Lacks ss h.1)

-- The configuration `kind|role|url;…` of structures whose fields hold no `;` and no `|` and have no
-- blank at an end, with kinds that are not empty, is read as exactly these structures, in order.
pub parse_structures-join :
    (s : Structure) (ss : List Structure)
    → All IsStructure (s ∷ ss)
    → parse_structures (join semicolon (structure_text s) (map structure_text ss)) ≡ s ∷ ss
unfolding parse_structures
parse_structures-join s ss h =
    rw
      (split-join semicolon (structure_text s) (map structure_text ss) (structure_text-Lacks s h.0)
        (All-Lacks ss h.1))
      (read_entries-map (s ∷ ss) h)
