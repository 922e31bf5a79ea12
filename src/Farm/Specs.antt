-- ===== src/Farm/Specs.antt =====
-- The farm's configuration: `Spec` and ParseSpecs of
-- services/workplaces/farm/internal/farm/host.go.
use pipsim.Common.{
  ℕ, ◌+◌, ◌≡◌, ◌≢◌, ◌<◌, refl, Option, none, some, List, [], ◌∷◌, ◌++◌, nat_eq, if◌then◌else◌,
  arith, All, inl, inr, Bool-cases, map, length, All-append,
}
use pipsim.Common.Words.{word_size}
use pipsim.Common.Strings.{Bytes, decimal, decimal-All-IsDigit, IsDigit}
use pipsim.Common.Text.{
  split, trim_space, is_space, parse_uint, join, Lacks, decimal-Lacks, Drops, Keeps, split-join,
  trim-between, parse_uint-decimal, parse_uint-lt, decimal-ne-nil,
}

pub record Spec : Type 0 where
  pub id : ℕ

abbrev pub comma : ℕ
comma = b','

abbrev pub checked_id : Option ℕ → Option ℕ
checked_id none = none
checked_id (some id) = if nat_eq id 0 then none else some id

abbrev pub add_spec : Option ℕ → Option (List Spec) → Option (List Spec)
add_spec none specs = none
add_spec (some id) none = none
add_spec (some id) (some specs) = some (record { id = id } ∷ specs)

-- A blank part is passed over, and a part that is no id is an error.
unfoldable pub read_part : Bytes → Option (List Spec) → Option (List Spec)
read_part [] specs = specs
read_part (c ∷ text) specs = add_spec (checked_id (parse_uint (c ∷ text))) specs

-- The loop over the parts.
unfoldable pub read_parts : List Bytes → Option (List Spec)
unfolding read_part
read_parts [] = some []
read_parts (part ∷ parts) = read_part (trim_space part) (read_parts parts)

abbrev pub not_empty : Option (List Spec) → Option (List Spec)
not_empty (some (s ∷ specs)) = some (s ∷ specs)
not_empty (some []) = none
not_empty none = none

-- `none` is an error.
unfoldable pub parse_specs : Bytes → Option (List Spec)
unfolding read_parts
parse_specs raw = not_empty (read_parts (split raw comma))

-- An id, with the blanks before and after it in a configuration.
pub record Entry : Type 0 where
  pub before : Bytes
  pub id : ℕ
  pub behind : Bytes

abbrev pub entry_text : Entry → Bytes
entry_text e = e.before ++ (decimal e.id ++ e.behind)

abbrev pub IsEntry : Entry → Type 0
IsEntry e = Drops is_space e.before × Drops is_space e.behind × (e.id ≢ 0) × (e.id < word_size)

IsDigit-Keeps : (s : Bytes) → All IsDigit s → Keeps is_space s
IsDigit-Keeps [] h = tt
IsDigit-Keeps (c ∷ s) h = (ground arith, IsDigit-Keeps s h.1)

trim-entry_text : (e : Entry) → IsEntry e → trim_space (entry_text e) ≡ decimal e.id
trim-entry_text e h =
    trim-between is_space e.before (decimal e.id) e.behind h.0
      (IsDigit-Keeps (decimal e.id) (decimal-All-IsDigit e.id)) (decimal-ne-nil e.id) h.1

Drops-Lacks : (s : Bytes) → Drops is_space s → Lacks comma s
Drops-Lacks [] h = tt
Drops-Lacks (c ∷ s) h = (ground arith, Drops-Lacks s h.1)

decimal-Lacks-comma : (n : ℕ) → Lacks comma (decimal n)
decimal-Lacks-comma n = decimal-Lacks comma n (λ c digit. omega (arith, digit))

entry_text-Lacks : (e : Entry) → IsEntry e → Lacks comma (entry_text e)
entry_text-Lacks e h =
    All-append (λ c. c ≢ comma) e.before (decimal e.id ++ e.behind) (Drops-Lacks e.before h.0)
      (All-append (λ c. c ≢ comma) (decimal e.id) e.behind (decimal-Lacks-comma e.id)
        (Drops-Lacks e.behind h.1))

abbrev pub spec_of : Entry → Spec
spec_of e = record { id = e.id }

read_part-parse_uint :
    (s : Bytes) (rest : Option (List Spec))
    → s ≢ []
    → read_part s rest ≡ add_spec (checked_id (parse_uint s)) rest
unfolding read_part
read_part-parse_uint [] rest h = absurd (h refl)
read_part-parse_uint (c ∷ s) rest h = refl

read_parts-entry :
    (e : Entry) (parts : List Bytes) (specs : List Spec)
    → IsEntry e
    → read_parts parts ≡ some specs
    → read_parts (entry_text e ∷ parts) ≡ some (spec_of e ∷ specs)
unfolding read_parts
read_parts-entry e parts specs h rest =
    rw
      (
        trim-entry_text e h,
        read_part-parse_uint (decimal e.id) (read_parts parts) (decimal-ne-nil e.id),
        parse_uint-decimal e.id h.3,
        rest,
      )
      (ground arith)

read_parts-entries :
    (es : List Entry) → All IsEntry es → read_parts (map entry_text es) ≡ some (map spec_of es)
read_parts-entries [] h = unfold read_parts in refl
read_parts-entries (e ∷ es) h =
    read_parts-entry e (map entry_text es) (map spec_of es) h.0 (read_parts-entries es h.1)

All-Lacks : (es : List Entry) → All IsEntry es → All (Lacks comma) (map entry_text es)
All-Lacks [] h = tt
All-Lacks (e ∷ es) h = (entry_text-Lacks e h.0, All-Lacks es h.1)

-- A configuration of one or more uint64 ids above zero, with commas between them and any blanks
-- around them, is read as these ids, in their order.
pub parse_specs-join :
    (e : Entry) (es : List Entry)
    → All IsEntry (e ∷ es)
    → parse_specs (join comma (entry_text e) (map entry_text es))
      ≡ some (spec_of e ∷ map spec_of es)
unfolding parse_specs
parse_specs-join e es h = rw (
  split-join comma (entry_text e) (map entry_text es) (entry_text-Lacks e h.0) (All-Lacks es h.1),
  read_parts-entry e (map entry_text es) (map spec_of es) h.0 (read_parts-entries es h.1),
)

-- The parts that are not blank.
abbrev pub counts_one : Bytes → ℕ
counts_one [] = 0
counts_one (c ∷ s) = 1

abbrev pub named : List Bytes → ℕ
named [] = 0
named (p ∷ ps) = counts_one (trim_space p) + named ps

abbrev pub IsUsable : Spec → Type 0
IsUsable s = (s.id ≢ 0) × (s.id < word_size)

-- A reading that kept `n` parts.
abbrev Reads : ℕ → Option (List Spec) → Type 0
Reads n none = Unit
Reads n (some specs) = (length specs ≡ n) × All IsUsable specs

add_spec-Reads :
    (n : ℕ) (id : Option ℕ) (rest : Option (List Spec))
    → ((i : ℕ) → id ≡ some i → i < word_size)
    → Reads n rest
    → Reads (1 + n) (add_spec (checked_id id) rest)
add_spec-Reads n none rest small h = tt
add_spec-Reads n (some id) none small h = elim (Bool-cases (nat_eq id 0)) [
  | inl e ↦ rw e tt
  | inr e ↦ rw e tt
]
add_spec-Reads n (some id) (some specs) small h = elim (Bool-cases (nat_eq id 0)) [
  | inl e ↦ rw e tt
  | inr e ↦ rw e (omega (arith, h.0), ((ground arith, small id refl), h.1))
]

read_part-Reads :
    (n : ℕ) (s : Bytes) (rest : Option (List Spec))
    → Reads n rest
    → Reads (counts_one s + n) (read_part s rest)
unfolding read_part
read_part-Reads n [] rest h = let same : 0 + n ≡ n = omega arith in rw same h
read_part-Reads n (c ∷ s) rest h =
    add_spec-Reads n (parse_uint (c ∷ s)) rest (parse_uint-lt (c ∷ s)) h

read_parts-Reads : (parts : List Bytes) → Reads (named parts) (read_parts parts)
unfolding read_parts
read_parts-Reads [] = (refl, tt)
read_parts-Reads (p ∷ ps) =
    read_part-Reads (named ps) (trim_space p) (read_parts ps) (read_parts-Reads ps)

not_empty-Reads :
    (n : ℕ) (r : Option (List Spec)) (specs : List Spec)
    → Reads n r
    → not_empty r ≡ some specs
    → (length specs ≡ n) × (0 < n) × All IsUsable specs
not_empty-Reads n none specs h e = cc
not_empty-Reads n (some []) specs h e = cc
not_empty-Reads n (some (s ∷ ss)) specs h e =
    let same : s ∷ ss ≡ specs = cc in rw (← same) (h.0, omega (arith, h.0), h.1)

-- A configuration that is accepted yields one building for every part that is not blank, so none is
-- dropped by a typing error; there is one at least, and each id is a uint64 above zero.
pub parse_specs-strict :
    (raw : Bytes) (specs : List Spec)
    → parse_specs raw ≡ some specs
    → (length specs ≡ named (split raw comma)) × (0 < named (split raw comma)) × All IsUsable specs
unfolding parse_specs
parse_specs-strict raw specs h =
    not_empty-Reads (named (split raw comma)) (read_parts (split raw comma)) specs
      (read_parts-Reads (split raw comma)) h
