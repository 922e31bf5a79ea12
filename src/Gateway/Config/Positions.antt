-- ===== src/Gateway/Config/Positions.antt =====
-- The text of the variable WORKPLACE_POSITIONS (workplacePositions of
-- services/world-gateway/cmd/gateway/main.go).
use pipsim.Common.{
  ℕ, ◌≡◌, ◌≢◌, ◌<◌, ◌+◌, ◌-◌, refl, ap, sym, ◌∙◌, false, some, List, [], ◌∷◌, ◌++◌, arith, All,
  All-mono, All-append, map, inl, inr, Bool-cases, ltb, nat_eq,
}
use mathlib.Core.List.{append-nil}
use pipsim.Common.Env.{Env, getenv, signed, parse_int-signed}
use pipsim.Common.Tests.{ℕ-Eq}
use pipsim.Common.Words.{word_size}
use pipsim.Common.Strings.{Bytes, bytes, decimal, decimal-All-IsDigit}
use pipsim.Common.Text.{
  split, trim_space, trim-between, is_space, join, Lacks, Keeps, split-join, parse_uint-decimal,
  decimal-ne-nil,
}
use pipsim.Common.Assoc.{Assoc, insert}
use pipsim.Economy.Registration.{Position}
use pipsim.Gateway.Config.{
  comma, colon, int32_limit, add_position, read_part, read_positions, positions_from,
  workplace_positions,
}

-- A building's id and where it stands.
pub record Placed : Type 0 where
  pub id : ℕ
  pub position : Position

abbrev pub IsPlaced : Placed → Type 0
IsPlaced p =
    (p.id ≢ 0)
    × (p.id < word_size)
    × (p.position.x_milli < int32_limit + int32_limit)
    × (p.position.y_milli < int32_limit + int32_limit)

-- `id:x:y`
abbrev pub placed_text : Placed → Bytes
placed_text p =
    join colon (decimal p.id)
      (signed int32_limit p.position.x_milli ∷ signed int32_limit p.position.y_milli ∷ [])

abbrev pub place_all : List Placed → Assoc ℕ Position → Assoc ℕ Position
place_all [] out = out
place_all (p ∷ ps) out = place_all ps (insert p.id p.position out)

-- A digit or a minus.
abbrev IsMark : ℕ → Type 0
IsMark c = (c ≢ comma) × (c ≢ colon) × (is_space c ≡ false)

decimal-All-IsMark : (n : ℕ) → All IsMark (decimal n)
decimal-All-IsMark n =
    All-mono (λ c digit. (omega (arith, digit), omega (arith, digit), ground arith)) (decimal n)
      (decimal-All-IsDigit n)

signed-All-IsMark : (n : ℕ) → All IsMark (signed int32_limit n)
unfolding signed
signed-All-IsMark n = elim (Bool-cases (ltb n int32_limit)) [
  | inl positive ↦ rw positive (decimal-All-IsMark n)
  | inr negative ↦
      rw negative
        ((omega arith, omega arith, refl), decimal-All-IsMark (int32_limit + int32_limit - n))
]

signed-ne-nil : (n : ℕ) → signed int32_limit n ≢ []
unfolding signed
signed-ne-nil n e = elim (Bool-cases (ltb n int32_limit)) [
  | inl positive ↦ decimal-ne-nil n (rw positive at e)
  | inr negative ↦ (cc (rw negative at e))
]

trim-Keeps : (s : Bytes) → s ≢ [] → Keeps is_space s → trim_space s ≡ s
trim-Keeps s ne h = ap trim_space (sym (append-nil s)) ∙ trim-between is_space [] s [] tt h ne tt

trim-marks : (s : Bytes) → s ≢ [] → All IsMark s → trim_space s ≡ s
trim-marks s ne h = trim-Keeps s ne (All-mono (λ c mark. mark.2) s h)

placed_text-All :
    (P : ℕ → Type 0) (p : Placed) → ((c : ℕ) → IsMark c → P c) → P colon → All P (placed_text p)
placed_text-All P p f sep =
    let x : Bytes = signed int32_limit p.position.x_milli in
    let y : Bytes = signed int32_limit p.position.y_milli in
    All-append P (decimal p.id) (colon ∷ (x ++ (colon ∷ y)))
      (All-mono f (decimal p.id) (decimal-All-IsMark p.id))
      (
        sep,
        All-append P x (colon ∷ y) (All-mono f x (signed-All-IsMark p.position.x_milli))
            (sep, All-mono f y (signed-All-IsMark p.position.y_milli)),
      )

append-ne-nil : (s t : Bytes) → s ≢ [] → s ++ t ≢ []
append-ne-nil [] t ne = absurd (ne refl)
append-ne-nil (c ∷ s) t ne = λ e. cc

placed_text-ne-nil : (p : Placed) → placed_text p ≢ []
placed_text-ne-nil p = append-ne-nil (decimal p.id) _ (decimal-ne-nil p.id)

split-placed_text :
    (p : Placed)
    → split (placed_text p) colon
      ≡ decimal p.id
        ∷ signed int32_limit p.position.x_milli
        ∷ signed int32_limit p.position.y_milli
        ∷ []
split-placed_text p =
    let marks = λ (s : Bytes) (h : All IsMark s). All-mono (λ c (mark : IsMark c). mark.1) s h in
    split-join colon (decimal p.id) _ (marks _ (decimal-All-IsMark p.id)) (
      marks _ (signed-All-IsMark p.position.x_milli),
      (marks _ (signed-All-IsMark p.position.y_milli), tt),
    )

add_position-placed :
    (p : Placed) (out : Assoc ℕ Position)
    → IsPlaced p
    → add_position (split (placed_text p) colon) out ≡ some (insert p.id p.position out)
unfolding add_position
add_position-placed p out h =
    rw
      (
        split-placed_text p,
        trim-marks (decimal p.id) (decimal-ne-nil p.id) (decimal-All-IsMark p.id),
        trim-marks (signed int32_limit p.position.x_milli) (signed-ne-nil p.position.x_milli)
            (signed-All-IsMark p.position.x_milli),
        trim-marks (signed int32_limit p.position.y_milli) (signed-ne-nil p.position.y_milli)
            (signed-All-IsMark p.position.y_milli),
        parse_uint-decimal p.id h.1,
        parse_int-signed int32_limit p.position.x_milli (omega arith) h.2,
        parse_int-signed int32_limit p.position.y_milli (omega arith) h.3,
      )
      (elim (Bool-cases (nat_eq p.id 0)) [
        | inl zero_id ↦ absurd (h.0 (ground arith))
        | inr other ↦ rw other refl
      ])

read_part-add_position :
    (text : Bytes) (out : Assoc ℕ Position)
    → text ≢ []
    → read_part text out ≡ add_position (split text colon) out
unfolding read_part
read_part-add_position [] out ne = absurd (ne refl)
read_part-add_position (c ∷ text) out ne = refl

read_part-placed :
    (p : Placed) (out : Assoc ℕ Position)
    → IsPlaced p
    → read_part (trim_space (placed_text p)) out ≡ some (insert p.id p.position out)
read_part-placed p out h =
    let blank_free = placed_text-All (λ c. is_space c ≡ false) p (λ c mark. mark.2) refl in
    rw (trim-Keeps (placed_text p) (placed_text-ne-nil p) blank_free) (
      read_part-add_position (placed_text p) out (placed_text-ne-nil p)
      ∙ add_position-placed p out h)

read_positions-map :
    (ps : List Placed) (out : Assoc ℕ Position)
    → All IsPlaced ps
    → read_positions (map placed_text ps) out ≡ some (place_all ps out)
unfolding read_positions
read_positions-map [] out h = refl
read_positions-map (p ∷ ps) out (first, h) =
    rw (read_part-placed p out first, read_positions)
      (read_positions-map ps (insert p.id p.position out) h)

positions_from-text :
    (raw : Bytes) → raw ≢ [] → positions_from raw ≡ read_positions (split raw comma) []
positions_from-text [] ne = absurd (ne refl)
positions_from-text (c ∷ raw) ne = refl

join-All :
    (P : ℕ → Type 0) (p : Placed) (ps : List Placed)
    → P comma
    → ((q : Placed) → All P (placed_text q))
    → All P (join comma (placed_text p) (map placed_text ps))
join-All P p [] sep h = h p
join-All P p (q ∷ ps) sep h = All-append P (placed_text p) _ (h p) (sep, join-All P q ps sep h)

join-ne-nil : (p : Placed) (ps : List Placed) → join comma (placed_text p) (map placed_text ps) ≢ []
join-ne-nil p [] = placed_text-ne-nil p
join-ne-nil p (q ∷ ps) = append-ne-nil (placed_text p) _ (placed_text-ne-nil p)

texts-Lack : (ps : List Placed) → All (Lacks comma) (map placed_text ps)
texts-Lack [] = tt
texts-Lack (p ∷ ps) =
    (placed_text-All (λ c. c ≢ comma) p (λ c mark. mark.0) (omega arith), texts-Lack ps)

-- A configuration `id:x:y,…` of one or more uint64 ids above zero with their int32 coordinates,
-- negative ones included, is read as exactly these positions; where an id comes twice, the last one
-- counts.
pub workplace_positions-join :
    (environment : Env) (p : Placed) (ps : List Placed)
    → getenv environment (bytes "WORKPLACE_POSITIONS")
      ≡ join comma (placed_text p) (map placed_text ps)
    → All IsPlaced (p ∷ ps)
    → workplace_positions environment ≡ some (place_all (p ∷ ps) [])
unfolding workplace_positions
workplace_positions-join environment p ps e h =
    let raw : Bytes = join comma (placed_text p) (map placed_text ps) in
    let blank_free : Keeps is_space raw =
      join-All (λ c. is_space c ≡ false) p ps refl
        (λ q. placed_text-All (λ c. is_space c ≡ false) q (λ c mark. mark.2) refl) in
    rw (e, trim-Keeps raw (join-ne-nil p ps) blank_free)
      (positions_from-text raw (join-ne-nil p ps)
        ∙ (ap (λ parts. read_positions parts [])
              (split-join comma (placed_text p) (map placed_text ps) (texts-Lack (p ∷ [])).0
                (texts-Lack ps))
            ∙ read_positions-map (p ∷ ps) [] h))
