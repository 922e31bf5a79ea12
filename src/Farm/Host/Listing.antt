-- ===== src/Farm/Host/Listing.antt =====
-- The host keeps its buildings under their own ids, and describes each (`List` of
-- services/workplaces/farm/internal/farm/host.go), over in-memory stores.
use pipsim.Common.{
  ℕ, ◌≡◌, ◌≢◌, refl, inl, inr, Bool-cases, some, List, [], ◌∷◌, map, arith, All, All-mono, nat_eq,
  leb,
}
use pipsim.Common.Tests.{==_iff, ℕ-Eq}
use pipsim.Common.Assoc.{Assoc, lookup, insert, lookup-insert, IsMap}
use pipsim.Connect.{ok}
use pipsim.Farm.Shifts.{ShiftSet, count}
use pipsim.Farm.Store.{mem_store}
use pipsim.Farm.Service.{Service, description, max_workers, food_price}
use pipsim.Farm.Service
use pipsim.Farm.Host.{Host, resolve, forward, ids, insert_sorted, sort_ids}

-- The host keeps the building under its own id.
abbrev pub Hosts : Host ShiftSet → ℕ → Type 0
Hosts h id = (id ≢ 0) × (b : Service ShiftSet) × (lookup id h.buildings ≡ some b) × (b.id ≡ id)

pub resolve-Hosts :
    (h : Host ShiftSet) (id : ℕ) (b : Service ShiftSet)
    → id ≢ 0
    → lookup id h.buildings ≡ some b
    → resolve id h ≡ ok b
unfolding resolve
resolve-Hosts h id b nonzero e = rw e (elim (Bool-cases (nat_eq id 0)) [
  | inl zero_id ↦ absurd (nonzero (ground arith))
  | inr other ↦ rw other refl
])

-- The host after the building has described itself.
abbrev pub shown : Host ShiftSet → Service ShiftSet → Host ShiftSet
shown h b = record h { buildings = insert b.id b h.buildings }

pub forward-describe :
    (now : ℕ) (h : Host ShiftSet) (id : ℕ) (b : Service ShiftSet)
    → resolve id h ≡ ok b
    → forward mem_store id (Service.describe mem_store now) h
      ≡ (shown h b, ok (description b.id (count b.store)))
unfolding forward Service.describe
forward-describe now h id b found = rw (found, forward) refl

pub shown-Hosts :
    (h : Host ShiftSet) (b : Service ShiftSet) (other : ℕ) → Hosts h other → Hosts (shown h b) other
shown-Hosts h b other (nonzero, c, found, own) = elim (Bool-cases (nat_eq b.id other)) [
  | inl same ↦ (nonzero, b, ground (arith, lookup-insert b.id other b h.buildings), ground arith)
  | inr differs ↦ (nonzero, c, ground (arith, lookup-insert b.id other b h.buildings), own)
]

insert_sorted-All :
    (P : ℕ → Type 0) (a : ℕ) (l : List ℕ) → P a → All P l → All P (insert_sorted a l)
unfolding insert_sorted
insert_sorted-All P a [] p h = (p, tt)
insert_sorted-All P a (b ∷ l) p (q, h) = elim (Bool-cases (leb a b)) [
  | inl before ↦ rw (before, insert_sorted) (p, (q, h))
  | inr behind ↦ rw (behind, insert_sorted) (q, insert_sorted-All P a l p h)
]

sort_ids-All : (P : ℕ → Type 0) (l : List ℕ) → All P l → All P (sort_ids l)
unfolding sort_ids
sort_ids-All P [] h = tt
sort_ids-All P (a ∷ l) (p, h) = insert_sorted-All P a (sort_ids l) p (sort_ids-All P l h)

-- Each entry is what the map holds for its key.
entries-lookup :
    (entries : Assoc ℕ (Service ShiftSet))
    → IsMap entries
    → All (λ (e : ℕ × Service ShiftSet). lookup e.0 entries ≡ some e.1) entries
unfolding lookup
entries-lookup [] h = tt
entries-lookup (e ∷ entries) (fresh, h) = (
  ground arith,
  All-mono (λ (d : ℕ × Service ShiftSet) found. ground (arith, ==_iff e.0 d.0)) entries
      (entries-lookup entries h),
)

-- A host as `NewHost` makes it: its buildings are kept under their own ids, and none is 0.
abbrev pub IsHost : Host ShiftSet → Type 0
IsHost h =
    IsMap h.buildings × All (λ (e : ℕ × Service ShiftSet). (e.0 ≢ 0) × (e.1.id ≡ e.0)) h.buildings

entries-Hosts :
    (h : Host ShiftSet) (entries : Assoc ℕ (Service ShiftSet))
    → All (λ (e : ℕ × Service ShiftSet). lookup e.0 h.buildings ≡ some e.1) entries
    → All (λ (e : ℕ × Service ShiftSet). (e.0 ≢ 0) × (e.1.id ≡ e.0)) entries
    → All (Hosts h) (map (λ (e : ℕ × Service ShiftSet). e.0) entries)
entries-Hosts h [] found own = tt
entries-Hosts h (e ∷ entries) (first, found) ((nonzero, same), own) =
    ((nonzero, e.1, first, same), entries-Hosts h entries found own)

pub ids-Hosts : (h : Host ShiftSet) → IsHost h → All (Hosts h) (ids h)
unfolding ids
ids-Hosts h (is_map, own) =
    sort_ids-All (Hosts h) (map (λ (e : ℕ × Service ShiftSet). e.0) h.buildings)
      (entries-Hosts h h.buildings (entries-lookup h.buildings is_map) own)
