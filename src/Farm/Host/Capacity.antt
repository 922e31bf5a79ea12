-- ===== src/Farm/Host/Capacity.antt =====
-- The positions of a host's buildings under offers (`ConsiderOffer` of
-- services/workplaces/farm/internal/farm/host.go), over in-memory stores.
use pipsim.Common.{
  ℕ, ◌+◌, ◌≡◌, some, List, [], ◌∷◌, inl, inr, arith, All, Bool-cases, Option-cases, nat_eq, length,
}
use pipsim.Common.Tests.{ℕ-Eq}
use pipsim.Common.Strings.{Bytes, bytes}
use pipsim.Common.Assoc.{Assoc, lookup, insert}
use pipsim.Connect.{Reply-cases, ok}
use pipsim.Farm.Shifts.{ShiftSet, claim, claims, after}
use pipsim.Farm.Shifts.Capacity.{IsWithin, after-IsWithin}
use pipsim.Farm.Store.{mem_store}
use pipsim.Farm.Service.{Service}
use pipsim.Farm.Host.{Host, resolve, only, try_buildings, consider, ids, rotation}
use pipsim.Farm.Host.Offers.{
  try_missing, try_taken, try_declined, answered, next_reason, List-cases,
}

-- No building of the host has more shifts than positions.
abbrev pub AllWithin : Host ShiftSet → Type 0
AllWithin h = All (λ (e : ℕ × Service ShiftSet). IsWithin e.1.store) h.buildings

insert-AllWithin :
    (id : ℕ) (b : Service ShiftSet) (buildings : Assoc ℕ (Service ShiftSet))
    → IsWithin b.store
    → All (λ (e : ℕ × Service ShiftSet). IsWithin e.1.store) buildings
    → All (λ (e : ℕ × Service ShiftSet). IsWithin e.1.store) (insert id b buildings)
unfolding insert
insert-AllWithin id b [] within h = (within, tt)
insert-AllWithin id b (e ∷ buildings) within (first, h) = elim (Bool-cases (nat_eq e.0 id)) [
  | inl same ↦ rw same (within, h)
  | inr other ↦ rw other (first, insert-AllWithin id b buildings within h)
]

lookup-AllWithin :
    (id : ℕ) (b : Service ShiftSet) (buildings : Assoc ℕ (Service ShiftSet))
    → lookup id buildings ≡ some b
    → All (λ (e : ℕ × Service ShiftSet). IsWithin e.1.store) buildings
    → IsWithin b.store
unfolding lookup
lookup-AllWithin id b [] found h = cc
lookup-AllWithin id b (e ∷ buildings) found h = ground (arith, lookup-AllWithin id b buildings)

only-AllWithin :
    (b : Service ShiftSet) (buildings : Assoc ℕ (Service ShiftSet))
    → only buildings ≡ ok b
    → All (λ (e : ℕ × Service ShiftSet). IsWithin e.1.store) buildings
    → IsWithin b.store
only-AllWithin b [] found h = ground arith
only-AllWithin b (e ∷ []) found h = ground arith
only-AllWithin b (e ∷ (f ∷ rest)) found h = ground arith

resolve-AllWithin :
    (id : ℕ) (b : Service ShiftSet) (h : Host ShiftSet)
    → resolve id h ≡ ok b
    → AllWithin h
    → IsWithin b.store
unfolding resolve
resolve-AllWithin id b h found within = elim (Bool-cases (nat_eq id 0)) [
  | inl single ↦ only-AllWithin b h.buildings (rw single at found) within
  | inr named ↦ elim (Option-cases (lookup id h.buildings)) [
    | inl missing ↦ ground arith
    | inr (c, e) ↦
        let same : c ≡ b = ground arith in rw (← same) (lookup-AllWithin id c h.buildings e within)
  ]
]

answered-AllWithin :
    (pip tick now : ℕ) (reason : Bytes) (id : ℕ) (rest : List ℕ) (h : Host ShiftSet)
    (b : Service ShiftSet)
    → resolve id h ≡ ok b
    → AllWithin h
    → AllWithin (answered pip tick now reason id rest h b)
unfolding after
answered-AllWithin pip tick now reason id rest h b found within =
    insert-AllWithin id (record b { store = (claim pip tick now b.store).0 }) h.buildings
      (after-IsWithin (claims pip tick now) b.store (resolve-AllWithin id b h found within)) within

try_buildings-AllWithin :
    (pip tick now : ℕ) (reason : Bytes) (tried : List ℕ) (h : Host ShiftSet)
    → AllWithin h
    → AllWithin (try_buildings mem_store pip tick now reason tried h).0
unfolding try_buildings
try_buildings-AllWithin pip tick now r [] h within = within
try_buildings-AllWithin pip tick now r (id ∷ rest) h within = elim (Reply-cases (resolve id h)) [
  | inl (c, e) ↦
      rw (try_missing pip tick now r id rest h c e)
        (try_buildings-AllWithin pip tick now r rest h within)
  | inr (b, e) ↦
      let after = answered-AllWithin pip tick now r id rest h b e within in
      elim (Bool-cases (claim pip tick now b.store).1) [
        | inl taken ↦ rw (try_taken pip tick now r id rest h b e taken) after
        | inr declined ↦ rw (try_declined pip tick now r id rest h b e declined) (
            try_buildings-AllWithin pip tick now (next_reason pip tick now r id rest h b) rest
              (answered pip tick now r id rest h b) after)
      ]
]

-- An offer leaves every building within its positions.
pub consider-AllWithin :
    (pip tick now : ℕ) (h : Host ShiftSet)
    → AllWithin h
    → AllWithin (consider mem_store pip tick now h).0
unfolding consider
consider-AllWithin pip tick now h within = elim (List-cases (ids h)) [
  | inl e ↦ rw (e, consider) within
  | inr (id, rest, e) ↦
      rw (e, consider)
        (try_buildings-AllWithin pip tick now (bytes "no free positions")
          (rotation (length (id ∷ rest)) h.next 0 (id ∷ rest)) (record h { next = h.next + 1 })
          within)
]
