-- ===== src/Farm/Host/Refusals.antt =====
-- Offers that a host refuses (`ConsiderOffer` of services/workplaces/farm/internal/farm/host.go),
-- over in-memory stores.
use pipsim.Common.{
  ℕ, suc, zero, ◌+◌, ◌-◌, ◌%◌, ◌≤◌, ◌<◌, ◌≡◌, ◌≢◌, ◌⊎◌, ap, sym, ◌∙◌, false, none, some, List, [],
  ◌∷◌, inl, inr, arith, All, All-mono, Bool-cases, nat_eq, leb, length, get_elem?, map,
}
use native.Mathlib.Nat.{mod-lt, mod-eq_of_lt, mod-add-mod, add-mod_right}
use pipsim.Common.Tests.{ℕ-Eq, nat_eq_iff}
use pipsim.Common.Strings.{Bytes, bytes}
use pipsim.Common.Assoc.{Assoc, lookup, lookup-insert, IsMap}
use pipsim.Connect.{Reply-cases, ok}
use pipsim.Farm.Shifts.{ShiftSet, claim, live}
use pipsim.Farm.Shifts.Capacity.{held, claim_decides}
use pipsim.Farm.Store.{mem_store}
use pipsim.Farm.Service.{Service}
use pipsim.Farm.Host.{
  Host, resolve, or_zero, try_buildings, consider, ids, insert_sorted, sort_ids, rotation,
}
use pipsim.Farm.Host.Listing.{resolve-Hosts}
use pipsim.Farm.Host.Offers.{
  try_missing, try_taken, try_declined, answered, next_reason, List-cases,
}

-- The i-th place of the rotation, counted from any start.
at_place : ℕ → List ℕ → ℕ → ℕ
at_place start all i = or_zero (get_elem? all ((start + i) % length all))

rotation-All :
    (P : ℕ → Type 0) (rounds start i : ℕ) (all : List ℕ)
    → All P (rotation rounds start i all)
    → (k : ℕ) → i ≤ k
    → k < i + rounds
    → P (at_place start all k)
unfolding rotation at_place
rotation-All P zero start i all h k le lt = absurd (omega arith)
rotation-All P (suc rounds) start i all (first, h) k le lt = elim (Bool-cases (nat_eq i k)) [
  | inl same ↦ rw (← (nat_eq_iff i k).0 same) first
  | inr later ↦ rotation-All P rounds start (i + 1) all h k (ground arith) (ground arith)
]

-- A remainder, taken on by a number, is that of the number taken on.
step_mod : (n start k j : ℕ) → start % n + k ≡ j → (start + k) % n ≡ j % n
step_mod n start k j e = sym (mod-add-mod start n k) ∙ ap (λ x. x % n) e

-- Every place comes up within one turn.
turn : (n start j : ℕ) → j < n → (k : ℕ) × (k < n) × ((start + k) % n ≡ j)
turn n start j lt = elim (Bool-cases (leb (start % n) j)) [
  | inl ahead ↦ (
    j - start % n,
    ground arith,
    step_mod n start (j - start % n) j (ground arith) ∙ mod-eq_of_lt lt,
  )
  | inr behind ↦
      let small : start % n < n = mod-lt start (omega arith) in
      (
        j + n - start % n,
        ground arith,
        step_mod n start (j + n - start % n) (j + n) (ground arith)
            ∙ (add-mod_right j n ∙ mod-eq_of_lt lt),
      )
]

get_elem?-All :
    (P : ℕ → Type 0) (all : List ℕ)
    → ((j : ℕ) → j < length all → P (or_zero (get_elem? all j)))
    → All P all
get_elem?-All P [] h = tt
get_elem?-All P (a ∷ all) h =
    (h 0 (omega arith), get_elem?-All P all (λ j lt. h (suc j) (omega arith)))

-- What holds along one turn of the rotation holds of every id.
rotation-covers :
    (P : ℕ → Type 0) (start : ℕ) (all : List ℕ)
    → All P (rotation (length all) start 0 all)
    → All P all
unfolding at_place
rotation-covers P start all h = get_elem?-All P all (λ j lt.
    let (k, small, e) = turn (length all) start j lt in
    rw e at (rotation-All P (length all) start 0 all h k (omega arith) (omega arith)))

-- The building under this id, if there is one, refuses the pip.
abbrev Refuses : ℕ → ℕ → ℕ → Host ShiftSet → ℕ → Type 0
Refuses pip tick now h id =
    (b : Service ShiftSet)
    → id ≢ 0
    → lookup id h.buildings ≡ some b
    → (claim pip tick now b.store).1 ≡ false

module _ (pip tick now : ℕ) where
  resolved-Refuses :
      (id : ℕ) (h : Host ShiftSet) (b : Service ShiftSet)
      → resolve id h ≡ ok b
      → (claim pip tick now b.store).1 ≡ false
      → Refuses pip tick now h id
  resolved-Refuses id h b e declined c nonzero found =
      let same : b ≡ c = ground (arith, resolve-Hosts h id c nonzero found, e) in
      rw (← same) declined

  answered-Refuses :
      (r : Bytes) (id : ℕ) (rest : List ℕ) (h : Host ShiftSet) (b : Service ShiftSet) (other : ℕ)
      → Refuses pip tick now h id
      → Refuses pip tick now (answered pip tick now r id rest h b) other
      → Refuses pip tick now h other
  answered-Refuses r id rest h b other first later c nonzero found =
      elim (Bool-cases (nat_eq id other)) [
        | inl same ↦
            let e : id ≡ other = (nat_eq_iff id other).0 same in
            first c (ground arith) (ground (arith, found, e))
        | inr differs ↦ later c nonzero (
            lookup-insert id other (record b { store = (claim pip tick now b.store).0 }) h.buildings
            ∙ rw differs found)
      ]

  try_buildings-Refuses :
      (r : Bytes) (tried : List ℕ) (h : Host ShiftSet)
      → (try_buildings mem_store pip tick now r tried h).1 ≡ false
      → All (Refuses pip tick now h) tried
  unfolding try_buildings
  try_buildings-Refuses r [] h refused = tt
  try_buildings-Refuses r (id ∷ rest) h refused = elim (Reply-cases (resolve id h)) [
    | inl (c, e) ↦ (
      λ b nonzero found. ground (arith, resolve-Hosts h id b nonzero found, e),
      try_buildings-Refuses r rest h (rw (try_missing pip tick now r id rest h c e) at refused),
    )
    | inr (b, e) ↦ elim (Bool-cases (claim pip tick now b.store).1) [
      | inl taken ↦ cc (rw (try_taken pip tick now r id rest h b e taken) at refused)
      | inr declined ↦
          let first = resolved-Refuses id h b e declined in
          (
            first,
            All-mono (λ other. answered-Refuses r id rest h b other first) rest
                (try_buildings-Refuses (next_reason pip tick now r id rest h b) rest
                  (answered pip tick now r id rest h b)
                  (rw (try_declined pip tick now r id rest h b e declined) at refused)),
          )
    ]
  ]

  consider-Refuses :
      (h : Host ShiftSet)
      → (consider mem_store pip tick now h).1 ≡ false
      → All (Refuses pip tick now h) (ids h)
  unfolding consider
  consider-Refuses h refused = elim (List-cases (ids h)) [
    | inl e ↦ rw e tt
    | inr (id, rest, e) ↦ rw e (
        rotation-covers (Refuses pip tick now h) h.next (id ∷ rest) (
          try_buildings-Refuses (bytes "no free positions")
            (rotation (length (id ∷ rest)) h.next 0 (id ∷ rest)) (record h { next = h.next + 1 })
            (rw (e, consider) at refused)))
  ]

All-insert_sorted :
    (P : ℕ → Type 0) (a : ℕ) (l : List ℕ) → All P (insert_sorted a l) → P a × All P l
unfolding insert_sorted
All-insert_sorted P a [] h = h
All-insert_sorted P a (b ∷ l) h = elim (Bool-cases (leb a b)) [
  | inl before ↦ rw before at h
  | inr behind ↦
      let (q, later) = rw behind at h in
      let (p, rest) = All-insert_sorted P a l later in (p, (q, rest))
]

All-sort_ids : (P : ℕ → Type 0) (l : List ℕ) → All P (sort_ids l) → All P l
unfolding sort_ids
All-sort_ids P [] h = tt
All-sort_ids P (a ∷ l) h =
    let (p, rest) = All-insert_sorted P a (sort_ids l) h in (p, All-sort_ids P l rest)

All-lookup :
    (P : ℕ → Type 0) (id : ℕ) (b : Service ShiftSet) (entries : Assoc ℕ (Service ShiftSet))
    → All P (map (λ (e : ℕ × Service ShiftSet). e.0) entries)
    → lookup id entries ≡ some b
    → P id
unfolding lookup
All-lookup P id b [] h found = cc
All-lookup P id b (e ∷ entries) (first, h) found = elim (Bool-cases (nat_eq e.0 id)) [
  | inl same ↦ rw (← (nat_eq_iff e.0 id).0 same) first
  | inr other ↦ All-lookup P id b entries h (rw other at found)
]

-- A host that keeps its shifts in memory refuses an offer only if every one of its buildings,
-- whichever the rotation starts with, holds a running shift for this pip or has as many running
-- shifts as positions. Ids are not 0.
pub consider-refused :
    (pip tick now : ℕ) (h : Host ShiftSet) (id : ℕ) (b : Service ShiftSet)
    → (consider mem_store pip tick now h).1 ≡ false
    → id ≢ 0
    → lookup id h.buildings ≡ some b
    → IsMap b.store.shifts
    → (held now b.store.lease (lookup pip b.store.shifts) ≢ none)
      ⊎ (b.store.max ≤ length (live now b.store.lease b.store.shifts))
unfolding ids
consider-refused pip tick now h id b refused nonzero found is_map =
    let declined : (claim pip tick now b.store).1 ≡ false =
      All-lookup (Refuses pip tick now h) id b h.buildings
        (All-sort_ids (Refuses pip tick now h) _ (consider-Refuses pip tick now h refused)) found b
        nonzero found in
    elim (claim_decides pip tick now (suc pip) b.store is_map (omega arith)).1 [
      | inl (_, _, accepted, _) ↦ ground arith
      | inr (_, _, inl (working, _)) ↦ inl working
      | inr (_, _, inr (_, full, _)) ↦ inr full
    ]
