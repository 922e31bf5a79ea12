-- ===== src/Farm/Host/Offers.antt =====
-- `ConsiderOffer` of services/workplaces/farm/internal/farm/host.go, over in-memory stores.
use pipsim.Common.{
  ℕ, ◌+◌, ◌≡◌, ◌⊎◌, refl, inl, inr, Bool, true, false, some, List, [], ◌∷◌, arith, Bool-cases,
  if◌then◌else◌, length,
}
use pipsim.Common.Tests.{◌==◌, ℕ-Eq}
use pipsim.Common.Strings.{Bytes, Bytes-Eq, bytes}
use pipsim.Common.Assoc.{lookup, insert, lookup-insert}
use pipsim.Connect.{Reply-cases, ok, err, Code}
use pipsim.Farm.Shifts.{Shift, ShiftSet, claim, take_position, reap}
use pipsim.Farm.Store.{mem_store}
use pipsim.Farm.Service.{Service, consider_offer}
use pipsim.Farm.Host.{Host, resolve, try_buildings, consider, ids, rotation}

abbrev pub new_shift : ℕ → ℕ → Shift
new_shift tick now = record { started_tick = tick; last_work_tick = tick; last_work = now }

claim-holds :
    (pip tick now : ℕ) (s : ShiftSet)
    → (claim pip tick now s).1 ≡ true
    → lookup pip (claim pip tick now s).0.shifts ≡ some (new_shift tick now)
unfolding claim take_position
claim-holds pip tick now s h =
    ground (arith, lookup-insert pip pip (new_shift tick now) (reap now s).shifts)

-- The building that an answer names holds a new shift for the pip; a refusal names none.
abbrev pub Names : ℕ → ℕ → ℕ → Host ShiftSet × Bool × Bytes × ℕ → Type 0
Names pip tick now (h, true, reason, id) =
    (b : Service ShiftSet) × (lookup id h.buildings ≡ some b)
    × (lookup pip b.store.shifts ≡ some (new_shift tick now))
Names pip tick now (h, false, reason, id) = id ≡ 0

module _ (pip tick now : ℕ) (last_reason : Bytes) (id : ℕ) (rest : List ℕ) (h : Host ShiftSet) where
  pub try_missing :
      (c : Code)
      → resolve id h ≡ err c
      → try_buildings mem_store pip tick now last_reason (id ∷ rest) h
        ≡ try_buildings mem_store pip tick now last_reason rest h
  unfolding try_buildings
  try_missing c e = rw (e, try_buildings)

  -- The host after the building `b` has answered.
  abbrev pub answered : Service ShiftSet → Host ShiftSet
  answered b = record h {
    buildings = insert id (record b { store = (claim pip tick now b.store).0 }) h.buildings;
  }

  pub try_taken :
      (b : Service ShiftSet)
      → resolve id h ≡ ok b
      → (claim pip tick now b.store).1 ≡ true
      → try_buildings mem_store pip tick now last_reason (id ∷ rest) h
        ≡ (answered b, true, bytes "", id)
  unfolding try_buildings consider_offer
  try_taken b e taken = rw (e, try_buildings) (rw taken)

  abbrev pub next_reason : Service ShiftSet → Bytes
  next_reason b =
      let reason = (claim pip tick now b.store).2 in
      if reason == bytes "" then last_reason else reason

  pub try_declined :
      (b : Service ShiftSet)
      → resolve id h ≡ ok b
      → (claim pip tick now b.store).1 ≡ false
      → try_buildings mem_store pip tick now last_reason (id ∷ rest) h
        ≡ try_buildings mem_store pip tick now (next_reason b) rest (answered b)
  unfolding try_buildings consider_offer
  try_declined b e declined = rw (e, try_buildings) (rw declined)

try_buildings-Names :
    (pip tick now : ℕ) (last_reason : Bytes) (tried : List ℕ) (h : Host ShiftSet)
    → Names pip tick now (try_buildings mem_store pip tick now last_reason tried h)
unfolding try_buildings
try_buildings-Names pip tick now r [] h = refl
try_buildings-Names pip tick now r (id ∷ rest) h = elim (Reply-cases (resolve id h)) [
  | inl (c, e) ↦
      rw (try_missing pip tick now r id rest h c e) (try_buildings-Names pip tick now r rest h)
  | inr (b, e) ↦ elim (Bool-cases (claim pip tick now b.store).1) [
    | inl taken ↦ rw (try_taken pip tick now r id rest h b e taken) (
      record b { store = (claim pip tick now b.store).0 },
      ground (
        arith,
        lookup-insert id id (record b { store = (claim pip tick now b.store).0 }) h.buildings,
      ),
      claim-holds pip tick now b.store taken,
    )
    | inr declined ↦ rw (try_declined pip tick now r id rest h b e declined) (
        try_buildings-Names pip tick now (next_reason pip tick now r id rest h b) rest
          (answered pip tick now r id rest h b))
  ]
]

pub List-cases : (l : List ℕ) → (l ≡ []) ⊎ ((a : ℕ) × (rest : List ℕ) × (l ≡ a ∷ rest))
List-cases [] = inl refl
List-cases (a ∷ rest) = inr (a, rest, refl)

-- An offer that the host accepts was taken by the very building that the answer names: that
-- building is hosted here and holds a new shift for the pip. A refusal names building 0, which is
-- none. This holds for every rotation and every mix of full, busy and unknown buildings.
pub consider-Names :
    (pip tick now : ℕ) (h : Host ShiftSet) → Names pip tick now (consider mem_store pip tick now h)
unfolding consider try_buildings
consider-Names pip tick now h = elim (List-cases (ids h)) [
  | inl e ↦ rw (e, consider) refl
  | inr (id, rest, e) ↦
      rw (e, consider)
        (try_buildings-Names pip tick now (bytes "no free positions")
          (rotation (length (id ∷ rest)) h.next 0 (id ∷ rest)) (record h { next = h.next + 1 }))
]
