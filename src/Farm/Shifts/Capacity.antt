-- ===== src/Farm/Shifts/Capacity.antt =====
-- The positions of a building: `claim` of services/workplaces/farm/internal/farm/store.go, and how
-- many shifts the calls leave.
use pipsim.Common.{
  ℕ, suc, ◌≤◌, ◌<◌, ◌≡◌, ◌≢◌, ◌⊎◌, refl, true, false, Option, none, some, List, [], ◌∷◌, arith, inl,
  inr, Option-cases, length, if◌then◌else◌,
}
use pipsim.Common.Tests.{==_iff, ℕ-Eq}
use pipsim.Common.Assoc.{Assoc, lookup, insert, delete, lookup-insert, IsMap}
use pipsim.Farm.Shifts.{
  Shift, ShiftSet, is_expired, live, reap, take_position, claim, touch, release, already_on_shift,
  no_free_positions, Call, claims, touches, releases, counts, after, run,
}

module _ {V : Type 0} where
  length-insert_new :
      (k : ℕ) (v : V) (m : Assoc ℕ V) → lookup k m ≡ none → length (insert k v m) ≡ suc (length m)
  unfolding lookup insert
  length-insert_new k v [] h = refl
  length-insert_new k v (e ∷ m) h = ground (arith, length-insert_new k v m)

  length-insert_old :
      (k : ℕ) (v w : V) (m : Assoc ℕ V) → lookup k m ≡ some w → length (insert k v m) ≡ length m
  unfolding lookup insert
  length-insert_old k v w [] h = cc
  length-insert_old k v w (e ∷ m) h = ground (arith, length-insert_old k v w m)

  length-delete : (k : ℕ) (m : Assoc ℕ V) → length (delete k m) ≤ length m
  unfolding delete
  length-delete k [] = omega arith
  length-delete k (e ∷ m) = ground (arith, length-delete k m)

length-live : (now lease : ℕ) (m : Assoc ℕ Shift) → length (live now lease m) ≤ length m
unfolding live
length-live now lease [] = omega arith
length-live now lease (e ∷ m) = ground (arith, length-live now lease m)

-- No more shifts than positions.
abbrev pub IsWithin : ShiftSet → Type 0
IsWithin s = length s.shifts ≤ s.max

take_position-IsWithin :
    (pip tick now : ℕ) (s : ShiftSet) → IsWithin s → IsWithin (take_position pip tick now s).0
unfolding take_position
take_position-IsWithin pip tick now s h = ground (
  arith,
  length-insert_new pip (record { started_tick = tick; last_work_tick = tick; last_work = now })
      s.shifts,
)

pub after-IsWithin : (c : Call) (s : ShiftSet) → IsWithin s → IsWithin (after c s)
unfolding after claim touch release reap
after-IsWithin (claims pip tick now) s h =
    take_position-IsWithin pip tick now (record s { shifts = live now s.lease s.shifts })
      (omega (arith, length-live now s.lease s.shifts))
after-IsWithin (touches pip tick now) s h = elim (Option-cases (lookup pip s.shifts)) [
  | inl e ↦ ground arith
  | inr (sh, e) ↦ ground (
    arith,
    length-insert_old pip (record sh { last_work_tick = tick; last_work = now }) sh s.shifts,
  )
]
after-IsWithin (releases pip) s h = ground (arith, length-delete pip s.shifts)
after-IsWithin counts s h = h

-- Whatever the calls, a building that starts within its capacity stays within it.
pub run-IsWithin : (cs : List Call) (s : ShiftSet) → IsWithin s → IsWithin (run cs s)
unfolding run
run-IsWithin [] s h = h
run-IsWithin (c ∷ cs) s h = run-IsWithin cs (after c s) (after-IsWithin c s h)

-- The shift that a pip holds at `now`, if its lease has not run out.
abbrev pub held : ℕ → ℕ → Option Shift → Option Shift
held now lease none = none
held now lease (some sh) = if is_expired now lease sh then none else some sh

pub lookup-live :
    (pip now lease : ℕ) (m : Assoc ℕ Shift)
    → IsMap m
    → lookup pip (live now lease m) ≡ held now lease (lookup pip m)
unfolding live lookup
lookup-live pip now lease [] h = refl
lookup-live pip now lease (e ∷ m) h =
    ground (arith, ==_iff e.0 pip, lookup-live pip now lease m h.1)

-- A claim takes a position exactly when the pip holds no shift here whose lease still runs and
-- there are fewer such shifts than positions. Then the pip holds a new shift, and every other pip
-- holds what it held; otherwise the reason says which of the two failed. On either branch nothing
-- but expired shifts is lost.
pub claim_decides :
    (pip tick now other : ℕ) (s : ShiftSet)
    → IsMap s.shifts
    → other ≢ pip
    → let (s', accepted, reason) = claim pip tick now s in
      let mine = held now s.lease (lookup pip s.shifts) in
      let working = length (live now s.lease s.shifts) in
      (lookup other s'.shifts ≡ held now s.lease (lookup other s.shifts))
      × (((mine ≡ none)
            × (working < s.max)
            × (accepted ≡ true)
            × (lookup pip s'.shifts
                ≡ some (record { started_tick = tick; last_work_tick = tick; last_work = now })))
          ⊎ ((accepted ≡ false)
              × (lookup pip s'.shifts ≡ mine)
              × (((mine ≢ none) × (reason ≡ already_on_shift))
                  ⊎ ((mine ≡ none) × (s.max ≤ working) × (reason ≡ no_free_positions)))))
unfolding claim take_position reap
claim_decides pip tick now other s h ne =
    let fresh : Shift = record { started_tick = tick; last_work_tick = tick; last_work = now } in
    ground (
      arith,
      lookup-live pip now s.lease s.shifts h,
      lookup-live other now s.lease s.shifts h,
      lookup-insert pip other fresh (live now s.lease s.shifts),
      lookup-insert pip pip fresh (live now s.lease s.shifts),
    )
