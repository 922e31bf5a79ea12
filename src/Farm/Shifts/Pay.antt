-- ===== src/Farm/Shifts/Pay.antt =====
-- What shifts are paid for: `touch` of services/workplaces/farm/internal/farm/store.go.
use pipsim.Common.{
  ℕ, ◌+◌, ◌-◌, ◌≤◌, ◌<◌, ◌≡◌, Option, none, some, List, [], ◌∷◌, arith, inl, inr, Option-cases,
  if◌then◌else◌,
}
use pipsim.Common.Tests.{◌==◌, ==_iff, ℕ-Eq}
use Prim.Native.Nat.{min}
use pipsim.Common.Assoc.{
  Assoc, lookup, lookup-insert, lookup-delete, IsMap, insert-IsMap, delete-IsMap,
}
use pipsim.Farm.Shifts.{
  Shift, ShiftSet, live, reap, take_position, claim, touch, release, elapsed, Call, claims, touches,
  releases, counts, after,
}
use pipsim.Farm.Shifts.Capacity.{held, lookup-live}

live-IsMap : (now lease : ℕ) (m : Assoc ℕ Shift) → IsMap m → IsMap (live now lease m)
unfolding live
live-IsMap now lease [] h = tt
live-IsMap now lease (e ∷ m) h =
    ground (arith, lookup-live e.0 now lease m h.1, live-IsMap now lease m h.1)

pub after-IsMap : (c : Call) (s : ShiftSet) → IsMap s.shifts → IsMap (after c s).shifts
unfolding after claim take_position touch release reap
after-IsMap (claims pip tick now) s h = ground (
  arith,
  insert-IsMap pip (record { started_tick = tick; last_work_tick = tick; last_work = now })
      (live now s.lease s.shifts),
  live-IsMap now s.lease s.shifts h,
)
after-IsMap (touches pip tick now) s h = elim (Option-cases (lookup pip s.shifts)) [
  | inl e ↦ ground arith
  | inr (sh, e) ↦
      ground
        (arith, insert-IsMap pip (record sh { last_work_tick = tick; last_work = now }) s.shifts h)
]
after-IsMap (releases pip) s h = ground (arith, delete-IsMap pip s.shifts h)
after-IsMap counts s h = h

-- The ticks that a call pays `pip` for.
abbrev pub paid : ℕ → Call → ShiftSet → ℕ
paid pip (touches p tick now) s = if p == pip then (touch p tick now s).1 else 0
paid pip _ s = 0

abbrev pub paid_total : ℕ → List Call → ShiftSet → ℕ
paid_total pip [] s = 0
paid_total pip (c ∷ cs) s = paid pip c s + paid_total pip cs (after c s)

-- The ticks of the calls never go back, and lie between two ticks.
abbrev pub Ordered : ℕ → List Call → ℕ → Type 0
Ordered from [] to = from ≤ to
Ordered from (claims _ tick _ ∷ cs) to = (from ≤ tick) × Ordered tick cs to
Ordered from (touches _ tick _ ∷ cs) to = (from ≤ tick) × Ordered tick cs to
Ordered from (releases _ ∷ cs) to = Ordered from cs to
Ordered from (counts ∷ cs) to = Ordered from cs to

-- A shift that is held was last paid no earlier than `from`.
abbrev pub PaidFrom : ℕ → Option Shift → Type 0
PaidFrom from none = Unit
PaidFrom from (some sh) = from ≤ sh.last_work_tick

held-PaidFrom :
    (from now lease : ℕ) (sh : Option Shift) → PaidFrom from sh → PaidFrom from (held now lease sh)
held-PaidFrom from now lease none h = tt
held-PaidFrom from now lease (some sh) h = ground arith

claim-PaidFrom :
    (from pip p tick now : ℕ) (s : ShiftSet)
    → IsMap s.shifts
    → from ≤ tick
    → PaidFrom from (lookup pip s.shifts)
    → PaidFrom from (lookup pip (claim p tick now s).0.shifts)
unfolding claim take_position reap
claim-PaidFrom from pip p tick now s m le h =
    let fresh : Shift = record { started_tick = tick; last_work_tick = tick; last_work = now } in
    ground (
      arith,
      held-PaidFrom from now s.lease (lookup pip s.shifts) h,
      lookup-live pip now s.lease s.shifts m,
      lookup-insert p pip fresh (live now s.lease s.shifts),
    )

touch-PaidFrom :
    (from pip p tick now : ℕ) (s : ShiftSet)
    → from ≤ tick
    → PaidFrom from (lookup pip s.shifts)
    → (from + paid pip (touches p tick now) s ≤ tick)
      × PaidFrom (from + paid pip (touches p tick now) s) (lookup pip (touch p tick now s).0.shifts)
unfolding touch elapsed
touch-PaidFrom from pip p tick now s le h = elim (Option-cases (lookup p s.shifts)) [
  | inl e ↦ ground (arith, ==_iff p pip)
  | inr (sh, e) ↦ ground (
    arith,
    ==_iff p pip,
    lookup-insert p pip (record sh { last_work_tick = tick; last_work = now }) s.shifts,
  )
]

release-PaidFrom :
    (from pip p : ℕ) (s : ShiftSet)
    → PaidFrom from (lookup pip s.shifts)
    → PaidFrom from (lookup pip (release p s).0.shifts)
unfolding release
release-PaidFrom from pip p s h = ground (arith, ==_iff p pip, lookup-delete p pip s.shifts)

-- `due` is the tick up to which the pip has been paid, and `from` the tick of the last call.
paid_from :
    (pip due from to : ℕ) (cs : List Call) (s : ShiftSet)
    → IsMap s.shifts
    → due ≤ from
    → Ordered from cs to
    → PaidFrom due (lookup pip s.shifts)
    → due + paid_total pip cs s ≤ to
paid_from pip due from to [] s m le o h = omega arith
paid_from pip due from to (claims p tick now ∷ cs) s m le o h = omega (
  arith,
  paid_from pip due tick to cs (after (claims p tick now) s) (after-IsMap (claims p tick now) s m)
      (omega arith) o.1 (unfold after in claim-PaidFrom due pip p tick now s m (omega arith) h),
)
paid_from pip due from to (touches p tick now ∷ cs) s m le o h =
    let (reached, still) = touch-PaidFrom due pip p tick now s (omega arith) h in
    omega (
      arith,
      paid_from pip (due + paid pip (touches p tick now) s) tick to cs
          (after (touches p tick now) s) (after-IsMap (touches p tick now) s m) reached o.1
          (unfold after in still),
    )
paid_from pip due from to (releases p ∷ cs) s m le o h = omega (
  arith,
  paid_from pip due from to cs (after (releases p) s) (after-IsMap (releases p) s m) le o
      (unfold after in release-PaidFrom due pip p s h),
)
paid_from pip due from to (counts ∷ cs) s m le o h = omega (
  arith,
  paid_from pip due from to cs (after counts s) (after-IsMap counts s m) le o (unfold after in h),
)

-- Between two ticks no pip is paid for more ticks than there are, whatever the calls: repeated
-- calls of Work in one tick, calls for other pips, expired leases and new shifts. The ticks of
-- the calls never go back, and a shift that the pip holds at the start was paid up to `from`.
pub paid_total-le :
    (pip from to : ℕ) (cs : List Call) (s : ShiftSet)
    → IsMap s.shifts
    → Ordered from cs to
    → PaidFrom from (lookup pip s.shifts)
    → from + paid_total pip cs s ≤ to
paid_total-le pip from to cs s m o h = paid_from pip from from to cs s m (omega arith) o h

lookup-touch :
    (pip tick now : ℕ) (s : ShiftSet) (sh : Shift)
    → lookup pip s.shifts ≡ some sh
    → lookup pip (after (touches pip tick now) s).shifts
      ≡ some (record sh { last_work_tick = tick; last_work = now })
unfolding after touch
lookup-touch pip tick now s sh e =
    ground
      (arith, lookup-insert pip pip (record sh { last_work_tick = tick; last_work = now }) s.shifts)

max_gap-touch :
    (pip tick now : ℕ) (s : ShiftSet) → (after (touches pip tick now) s).max_gap ≡ s.max_gap
unfolding after touch
max_gap-touch pip tick now s = ground arith

paid-touch :
    (pip tick now : ℕ) (s : ShiftSet) (sh : Shift)
    → lookup pip s.shifts ≡ some sh
    → paid pip (touches pip tick now) s ≡ elapsed tick s.max_gap sh
unfolding touch
paid-touch pip tick now s sh e = ground arith

-- A tick that goes back is paid again: after a call for `tick`, one for `tick - back` and one for
-- `tick` once more pay `back` ticks that were paid already, up to the limit for one call.
pub touch_back_pays_twice :
    (pip tick back t1 t2 t3 : ℕ) (s : ShiftSet) (sh : Shift)
    → lookup pip s.shifts ≡ some sh
    → s.max_gap < 0x80000000
    → back ≤ tick
    → let again : List Call = touches pip (tick - back) t2 ∷ touches pip tick t3 ∷ [] in
      paid_total pip again (after (touches pip tick t1) s) ≡ min back s.max_gap
unfolding elapsed
touch_back_pays_twice pip tick back t1 t2 t3 s sh e small le =
    let sh1 : Shift = record sh { last_work_tick = tick; last_work = t1 } in
    let sh2 : Shift = record sh { last_work_tick = tick - back; last_work = t2 } in
    let s1 = after (touches pip tick t1) s in
    let s2 = after (touches pip (tick - back) t2) s1 in
    let e1 : lookup pip s1.shifts ≡ some sh1 = lookup-touch pip tick t1 s sh e in
    let e2 : lookup pip s2.shifts ≡ some sh2 = lookup-touch pip (tick - back) t2 s1 sh1 e1 in
    rw (paid-touch pip (tick - back) t2 s1 sh1 e1, paid-touch pip tick t3 s2 sh2 e2)
      (rw (max_gap-touch pip (tick - back) t2 s1, max_gap-touch pip tick t1 s) (ground arith))
