-- ===== src/Farm/Tests.antt =====
-- Runs of the farm's rules, and each theorem at an input that meets its hypotheses.
use pipsim.Common.{
  ◌+◌, ◌-◌, ◌≤◌, ◌<◌, ◌≡◌, ◌≢◌, ◌⊎◌, refl, true, false, none, some, List, [], ◌∷◌, arith, length,
}
use Prim.Native.Nat.{min}
use pipsim.Common.Tests.{ℕ-Eq}
use pipsim.Common.Assoc.{lookup, insert, delete}
use pipsim.Common.{All}
use pipsim.Common.Strings.{bytes}
use pipsim.Common.Text.{split, trim, parse_uint}
use pipsim.Farm.Specs.{Spec, Entry, comma, parse_specs, named, IsUsable, parse_specs-strict}
use pipsim.Farm.Shifts.{
  Shift, ShiftSet, live, claim, touch, take_position, reap, elapsed, release, Call, claims, touches,
  releases, counts, after, run, already_on_shift, no_free_positions,
}
use pipsim.Farm.Shifts.Capacity.{IsWithin, run-IsWithin, held, claim_decides}
use pipsim.Farm.Shifts.Pay.{paid_total, paid_total-le, touch_back_pays_twice}
use pipsim.Farm.Store.{mem_store}
use pipsim.Farm.Service.{consider_offer}
use pipsim.Farm.Host.{
  Host, consider, try_buildings, rotation, ids, sort_ids, insert_sorted, resolve,
}
use pipsim.Farm.Host.Refusals.{consider-refused}
use pipsim.Farm.Host.Offers.{Names, consider-Names}

-- Two positions, a lease of 15 and at most 40 ticks for one call.
abbrev empty : ShiftSet
empty = record { shifts = []; max = 2; lease = 15; max_gap = 40 }

-- Pip 1 works, is called twice in one tick, and its lease runs out before pip 3 comes.
abbrev day : List Call
day =
    claims 1 100 0
    ∷ touches 1 110 5
    ∷ touches 1 110 6
    ∷ claims 2 112 8
    ∷ claims 3 113 9
    ∷ touches 2 200 20
    ∷ claims 3 220 22
    ∷ releases 2
    ∷ counts
    ∷ []

run-day :
    (run day empty).shifts
    ≡ (3, record { started_tick = 220; last_work_tick = 220; last_work = 22 }) ∷ []
unfolding run after claim take_position touch release reap lookup insert delete elapsed
run-day = refl

run-IsWithin_example : IsWithin (run day empty)
run-IsWithin_example = run-IsWithin day empty (omega arith)

paid_total-le_example : 90 + paid_total 1 day empty ≤ 230
unfolding lookup
paid_total-le_example = paid_total-le 1 90 230 day empty tt (omega arith) tt

abbrev at_work : Shift
at_work = record { started_tick = 100; last_work_tick = 100; last_work = 0 }

abbrev busy : ShiftSet
busy = record empty { shifts = (1, at_work) ∷ [] }

touch_back_pays_twice_example :
    paid_total 1 (touches 1 (160 - 30) 2 ∷ touches 1 160 3 ∷ []) (after (touches 1 160 1) busy)
    ≡ min 30 40
unfolding lookup
touch_back_pays_twice_example =
    touch_back_pays_twice 1 160 30 1 2 3 busy at_work refl (omega arith) (omega arith)

claim_decides_example :
    let (s', accepted, reason) = claim 2 105 9 busy in
    let mine = held 9 15 (lookup 2 busy.shifts) in
    let working = length (live 9 15 busy.shifts) in
    (lookup 1 s'.shifts ≡ held 9 15 (lookup 1 busy.shifts))
    × (((mine ≡ none)
          × (working < 2)
          × (accepted ≡ true)
          × (lookup 2 s'.shifts
              ≡ some (record { started_tick = 105; last_work_tick = 105; last_work = 9 })))
        ⊎ ((accepted ≡ false)
            × (lookup 2 s'.shifts ≡ mine)
            × (((mine ≢ none) × (reason ≡ already_on_shift))
                ⊎ ((mine ≡ none) × (2 ≤ working) × (reason ≡ no_free_positions)))))
unfolding lookup
claim_decides_example = claim_decides 2 105 9 1 busy (refl, tt) (omega arith)

abbrev two_farms : Host ShiftSet
two_farms = record {
  buildings = (3, record { store = busy; id = 3 }) ∷ (1, record { store = empty; id = 1 }) ∷ [];
  next = 1;
}

consider-Names_example : Names 7 120 9 (consider mem_store 7 120 9 two_farms)
consider-Names_example = consider-Names 7 120 9 two_farms

abbrev configured : Entry
configured = record { before = bytes " "; id = 12; behind = [] }

abbrev second : Entry
second = record { before = []; id = 3; behind = bytes "  " }

abbrev two_specs : List Spec
two_specs = record { id = 1 } ∷ record { id = 3 } ∷ []

parse_specs-strict_example :
    (length two_specs ≡ named (split (bytes "1, ,3") comma))
    × (0 < named (split (bytes "1, ,3") comma))
    × All IsUsable two_specs
unfolding parse_specs split parse_uint trim
parse_specs-strict_example = parse_specs-strict (bytes "1, ,3") two_specs refl

-- Pip 1 works in the only building.
abbrev one_farm : Host ShiftSet
one_farm = record { buildings = (3, record { store = busy; id = 3 }) ∷ []; next = 5 }

consider-refused_example :
    (held 9 15 (lookup 1 busy.shifts) ≢ none) ⊎ (2 ≤ length (live 9 15 busy.shifts))
unfolding consider try_buildings consider_offer claim take_position reap live lookup insert rotation
    ids sort_ids insert_sorted resolve
consider-refused_example =
    consider-refused 1 120 9 one_farm 3 (record { store = busy; id = 3 }) refl (omega arith) refl
      (refl, tt)
