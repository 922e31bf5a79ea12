-- ===== src/Farm/Redis/Tests.antt =====
-- Runs of the scripts, and the theorem at a hash that they write.
use pipsim.Common.{ℕ, ◌≡◌, refl, true, [], ◌∷◌, arith}
use pipsim.Common.Tests.{ℕ-Eq}
use pipsim.Common.Strings.{bytes, bytes_eq, decimal, digits}
use pipsim.Common.Text.{split, parse_uint, read_digits}
use pipsim.Common.Assoc.{Assoc, lookup, insert, delete}
use pipsim.Farm.Shifts
use pipsim.Farm.Shifts.{Shift, ShiftSet}
use pipsim.Farm.Dapr.{Rules, with_rules}
use pipsim.Farm.Redis.{
  Hash, scan, take, claim_script, last_ms, is_over, double, tonumber, third_match, third_number,
  answered, unanswered, claim, touch, release, count,
}
use pipsim.Farm.Redis.Scripts.{hash_of, shift_text}
use pipsim.Farm.Redis.Refines.{Follows, scripts-Follow}

abbrev rules : Rules
rules = record { max = 2; lease = 15; max_gap = 40 }

abbrev shifts : Assoc ℕ Shift
shifts =
    (1, record { started_tick = 100; last_work_tick = 104; last_work = 20 })
    ∷ (2, record { started_tick = 90; last_work_tick = 95; last_work = 3 })
    ∷ []

-- Pip 2 has not worked for too long, and pip 3 takes its place.
abbrev stored : Hash
stored = (bytes "1", bytes "100:104:20") ∷ (bytes "2", bytes "90:95:3") ∷ []

stored-hash_of : hash_of shifts ≡ stored
unfolding hash_of shift_text decimal digits
stored-hash_of = refl

claim-3 :
    claim_script 3 110 30 15 2 stored
    ≡ ((bytes "1", bytes "100:104:20") ∷ (bytes "3", bytes "110:110:30") ∷ [], true, bytes "")
unfolding claim_script take scan is_over double tonumber third_match last_ms third_number split
    parse_uint read_digits decimal digits insert delete bytes_eq
claim-3 = refl

scripts-Follow_example :
    let s : ShiftSet = with_rules rules shifts in
    let (claimed, accepted, reason) = Shifts.claim 3 110 30 s in
    let (touched, ticks, working) = Shifts.touch 3 110 30 s in
    let (released, started, found) = Shifts.release 3 s in
    Follows 30 15 shifts claimed.shifts
      (accepted, reason)
      (claim rules answered 3 110 30 (hash_of shifts))
    × Follows 30 15 shifts touched.shifts
        (ticks, working)
        (touch rules answered 3 110 30 (hash_of shifts))
    × Follows 30 15 shifts released.shifts
        (started, found)
        (release rules answered unanswered 3 (hash_of shifts))
    × Follows 30 15 shifts shifts (Shifts.count s) (count rules answered (hash_of shifts))
unfolding lookup
scripts-Follow_example =
    scripts-Follow rules (omega arith, omega arith, omega arith) 3 110 30 (omega arith)
      (omega arith) (omega arith) shifts (refl, (refl, tt))
      (
        (omega arith, omega arith, omega arith, omega arith),
        ((omega arith, omega arith, omega arith, omega arith), tt),
      )
      answered unanswered
