-- ===== src/Farm/Redis/Refines.antt =====
-- The Redis store against the in-memory rules, both of
-- services/workplaces/farm/internal/farm/store.go.
use pipsim.Common.{
  ℕ, ◌+◌, ◌-◌, ◌<◌, ◌≡◌, ◌⊎◌, refl, sym, ◌∙◌, inl, inr, Bool, true, Option, none, some, [], leb,
  length, arith, All, Bool-cases, Option-cases,
}
use pipsim.Common.Words.{word_size}
use pipsim.Common.Tests.{ℕ-Eq}
use pipsim.Common.Strings.{Bytes, Bytes-Eq, decimal}
use pipsim.Common.Text.{split, parse_uint-decimal}
use pipsim.Common.Assoc.{Assoc, lookup, insert, delete, IsMap}
use pipsim.Farm.Shifts
use pipsim.Farm.Shifts.{
  Shift, ShiftSet, live, is_expired, take_position, reap, elapsed, to_int32, already_on_shift,
  no_free_positions,
}
use pipsim.Farm.Dapr.{Rules, with_rules}
use pipsim.Farm.Redis.{
  Hash, colon, exact_limit, touch_match, take, claim_script, touch_value, touch_script, Link,
  answered, lost, unanswered, over, drop_field, claim, touch, release, count,
}
use pipsim.Farm.Redis.Scripts.{
  double-eq, tonumber-decimal, two_matches-decimal, shift_text, split-shift_text, hash_of, IsSmall,
  lookup-hash_of, insert-hash_of, delete-hash_of, length-hash_of,
}
use pipsim.Farm.Redis.Claims.{scan-Scanned}
use pipsim.Farm.Redis.Branches.{
  live-live, live-All, take_position-mine, take_position-full, take_position-room, touch-idle,
  touch-working, release-absent, release-found, elapsed-min, lookup-IsSmall,
}

-- A call that turns `old` into `new` and answers `a`: the hash stands for a map of the same running
-- shifts as `new` where it answers, and as one of the two where it fails.
abbrev pub Follows :
    {A : Type 0} → ℕ → ℕ → Assoc ℕ Shift → Assoc ℕ Shift → A → Hash × Option A → Type 0
Follows now lease old new a (hash, reply) =
    (m : Assoc ℕ Shift) × (hash ≡ hash_of m)
    × (((reply ≡ some a) × (live now lease m ≡ live now lease new))
        ⊎ ((reply ≡ none)
            × ((live now lease m ≡ live now lease old) ⊎ (live now lease m ≡ live now lease new))))

over-Follows :
    {A : Type 0} (now lease : ℕ) (old new m : Assoc ℕ Shift) (a : A) (link : Link) (hash : Hash)
    → hash ≡ hash_of m
    → live now lease m ≡ live now lease new
    → Follows now lease old new a (over link (hash, some a) (hash_of old))
unfolding over
over-Follows now lease old new m a answered hash e same = (m, e, inl (refl, same))
over-Follows now lease old new m a lost hash e same = (old, refl, inr (refl, inl refl))
over-Follows now lease old new m a unanswered hash e same = (m, e, inr (refl, inr same))

-- The numbers of the rules are exact as doubles.
abbrev pub IsExact : Rules → Type 0
IsExact rules =
    (rules.max < exact_limit) × (rules.lease < exact_limit) × (rules.max_gap < exact_limit)

module _ (rules : Rules) (exact : IsExact rules) (pip tick now : ℕ) (small : pip < word_size)
    (soon : tick < exact_limit) (clock : now < exact_limit) (shifts : Assoc ℕ Shift)
    (is_map : IsMap shifts) (smalls : All IsSmall shifts) where
  abbrev runs : Assoc ℕ Shift
  runs = live now rules.lease shifts

  -- The claim script does what the rules do, and may leave expired shifts behind.
  abbrev ClaimedBy : Hash × Bool × Bytes → ShiftSet × Bool × Bytes → Type 0
  ClaimedBy (hash, accepted, reason) (s, accepted', reason') =
      (m : Assoc ℕ Shift) × (hash ≡ hash_of m)
      × (accepted ≡ accepted')
      × (reason ≡ reason')
      × (live now rules.lease m ≡ live now rules.lease s.shifts)

  abbrev reaped : ShiftSet
  reaped = with_rules rules runs

  claimed-reaped :
      Shifts.claim pip tick now (with_rules rules shifts) ≡ take_position pip tick now reaped
  unfolding Shifts.claim reap
  claimed-reaped = refl

  claim_script-ClaimedBy :
      ClaimedBy
        (claim_script pip tick now rules.lease rules.max (hash_of shifts))
        (Shifts.claim pip tick now (with_rules rules shifts))
  unfolding claim_script take shift_text
  claim_script-ClaimedBy =
      let sum : 0 + length runs ≡ length runs = omega arith in
      elim (scan-Scanned pip now rules.lease small clock exact.1 [] shifts 0 is_map smalls) [
        | inl (free, scanned) ↦ elim (Bool-cases (leb rules.max (length runs))) [
          | inl full ↦
              rw (scanned, claimed-reaped, take_position-full pip tick now reaped free full)
                (rw (sum, double-eq rules.max exact.0) (rw full (runs, refl, refl, refl, refl)))
          | inr room ↦
              rw (scanned, claimed-reaped, take_position-room pip tick now reaped free room)
                (rw (sum, double-eq rules.max exact.0)
                  (rw room (
                    insert pip
                        (record { started_tick = tick; last_work_tick = tick; last_work = now })
                        runs,
                    insert-hash_of pip
                        (record { started_tick = tick; last_work_tick = tick; last_work = now })
                        runs small (live-All now rules.lease shifts smalls),
                    refl,
                    refl,
                    refl,
                  )))
        ]
        | inr (sh, mine, (m, scanned, same)) ↦
            rw (scanned, claimed-reaped, take_position-mine pip tick now reaped sh mine)
              (m, refl, refl, refl, same ∙ sym (live-live now rules.lease shifts))
      ]

  touch_value-text :
      (sh : Shift) (hash : Hash)
      → sh.last_work_tick < exact_limit
      → touch_value (decimal pip) tick now rules.max_gap (split (shift_text sh) colon) hash ≡ (
        insert
            (decimal pip)
            (shift_text (record sh { last_work_tick = tick; last_work = now }))
            hash,
        some (elapsed tick rules.max_gap sh, true),
      )
  unfolding touch_value touch_match shift_text
  touch_value-text sh hash last_small =
      let gap : tick - sh.last_work_tick < exact_limit = omega arith in
      rw (split-shift_text sh, touch_value)
        (rw
          (
            two_matches-decimal sh.started_tick sh.last_work_tick (decimal sh.last_work),
            touch_match,
          )
          (rw (tonumber-decimal sh.last_work_tick last_small, double-eq tick soon)
            (rw
              (
                double-eq (tick - sh.last_work_tick) gap,
                double-eq rules.max_gap exact.2,
                elapsed-min tick rules.max_gap sh,
              )
              refl)))

  -- The touch script and the release do exactly what the rules do.
  touch_script-eq : touch_script pip tick now rules.max_gap (hash_of shifts) ≡ (
      let (s', ticks, working) = Shifts.touch pip tick now (with_rules rules shifts) in
      (hash_of s'.shifts, some (ticks, working)))
  unfolding touch_script
  touch_script-eq = elim (Option-cases (lookup pip shifts)) [
    | inl idle ↦
        rw
          (
            lookup-hash_of pip shifts small smalls,
            touch-idle pip tick now (with_rules rules shifts) idle,
          )
          (rw idle refl)
    | inr (sh, working) ↦
        rw
          (
            lookup-hash_of pip shifts small smalls,
            touch-working pip tick now (with_rules rules shifts) sh working,
          )
          (rw working (
            rw
              (touch_value-text sh (hash_of shifts) (lookup-IsSmall pip shifts sh smalls working).1)
              (rw
                (insert-hash_of pip (record sh { last_work_tick = tick; last_work = now }) shifts
                  small smalls)
                refl)))
  ]

  abbrev rule_set : ShiftSet
  rule_set = with_rules rules shifts

  claim-Follows :
      (link : Link)
      → let (s', accepted, reason) = Shifts.claim pip tick now rule_set in
        Follows now rules.lease shifts s'.shifts
          (accepted, reason)
          (claim rules link pip tick now (hash_of shifts))
  unfolding claim
  claim-Follows link =
      let (m, hash, accepted, reason, same) = claim_script-ClaimedBy in
      rw (← accepted, ← reason)
        (over-Follows now rules.lease shifts (Shifts.claim pip tick now rule_set).0.shifts m _ link
          _ hash same)

  touch-Follows :
      (link : Link)
      → let (s', ticks, working) = Shifts.touch pip tick now rule_set in
        Follows now rules.lease shifts s'.shifts
          (ticks, working)
          (touch rules link pip tick now (hash_of shifts))
  unfolding touch
  touch-Follows link = rw touch_script-eq (
      over-Follows now rules.lease shifts (Shifts.touch pip tick now rule_set).0.shifts
        (Shifts.touch pip tick now rule_set).0.shifts _ link _ refl refl)

  drop_field-Follows :
      (link : Link)
      → let (s', started, found) = Shifts.release pip rule_set in
        Follows now rules.lease shifts s'.shifts
          (started, found)
          (drop_field link (decimal pip) (hash_of shifts) (lookup (decimal pip) (hash_of shifts)))
  unfolding drop_field
  drop_field-Follows link = elim (Option-cases (lookup pip shifts)) [
    | inl absent ↦
        rw (lookup-hash_of pip shifts small smalls, release-absent pip tick now rule_set absent)
          (rw absent (shifts, refl, inl (refl, refl)))
    | inr (sh, found) ↦
        rw (lookup-hash_of pip shifts small smalls, release-found pip tick now rule_set sh found)
          (rw found (
            rw (delete-hash_of pip shifts small smalls, split-shift_text sh)
              (rw (parse_uint-decimal sh.started_tick (lookup-IsSmall pip shifts sh smalls found).0)
                (over-Follows now rules.lease shifts (delete pip shifts) (delete pip shifts)
                  (sh.started_tick, true) link (hash_of (delete pip shifts)) refl refl))))
  ]

  release-Follows :
      (link del : Link)
      → let (s', started, found) = Shifts.release pip rule_set in
        Follows now rules.lease shifts s'.shifts
          (started, found)
          (release rules link del pip (hash_of shifts))
  unfolding release
  release-Follows answered del = drop_field-Follows del
  release-Follows lost del = (shifts, refl, inr (refl, inl refl))
  release-Follows unanswered del = (shifts, refl, inr (refl, inl refl))

  count-Follows :
      (link : Link)
      → Follows now rules.lease shifts shifts
          (Shifts.count rule_set)
          (count rules link (hash_of shifts))
  unfolding count Shifts.count
  count-Follows link = rw (length-hash_of shifts) (
      over-Follows now rules.lease shifts shifts shifts (length shifts) link (hash_of shifts) refl
        refl)

  -- The Redis store follows the rules of shiftSet where all numbers but the id of the pip are below
  -- 2^53, those of the hash, of the rules and of the call, so that Lua has them exactly: a call that is
  -- answered is answered as they do and leaves a hash of the same running shifts (the claim script
  -- may leave expired ones behind), and a call that fails has been carried out or not.
  pub scripts-Follow :
      (link del : Link)
      → let s : ShiftSet = with_rules rules shifts in
        let (claimed, accepted, reason) = Shifts.claim pip tick now s in
        let (touched, ticks, working) = Shifts.touch pip tick now s in
        let (released, started, found) = Shifts.release pip s in
        let lease = rules.lease in
        Follows now lease shifts claimed.shifts
          (accepted, reason)
          (claim rules link pip tick now (hash_of shifts))
        × Follows now lease shifts touched.shifts
            (ticks, working)
            (touch rules link pip tick now (hash_of shifts))
        × Follows now lease shifts released.shifts
            (started, found)
            (release rules link del pip (hash_of shifts))
        × Follows now lease shifts shifts (Shifts.count s) (count rules link (hash_of shifts))
  scripts-Follow link del =
      (claim-Follows link, touch-Follows link, release-Follows link del, count-Follows link)
