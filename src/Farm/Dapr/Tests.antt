-- ===== src/Farm/Dapr/Tests.antt =====
-- A state API that keeps a shift map, and the theorem at a call of it.
use pipsim.Common.{ℕ, ◌≡◌, ◌≢◌, refl, ap, inl, inr, true, false, Option, none, some, [], ◌∷◌, arith}
use pipsim.Common.Tests.{ℕ-Eq}
use pipsim.Common.Strings.{Bytes}
use pipsim.Common.Text.{keep, is_space, trim, trim_left, trim_right, trim_space}
use pipsim.Common.Assoc.{Assoc, lookup}
use pipsim.Farm.Shifts
use pipsim.Farm.Shifts.{Shift, ShiftSet}
use pipsim.Farm.Dapr.{StateApi, Codec, Rules, with_rules, claim, touch, release, count}
use pipsim.Farm.Dapr.Refines.{IsStateStore, Refines, calls-Refine}

-- A body that is a code of the map: four numbers for each shift, behind a first letter.
abbrev write : Assoc ℕ Shift → Bytes
write [] = []
write ((pip, s) ∷ rest) = pip ∷ s.started_tick ∷ s.last_work_tick ∷ s.last_work ∷ write rest

abbrev with_shift : ℕ → ℕ → ℕ → ℕ → Option (Assoc ℕ Shift) → Option (Assoc ℕ Shift)
with_shift pip started last at none = none
with_shift pip started last at (some rest) =
    some ((pip, record { started_tick = started; last_work_tick = last; last_work = at }) ∷ rest)

abbrev read : Bytes → Option (Assoc ℕ Shift)
read [] = some []
read (pip ∷ (started ∷ (last ∷ (at ∷ rest)))) = with_shift pip started last at (read rest)
read _ = none

abbrev behind_letter : Bytes → Option (Assoc ℕ Shift)
behind_letter [] = none
behind_letter (c ∷ body) = read body

abbrev letters : Codec
letters = record { upsert = λ shifts. some (b'{' ∷ write shifts); decode = behind_letter }

read-write : (shifts : Assoc ℕ Shift) → read (write shifts) ≡ some shifts
read-write [] = refl
read-write ((pip, s) ∷ rest) = rw (read-write rest) refl

abbrev or_old : Assoc ℕ Shift → Option (Assoc ℕ Shift) → Assoc ℕ Shift
or_old old none = old
or_old old (some new) = new

-- The world is the map that is stored.
abbrev sidecar : StateApi (Assoc ℕ Shift)
sidecar = record {
  get = λ w. (w, some (200, b'{' ∷ write w));
  post = λ body w. (or_old w (behind_letter body), some 204);
}

keep-ne-nil : (c : ℕ) (s : Bytes) → keep false c s ≢ []
keep-ne-nil c [] e = cc
keep-ne-nil c (d ∷ s) e = cc

full : (s : Bytes) → trim_space (b'{' ∷ s) ≢ []
unfolding trim trim_left trim_right
full s e = keep-ne-nil b'{' (trim_right is_space s) e

posted :
    (shifts : Assoc ℕ Shift) (body : Bytes) (w : Assoc ℕ Shift)
    → letters.upsert shifts ≡ some body
    → or_old w (behind_letter body) ≡ shifts
posted shifts body w e =
    let same : b'{' ∷ write shifts ≡ body = cc in rw (← same) (rw (read-write shifts) refl)

sidecar-IsStateStore : IsStateStore sidecar letters (λ w. w)
sidecar-IsStateStore = record {
  get_keeps = λ w. refl;
  get_shows = λ w. (
    (λ miss. elim miss [ inl e ↦ absurd (omega arith) | inr e ↦ absurd (omega arith) ]),
    (λ e blank. absurd (full (write w) blank)),
    (λ e filled. read-write w),
  );
  post_writes = λ shifts body w e status p small pip. ap (lookup pip) (posted shifts body w e);
  post_may_write = λ shifts body w e. inr (λ pip. ap (lookup pip) (posted shifts body w e));
}

abbrev rules : Rules
rules = record { max = 2; lease = 15; max_gap = 40 }

abbrev one_shift : Assoc ℕ Shift
one_shift = (1, record { started_tick = 100; last_work_tick = 100; last_work = 0 }) ∷ []

run_claim : (claim sidecar letters rules 2 105 9 one_shift).1 ≡ some (true, [])
unfolding claim trim Shifts.claim Shifts.take_position lookup Shifts.reap
run_claim = refl

calls-Refine_example :
    let s : ShiftSet = with_rules rules one_shift in
    let (claimed, accepted, reason) = Shifts.claim 2 105 9 s in
    let (touched, elapsed, working) = Shifts.touch 2 105 9 s in
    let (released, began, found) = Shifts.release 2 s in
    Refines
      (λ w. w)
      one_shift
      claimed.shifts
      accepted
      (accepted, reason)
      (claim sidecar letters rules 2 105 9 one_shift)
    × Refines
        (λ w. w)
        one_shift
        touched.shifts
        working
        (elapsed, working)
        (touch sidecar letters rules 2 105 9 one_shift)
    × Refines
        (λ w. w)
        one_shift
        released.shifts
        found
        (began, found)
        (release sidecar letters rules 2 one_shift)
    × Refines
        (λ w. w)
        one_shift
        one_shift
        false
        (Shifts.count s)
        (count sidecar letters rules one_shift)
calls-Refine_example =
    calls-Refine sidecar letters rules (λ w. w) sidecar-IsStateStore 2 105 9 one_shift
