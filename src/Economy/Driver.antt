-- ===== src/Economy/Driver.antt =====
-- One building's driver, services/world-gateway/internal/economy/driver.go. A time is a count of
-- nanoseconds. A driver has its id and kind here; how it learns them stands in
-- Economy.Registration.
pub mod Employment
use pipsim.Common.{
  ℕ, ◌-◌, Bool, true, false, not, Option, none, some, List, [], ◌∷◌, ltb, if◌then◌else◌,
}
use pipsim.Common.Tests.{◌==◌, ℕ-Eq}
use pipsim.Common.Strings.{Bytes, Bytes-Eq, bytes}
use pipsim.Common.Assoc.{Assoc, lookup, insert, delete}
use pipsim.Economy.Outside.{Outside, Intent, hire, end_employment, apply_needs, Shift}

-- Five seconds, and the fifteen for which an unanswered offer is remembered.
abbrev pub hire_grace : ℕ
hire_grace = 5_000_000_000

abbrev pub offer_patience : ℕ
offer_patience = 15_000_000_000

pub record Driver : Type 0 where
  pub id : ℕ
  pub kind : Bytes
  pub employed : Assoc ℕ Bool
  pub hired_at : Assoc ℕ ℕ
  pub pending : Assoc ℕ ℕ

-- A Go map of Booleans reads a missing key as false.
abbrev pub or_false : Option Bool → Bool
or_false none = false
or_false (some b) = b

abbrev pub holds : ℕ → Assoc ℕ Bool → Bool
holds pip set = or_false (lookup pip set)

-- The loop over `hiredAt`: the hires that are still believed, and the view with them put in.
unfoldable pub fresh_hires : ℕ → Assoc ℕ ℕ → Assoc ℕ ℕ
fresh_hires now [] = []
fresh_hires now ((pip, at) ∷ hires) =
    let rest = fresh_hires now hires in if ltb hire_grace (now - at) then rest else (pip, at) ∷ rest

unfoldable pub with_hires : Assoc ℕ ℕ → Assoc ℕ Bool → Assoc ℕ Bool
with_hires [] employed = employed
with_hires ((pip, at) ∷ hires) employed = with_hires hires (insert pip true employed)

-- The pips of the old view that the new one does not hold.
unfoldable pub dropped : Assoc ℕ Bool → Assoc ℕ Bool → List ℕ
dropped [] employed = []
dropped ((pip, b) ∷ old) employed =
    let rest = dropped old employed in if not (holds pip employed) then pip ∷ rest else rest

unfoldable pub sync_employment : Assoc ℕ Bool → ℕ → Driver → Driver × List ℕ
sync_employment employed now d =
    let hires = fresh_hires now d.hired_at in
    let view = with_hires hires employed in
    (record d { employed = view; hired_at = hires }, dropped d.employed view)

-- An offer is out and has not been waited for long enough.
abbrev pub is_waiting : ℕ → Option ℕ → Bool
is_waiting now none = false
is_waiting now (some at) = ltb (now - at) offer_patience

module _ {W : Type 0} (out : Outside W) where
  unfoldable pub on_hired : ℕ → Driver → W → Driver × W
  on_hired pip d w =
      let (w', sent) = out.submit (hire pip d.id) w in
      if not sent then (d, w') else (
        record d {
          employed = insert pip true d.employed;
          hired_at = insert pip (out.now w') d.hired_at;
          pending = delete pip d.pending;
        },
        w',
      )

  -- `offer` once the pip has been entered as pending.
  unfoldable pub publish : ℕ → ℕ → Driver → W → Driver × W × Bool
  publish pip tick d w =
      let (w', sent) = out.publish_offer d.kind pip tick w in
      if not sent then (record d { pending = delete pip d.pending }, w', false) else (d, w', true)

  unfoldable pub offer : ℕ → ℕ → Driver → W → Driver × W × Bool
  unfolding publish
  offer pip tick d w =
      if d.kind == bytes ""
      then (d, w, false)
      else if is_waiting (out.now w) (lookup pip d.pending)
      then (d, w, false)
      else publish pip tick (record d { pending = insert pip (out.now w) d.pending }) w

  unfoldable pub end_shift : ℕ → ℕ → Bytes → Driver → W → Driver × W
  end_shift pip tick reason d w =
      let w' = out.end_shift d.id pip tick reason w in
      let (w'', _) = out.submit (end_employment pip) w' in
      (record d { employed = delete pip d.employed; pending = delete pip d.pending }, w'')

  -- The end of `work`, for a pip that is inside: the needs, then the wage.
  unfoldable pub exercise : ℕ → Shift → Driver → W → Driver × W × Bool × ℕ
  exercise pip shift d w = elim shift.need_deltas [
    | [] ↦ (d, w, true, shift.wage)
    | delta ∷ deltas ↦
        let (w', sent) = out.submit (apply_needs pip (delta ∷ deltas)) w in
        if not sent then (d, w', false, 0) else (d, w', true, shift.wage)
  ]

  unfoldable pub answer : ℕ → ℕ → Bool → Option Shift → Driver → W → Driver × W × Bool × ℕ
  unfolding exercise end_shift
  answer pip tick inside none d w = (d, w, false, 0)
  answer pip tick inside (some shift) d w =
      if shift.shift_should_end
      then (let (d', w') = end_shift pip tick (bytes "workplace ended the shift") d w in
          (d', w', false, 0))
      else if not inside
      then (d, w, true, 0)
      else exercise pip shift d w

  unfoldable pub work : ℕ → ℕ → Bool → Driver → W → Driver × W × Bool × ℕ
  unfolding answer
  work pip tick inside d w =
      let (w', shift) = out.work d.id pip tick w in answer pip tick inside shift d w'
