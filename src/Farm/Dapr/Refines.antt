-- ===== src/Farm/Dapr/Refines.antt =====
-- The Dapr store (services/workplaces/farm/internal/farm/dapr.go) against the in-memory rules of
-- store.go, over a state API that behaves as Dapr documents it.
use pipsim.Common.{
  ℕ, ◌<◌, ◌≡◌, ◌≢◌, ◌⊎◌, refl, ap, inl, inr, Bool, true, false, Option, none, some, [], ◌∷◌, arith,
  Bool-cases, if◌then◌else◌, nat_eq, ltb, ◌||◌,
}
use pipsim.Common.Strings.{Bytes, bytes}
use pipsim.Common.Assoc.{Assoc, lookup}
use pipsim.Common.Text.{trim_space}
use pipsim.Common.Tests.{ℕ-Eq}
use pipsim.Farm.Shifts
use pipsim.Farm.Shifts.{Shift, ShiftSet}
use pipsim.Farm.Dapr.{
  StateApi, Codec, Rules, with_rules, read_body, read_answer, load, is_saved, send, save,
  answer_if_saved, claim_in, claim, touch_in, touch, release_in, release, count, counted,
}

-- What an answer to the GET says of the shifts that are stored.
abbrev pub Answers : Codec → Assoc ℕ Shift → Option (ℕ × Bytes) → Type 0
Answers codec shifts none = Unit
Answers codec shifts (some (status, body)) =
    (((status ≡ 204) ⊎ (status ≡ 404)) → shifts ≡ [])
    × (status ≡ 200 → trim_space body ≡ [] → shifts ≡ [])
    × (status ≡ 200 → trim_space body ≢ [] → codec.decode body ≡ some shifts)

-- Two lists are one map of shifts, in whatever order.
abbrev pub SameShifts : Assoc ℕ Shift → Assoc ℕ Shift → Type 0
SameShifts a b = (pip : ℕ) → lookup pip a ≡ lookup pip b

-- The state API of an actor that is active here: a GET shows what is stored and changes nothing; a
-- POST of an upsert that reports success has stored its map, and one that fails may have. The JSON
-- form keeps the entries of a map and not their order, so what is stored is read in an order of
-- its own.
pub record IsStateStore {W : Type 0} (api : StateApi W) (codec : Codec) (view : W → Assoc ℕ Shift)
    : Type 0 where
  pub get_keeps : (w : W) → view (api.get w).0 ≡ view w
  pub get_shows : (w : W) → Answers codec (view w) (api.get w).1
  pub post_writes :
      (shifts : Assoc ℕ Shift) (body : Bytes) (w : W)
      → codec.upsert shifts ≡ some body
      → (status : ℕ) → (api.post body w).1 ≡ some status
      → status < 300
      → SameShifts (view (api.post body w).0) shifts
  pub post_may_write :
      (shifts : Assoc ℕ Shift) (body : Bytes) (w : W)
      → codec.upsert shifts ≡ some body
      → (view (api.post body w).0 ≡ view w) ⊎ SameShifts (view (api.post body w).0) shifts

module _ {W : Type 0} (view : W → Assoc ℕ Shift) where
  -- A call that turns `old` into `new`, and answers `a`: it fails, and the store holds the one or
  -- the other, or it answers `a`, and the store holds `new` if the call is one that writes.
  abbrev pub Refines :
      {A : Type 0} → Assoc ℕ Shift → Assoc ℕ Shift → Bool → A → W × Option A → Type 0
  Refines old new writes a (w, reply) =
      ((reply ≡ none) × ((view w ≡ old) ⊎ SameShifts (view w) new))
      ⊎ ((reply ≡ some a)
          × SameShifts (view w) (if writes then new else old)
          × (writes ≡ false → view w ≡ old))

-- What the rules answer where they refuse.
accepted_reason :
    (pip tick now : ℕ) (s : ShiftSet)
    → (Shifts.claim pip tick now s).1 ≡ true
    → (Shifts.claim pip tick now s).2 ≡ bytes ""
unfolding Shifts.claim Shifts.take_position
accepted_reason pip tick now s h = ground arith

idle_elapsed :
    (pip tick now : ℕ) (s : ShiftSet)
    → (Shifts.touch pip tick now s).2 ≡ false
    → (Shifts.touch pip tick now s).1 ≡ 0
unfolding Shifts.touch
idle_elapsed pip tick now s h = ground arith

absent_started :
    (pip : ℕ) (s : ShiftSet) → (Shifts.release pip s).2 ≡ false → (Shifts.release pip s).1 ≡ 0
unfolding Shifts.release
absent_started pip s h = ground arith

module _ {W : Type 0} (api : StateApi W) (codec : Codec) (rules : Rules) (view : W → Assoc ℕ Shift)
    (sound : IsStateStore api codec view) where
  read_body-shows :
      (shifts : Assoc ℕ Shift) (text body : Bytes)
      → (text ≡ [] → shifts ≡ [])
      → (text ≢ [] → codec.decode body ≡ some shifts)
      → read_body api codec rules text body ≡ some (with_rules rules shifts)
  unfolding read_body
  read_body-shows shifts [] body blank full = rw (blank refl) refl
  read_body-shows shifts (c ∷ text) body blank full = rw (full (λ e. cc)) refl

  missing :
      (status : ℕ)
      → (nat_eq status 204 || nat_eq status 404) ≡ true
      → (status ≡ 204) ⊎ (status ≡ 404)
  missing status h = ground arith

  read_answer-shows :
      (shifts : Assoc ℕ Shift) (answer : Option (ℕ × Bytes))
      → Answers codec shifts answer
      → (read_answer api codec rules answer ≡ none)
        ⊎ (read_answer api codec rules answer ≡ some (with_rules rules shifts))
  unfolding read_answer
  read_answer-shows shifts none h = inl refl
  read_answer-shows shifts (some (status, body)) h =
      elim (Bool-cases (nat_eq status 204 || nat_eq status 404)) [
        | inl miss ↦ inr (rw (miss, h.0 (missing status miss)) refl)
        | inr hit ↦ elim (Bool-cases (nat_eq status 200)) [
          | inr bad ↦ inl (rw (hit, bad) refl)
          | inl good ↦ inr (
              rw (hit, good)
                (read_body-shows shifts (trim_space body) body (h.1 (ground arith))
                  (h.2 (ground arith))))
        ]
      ]

  load-shows :
      (w : W)
      → ((load api codec rules w).1 ≡ none)
        ⊎ ((load api codec rules w).1 ≡ some (with_rules rules (view w)))
  unfolding load
  load-shows w = read_answer-shows (view w) (api.get w).1 (sound.get_shows w)

  load-keeps : (w : W) → view (load api codec rules w).0 ≡ view w
  unfolding load
  load-keeps w = sound.get_keeps w

  send-Refines :
      {A : Type 0} (a : A) (set : ShiftSet) (body : Option Bytes) (w : W)
      → codec.upsert set.shifts ≡ body
      → Refines view (view w) set.shifts true a (answer_if_saved a (send api codec rules body w))
  unfolding send answer_if_saved
  send-Refines a set none w e = inl (refl, inl refl)
  send-Refines a set (some body) w e = reported (api.post body w).1 refl
    where
      reported :
          (status : Option ℕ)
          → (api.post body w).1 ≡ status
          → Refines view
              (view w)
              set.shifts
              true
              a
              (answer_if_saved a ((api.post body w).0, is_saved status))
      reported none p = inl (refl, sound.post_may_write set.shifts body w e)
      reported (some status) p = elim (Bool-cases (ltb status 300)) [
        | inl good ↦ rw good (
            inr (
              refl,
              sound.post_writes set.shifts body w e status p (ground arith),
              λ idle. cc idle,
            ))
        | inr bad ↦ rw bad (inl (refl, sound.post_may_write set.shifts body w e))
      ]

  save-Refines :
      {A : Type 0} (a : A) (set : ShiftSet) (old : Assoc ℕ Shift) (w : W)
      → view w ≡ old
      → Refines view old set.shifts true a (answer_if_saved a (save api codec rules set w))
  unfolding save
  save-Refines a set old w e = rw (← e) (send-Refines a set (codec.upsert set.shifts) w refl)

  same_shifts : {a b : Assoc ℕ Shift} → a ≡ b → SameShifts a b
  same_shifts e pip = ap (lookup pip) e

  -- The store is read as `old`, or the reading fails.
  abbrev Read : Assoc ℕ Shift → Option ShiftSet → Type 0
  Read old set = (set ≡ none) ⊎ (set ≡ some (with_rules rules old))

  claim_in-Refines :
      (pip tick now : ℕ) (old : Assoc ℕ Shift) (set : Option ShiftSet) (w : W)
      → view w ≡ old
      → Read old set
      → let (set', accepted, reason) = Shifts.claim pip tick now (with_rules rules old) in
        Refines view old set'.shifts accepted
          (accepted, reason)
          (claim_in api codec rules pip tick now set w)
  unfolding claim_in
  claim_in-Refines pip tick now old set w e (inl failed) = rw failed (inl (refl, inl e))
  claim_in-Refines pip tick now old set w e (inr seen) =
      let s : ShiftSet = with_rules rules old in
      elim (Bool-cases (Shifts.claim pip tick now s).1) [
        | inl done ↦ rw seen (
            rw (done, accepted_reason pip tick now s done)
              (save-Refines (true, bytes "") (Shifts.claim pip tick now s).0 old w e))
        | inr refused ↦ rw seen (rw refused (inr (refl, same_shifts e, λ idle. e)))
      ]

  touch_in-Refines :
      (pip tick now : ℕ) (old : Assoc ℕ Shift) (set : Option ShiftSet) (w : W)
      → view w ≡ old
      → Read old set
      → let (set', elapsed, working) = Shifts.touch pip tick now (with_rules rules old) in
        Refines view old set'.shifts working
          (elapsed, working)
          (touch_in api codec rules pip tick now set w)
  unfolding touch_in
  touch_in-Refines pip tick now old set w e (inl failed) = rw failed (inl (refl, inl e))
  touch_in-Refines pip tick now old set w e (inr seen) =
      let s : ShiftSet = with_rules rules old in
      elim (Bool-cases (Shifts.touch pip tick now s).2) [
        | inl done ↦ rw seen (
            rw done (
              save-Refines ((Shifts.touch pip tick now s).1, true) (Shifts.touch pip tick now s).0
                old w e))
        | inr away ↦
            rw seen
              (rw (away, idle_elapsed pip tick now s away) (inr (refl, same_shifts e, λ idle. e)))
      ]

  release_in-Refines :
      (pip : ℕ) (old : Assoc ℕ Shift) (set : Option ShiftSet) (w : W)
      → view w ≡ old
      → Read old set
      → let (set', began, found) = Shifts.release pip (with_rules rules old) in
        Refines view old set'.shifts found (began, found) (release_in api codec rules pip set w)
  unfolding release_in
  release_in-Refines pip old set w e (inl failed) = rw failed (inl (refl, inl e))
  release_in-Refines pip old set w e (inr seen) =
      let s : ShiftSet = with_rules rules old in
      elim (Bool-cases (Shifts.release pip s).2) [
        | inl done ↦ rw seen (
            rw done
              (save-Refines ((Shifts.release pip s).1, true) (Shifts.release pip s).0 old w e))
        | inr away ↦
            rw seen (rw (away, absent_started pip s away) (inr (refl, same_shifts e, λ idle. e)))
      ]

  counted-Refines :
      (old : Assoc ℕ Shift) (set : Option ShiftSet) (w : W)
      → view w ≡ old
      → Read old set
      → Refines view old old false
          (Shifts.count (with_rules rules old))
          (w, counted api codec rules set)
  counted-Refines old set w e (inl failed) = rw failed (inl (refl, inl e))
  counted-Refines old set w e (inr seen) = rw seen (inr (refl, same_shifts e, λ idle. e))

  -- Every call of the Dapr store is the same call of the in-memory rules on the shifts that the actor
  -- has stored: it answers as these do, and has stored their result, but for a refused claim, which
  -- leaves expired shifts where they were; or it reports an error, and then the store holds what it
  -- held or the result, never anything else. What is stored is compared as a map, without its order.
  -- The state API is one as Dapr documents it.
  pub calls-Refine :
      (pip tick now : ℕ) (w : W)
      → let s : ShiftSet = with_rules rules (view w) in
        let (claimed, accepted, reason) = Shifts.claim pip tick now s in
        let (touched, elapsed, working) = Shifts.touch pip tick now s in
        let (released, began, found) = Shifts.release pip s in
        Refines view
          (view w)
          claimed.shifts
          accepted
          (accepted, reason)
          (claim api codec rules pip tick now w)
        × Refines view
            (view w)
            touched.shifts
            working
            (elapsed, working)
            (touch api codec rules pip tick now w)
        × Refines view (view w) released.shifts found (began, found) (release api codec rules pip w)
        × Refines view (view w) (view w) false (Shifts.count s) (count api codec rules w)
  unfolding claim touch release count
  calls-Refine pip tick now w =
      let (w', set) = load api codec rules w in
      let e = load-keeps w in
      let seen = load-shows w in
      (
        claim_in-Refines pip tick now (view w) set w' e seen,
        touch_in-Refines pip tick now (view w) set w' e seen,
        release_in-Refines pip (view w) set w' e seen,
        counted-Refines (view w) set w' e seen,
      )
