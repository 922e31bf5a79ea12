-- ===== src/Economy/Registration/Hosted.antt =====
-- The gateway's discovery and registration against the farm's host, over in-memory stores
-- (services/workplaces/farm/internal/farm/host.go).
use pipsim.Common.{
  ℕ, zero, suc, ◌≡◌, ◌≢◌, ◌⊎◌, refl, inl, inr, Bool-cases, Option-cases, Bool, false, none, some,
  List, [], ◌∷◌, if◌then◌else◌, map, arith, All, All-mono,
}
use pipsim.Common.Tests.{ℕ-Eq}
use pipsim.Common.Strings.{bytes}
use pipsim.Common.Assoc.{Assoc, lookup}
use pipsim.Connect.{ok}
use pipsim.Workplace.{Description}
use pipsim.Farm.Shifts.{ShiftSet, count}
use pipsim.Farm.Store.{mem_store}
use pipsim.Farm.Service.{Service, description, max_workers, food_price}
use pipsim.Farm.Service
use pipsim.Farm.Host.{Host, resolve, forward, describe_each, list, ids}
use pipsim.Farm.Host.Listing.{
  Hosts, resolve-Hosts, shown, forward-describe, shown-Hosts, IsHost, ids-Hosts,
}
use pipsim.Economy.Driver.{Driver}
use pipsim.Economy.Registration.{
  Position, RegisterWorkplace, Address, discover, discovered, driver_of, new_driver_for, describe,
  registration, offers, register_described, submit_known, register, keep_registered,
}

abbrev pub farm_driver : ℕ → Driver
farm_driver id = new_driver_for id (bytes "farm")

describe_each-ok :
    (now id : ℕ) (l : List ℕ) (h h' : Host ShiftSet) (d : Description) (ds : List Description)
    → forward mem_store id (Service.describe mem_store now) h ≡ (h', ok d)
    → (describe_each mem_store now l h').1 ≡ ok ds
    → (describe_each mem_store now (id ∷ l) h).1 ≡ ok (d ∷ ds)
unfolding describe_each
describe_each-ok now id l h h' d ds first others =
    rw (first, describe_each) (rw first (rw others refl))

-- `List` of the host: each id is answered with a building that makes that driver.
describe_each-Hosts :
    (now : ℕ) (l : List ℕ) (h : Host ShiftSet)
    → All (Hosts h) l
    → (ds : List Description) × ((describe_each mem_store now l h).1 ≡ ok ds)
      × (map driver_of ds ≡ map farm_driver l)
unfolding describe_each description
describe_each-Hosts now [] h hosted = ([], refl, refl)
describe_each-Hosts now (id ∷ l) h ((nonzero, b, found, own), hosted) =
    let (ds, listed, drivers) =
      describe_each-Hosts now l (shown h b) (All-mono (shown-Hosts h b) l hosted) in
    (
      description b.id (count b.store) ∷ ds,
      describe_each-ok now id l h (shown h b) (description b.id (count b.store)) ds
          (forward-describe now h id b (resolve-Hosts h id b nonzero found)) listed,
      (let same : driver_of (description b.id (count b.store)) ≡ farm_driver id = rw own refl in
          cc),
    )

discovered-ok :
    (ds : List Description) (l : List ℕ)
    → map driver_of ds ≡ map farm_driver l
    → l ≢ []
    → discovered (ok ds) ≡ some (map farm_driver l)
unfolding discovered
discovered-ok [] [] e nonempty = absurd (nonempty refl)
discovered-ok [] (id ∷ l) e nonempty = ground arith
discovered-ok (d ∷ ds) l e nonempty = rw e refl

-- What a farm's building is registered as.
abbrev pub farm_registration : ℕ → Position → RegisterWorkplace
farm_registration id position = record {
  workplace_id = id;
  kind = bytes "farm";
  position = position;
  capacity = max_workers;
  sells = record { resource_kind = 2; price = food_price } ∷ [];
}

module _ {V : Type 0} (now : ℕ) (submit : RegisterWorkplace → V → V × Bool) where
  -- The farm's host behind an address, with sim-core's state beside it.
  abbrev pub hosted : Address (Host ShiftSet × V)
  hosted = record {
    list = λ w. let (h', reply) = list mem_store now w.0 in ((h', w.1), reply);
    describe = λ id w.
        let (h', reply) = forward mem_store id (Service.describe mem_store now) w.0 in
        ((h', w.1), reply);
    submit = λ intent w. let (v', sent) = submit intent w.1 in ((w.0, v'), sent);
  }

  -- The gateway discovers one driver for each building of a farm, in the order of the ids, each
  -- with its building's id and the farm's kind.
  pub discover-hosted :
      (h : Host ShiftSet) (v : V)
      → IsHost h
      → ids h ≢ []
      → (discover hosted (h, v)).1 ≡ some (map farm_driver (ids h))
  unfolding discover list
  discover-hosted h v is_host nonempty =
      let (ds, listed, drivers) = describe_each-Hosts now (ids h) h (ids-Hosts h is_host) in
      rw listed (discovered-ok ds (ids h) drivers nonempty)

  registration-description :
      (id workers : ℕ) (position : Position)
      → registration (description id workers) position ≡ farm_registration id position
  unfolding registration description offers
  registration-description id workers position = refl

  register-known :
      (positions : Assoc ℕ Position) (d : Driver) (h : Host ShiftSet) (v : V) (b : Service ShiftSet)
      → resolve d.id h ≡ ok b
      → register hosted positions d (h, v)
        ≡ submit_known hosted
            (description b.id (count b.store))
            (lookup b.id positions)
            d
            (shown h b, v)
  unfolding register register_described describe description
  register-known positions d h v b found = rw (forward-describe now h d.id b found) refl

  -- A driver registers with a farm under its building's id, or under 0 where the farm has only one
  -- building. Without a configured position nothing reaches sim-core and the driver stays as it
  -- is. Else the one intent that is submitted carries the building's own id, kind, capacity and
  -- price list with the configured position, and the driver takes on that id and kind exactly if
  -- the intent is accepted.
  pub register-hosted :
      (positions : Assoc ℕ Position) (d : Driver) (h : Host ShiftSet) (v : V) (b : Service ShiftSet)
      → resolve d.id h ≡ ok b
      → (lookup b.id positions ≡ none)
          × (register hosted positions d (h, v) ≡ (d, (shown h b, v), false))
        ⊎ ((position : Position) × (lookup b.id positions ≡ some position)
            × (let (v', sent) = submit (farm_registration b.id position) v in
                register hosted positions d (h, v) ≡ (
                  if sent then record d { id = b.id; kind = bytes "farm" } else d,
                  (shown h b, v'),
                  sent,
                )))
  unfolding submit_known description
  register-hosted positions d h v b found =
      rw (register-known positions d h v b found) (elim (Option-cases (lookup b.id positions)) [
        | inl missing ↦ inl (missing, rw missing refl)
        | inr (position, known) ↦ inr (
          position,
          known,
          elim (Bool-cases (submit (farm_registration b.id position) v).1) [
            | inl sent ↦
                rw known (rw (registration-description b.id (count b.store) position, sent) refl)
            | inr refused ↦
                rw known (rw (registration-description b.id (count b.store) position, refused) refl)
          ],
        )
      ])

  register-keeps :
      (positions : Assoc ℕ Position) (d : Driver) (h : Host ShiftSet) (v : V)
      → d.kind ≡ bytes "farm"
      → Hosts h d.id
      → ((register hosted positions d (h, v)).0 ≡ d)
        × Hosts (register hosted positions d (h, v)).1.0 d.id
  register-keeps positions d h v kind (nonzero, b, found, own) =
      let same : record d { id = b.id; kind = bytes "farm" } ≡ d = rw (own, ← kind) refl in
      let still = shown-Hosts h b d.id (nonzero, b, found, own) in
      elim (register-hosted positions d h v b (resolve-Hosts h d.id b nonzero found)) [
        | inl (missing, e) ↦ rw e (refl, still)
        | inr (position, known, e) ↦
            elim (Bool-cases (submit (farm_registration b.id position) v).1) [
              | inl sent ↦ rw e (rw sent (same, still))
              | inr refused ↦ rw e (rw refused (refl, still))
            ]
      ]

  -- A driver that knows its building of a farm keeps its identity, its employees and its offers
  -- through any number of registrations, whatever sim-core answers, with or without a position.
  pub keep_registered_keeps :
      (rounds : ℕ) (positions : Assoc ℕ Position) (d : Driver) (h : Host ShiftSet) (v : V)
      → d.kind ≡ bytes "farm"
      → Hosts h d.id
      → (keep_registered hosted rounds positions d (h, v)).0 ≡ d
  unfolding keep_registered
  keep_registered_keeps zero positions d h v kind hosts = refl
  keep_registered_keeps (suc rounds) positions d h v kind hosts =
      let (kept, still) = register-keeps positions d h v kind hosts in
      rw (kept, keep_registered)
        (keep_registered_keeps rounds positions d (register hosted positions d (h, v)).1.0
          ((register hosted positions d (h, v)).1.1) kind still)
