-- ===== src/Economy/Registration.antt =====
-- How a driver comes to know its building and puts it on the map: the first half of
-- services/world-gateway/internal/economy/driver.go, and `Fleet.Describe` of economy.go. What the
-- workplace and sim-core answer is a parameter; the timer that registers again is a count of
-- rounds.
pub mod Hosted
pub mod Started
mod Tests
use pipsim.Common.{ℕ, zero, suc, ◌%◌, Bool, true, false, Option, none, some, List, [], ◌∷◌, map}
use pipsim.Common.Tests.{ℕ-Eq}
use pipsim.Common.Strings.{Bytes, bytes}
use pipsim.Common.Assoc.{Assoc, lookup}
use pipsim.Connect.{
  Reply, ok, err, Code, invalid_argument, not_found, unavailable, unimplemented, internal,
}
use pipsim.Workplace.{ResourceKind, unspecified, grain, food, tool, ale, Offer, Description}
use pipsim.Economy.Driver.{Driver}

-- `simv1.Vec2`, two int32 as bit patterns.
pub record Position : Type 0 where
  pub x_milli : ℕ
  pub y_milli : ℕ

-- `simv1.WorkplaceOffer` and `simv1.RegisterWorkplaceIntent`.
pub record WorkplaceOffer : Type 0 where
  pub resource_kind : ℕ
  pub price : ℕ

pub record RegisterWorkplace : Type 0 where
  pub workplace_id : ℕ
  pub kind : Bytes
  pub position : Position
  pub capacity : ℕ
  pub sells : List WorkplaceOffer

-- The two calls on the workplace at one address, and the one on sim-core.
pub record Address (W : Type 0) : Type 0 where
  pub list : W → W × Reply (List Description)
  pub describe : ℕ → W → W × Reply Description
  pub submit : RegisterWorkplace → W → W × Bool

-- `NewDriver`
abbrev pub new_driver : Driver
new_driver = record { id = 0; kind = bytes ""; employed = []; hired_at = []; pending = [] }

-- `NewDriverFor`
unfoldable pub new_driver_for : ℕ → Bytes → Driver
new_driver_for id kind = record new_driver { id = id; kind = kind }

abbrev pub driver_of : Description → Driver
driver_of d = new_driver_for d.workplace_id d.kind

-- The three answers to `List`: at least one building, none at all, and an error, of which
-- Unimplemented is a workplace that has no `List`.
unfoldable pub discovered : Reply (List Description) → Option (List Driver)
unfolding new_driver_for
discovered (ok []) = none
discovered (ok (d ∷ ds)) = some (driver_of d ∷ map driver_of ds)
discovered (err unimplemented) = some (new_driver ∷ [])
discovered (err invalid_argument) = none
discovered (err not_found) = none
discovered (err unavailable) = none
discovered (err internal) = none

-- The enum's numbers.
abbrev pub kind_number : ResourceKind → ℕ
kind_number unspecified = 0
kind_number grain = 1
kind_number food = 2
kind_number tool = 3
kind_number ale = 4

unfoldable pub offers : List Offer → List WorkplaceOffer
offers [] = []
offers (o ∷ os) = record { resource_kind = kind_number o.kind; price = o.price } ∷ offers os

unfoldable pub registration : Description → Position → RegisterWorkplace
unfolding offers
registration desc position = record {
  workplace_id = desc.workplace_id;
  kind = desc.kind;
  position = position;
  capacity = desc.max_workers % 0x100000000;
  sells = offers desc.sells;
}

module _ {W : Type 0} (at_address : Address W) where
  unfoldable pub discover : W → W × Option (List Driver)
  unfolding discovered
  discover w = let (w', reply) = at_address.list w in (w', discovered reply)

  -- `Driver.Describe`
  unfoldable pub describe : Driver → W → W × Reply Description
  describe d w = at_address.describe d.id w

  -- `Fleet.Describe`: a workplace that does not answer is left out.
  unfoldable pub describe_all : List Driver → W → W × List Description
  unfolding describe
  describe_all [] w = (w, [])
  describe_all (d ∷ ds) w =
      let (w', reply) = describe d w in
      let (w'', others) = describe_all ds w' in
      (w'', elim reply [ err c ↦ others | ok desc ↦ desc ∷ others ])

  -- `Register` from a description on.
  unfoldable pub submit_known : Description → Option Position → Driver → W → Driver × W × Bool
  unfolding registration
  submit_known desc none d w = (d, w, false)
  submit_known desc (some position) d w =
      let (w', sent) = at_address.submit (registration desc position) w in
      elim sent [
        | true ↦ (record d { id = desc.workplace_id; kind = desc.kind }, w', true)
        | false ↦ (d, w', false)
      ]

  unfoldable pub register_described :
      Assoc ℕ Position → Driver → W × Reply Description → Driver × W × Bool
  unfolding submit_known
  register_described positions d (w, err c) = (d, w, false)
  register_described positions d (w, ok desc) =
      submit_known desc (lookup desc.workplace_id positions) d w

  -- `Driver.Register`; `false` is an error.
  unfoldable pub register : Assoc ℕ Position → Driver → W → Driver × W × Bool
  unfolding register_described describe
  register positions d w = register_described positions d (describe d w)

  -- `KeepRegistered`, for so many rounds before the context ends. An error is only logged.
  unfoldable pub keep_registered : ℕ → Assoc ℕ Position → Driver → W → Driver × W
  unfolding register
  keep_registered zero positions d w = (d, w)
  keep_registered (suc rounds) positions d w =
      let (d', w', _) = register positions d w in keep_registered rounds positions d' w'
