-- ===== src/Economy/Registration/Tests.antt =====
-- A farm of two buildings behind an address, and each theorem at a call of it.
use pipsim.Common.{ℕ, ◌≡◌, ◌⊎◌, refl, Bool, true, false, none, some, List, [], ◌∷◌, if◌then◌else◌}
use pipsim.Common.Tests.{ℕ-Eq}
use pipsim.Common.Env.{Env, getenv}
use pipsim.Common.Strings.{bytes, bytes_eq}
use pipsim.Common.Text.{trim_space, split, trim, parse_uint}
use pipsim.Common.Assoc.{Assoc, lookup, insert}
use pipsim.Farm.Shifts.{ShiftSet}
use pipsim.Farm.Service.{Service}
use pipsim.Farm.Specs.{Spec, parse_specs}
use pipsim.Farm.Startup.{startup, new_service}
use pipsim.Farm.Startup.Hosting.{is_configured}
use pipsim.Economy.Payroll.{any_id}
use pipsim.Economy.Registration.Started.{driver_ids, started-discovered}
use pipsim.Farm.Host.{Host, ids, sort_ids, insert_sorted, resolve, new_host}
use pipsim.Farm.Host.Listing.{shown}
use pipsim.Economy.Registration.{discover, Position, RegisterWorkplace, new_driver, register}
use pipsim.Economy.Registration.Hosted.{hosted, farm_registration, register-hosted}

abbrev empty : ShiftSet
empty = record { shifts = []; max = 2; lease = 15; max_gap = 40 }

abbrev building : ℕ → Service ShiftSet
building id = record { store = empty; id = id }

abbrev two_farms : Host ShiftSet
two_farms = record { buildings = (3, building 3) ∷ (1, building 1) ∷ []; next = 0 }

abbrev one_farm : Host ShiftSet
one_farm = record { buildings = (3, building 3) ∷ []; next = 0 }

made :
    new_host (building 1 ∷ building 3 ∷ []) []
    ≡ record two_farms { buildings = (1, building 1) ∷ (3, building 3) ∷ [] }
unfolding new_host insert
made = refl

-- sim-core keeps the intents, and refuses the second.
abbrev keep_first : RegisterWorkplace → List RegisterWorkplace → List RegisterWorkplace × Bool
keep_first r [] = (r ∷ [], true)
keep_first r (s ∷ rs) = (s ∷ rs, false)

abbrev square : Position
square = record { x_milli = 2000; y_milli = 500 }

abbrev placed : Assoc ℕ Position
placed = (3, square) ∷ []

two_ids : ids two_farms ≡ 1 ∷ 3 ∷ []
unfolding ids sort_ids insert_sorted
two_ids = refl

-- A workplace without `List`: its one driver learns who it is when it registers.
register-hosted_example :
    (lookup 3 placed ≡ none)
      × (register (hosted 9 keep_first) placed new_driver (one_farm, [])
          ≡ (new_driver, (shown one_farm (building 3), []), false))
    ⊎ ((position : Position) × (lookup 3 placed ≡ some position)
        × (let (v', sent) = keep_first (farm_registration 3 position) [] in
            register (hosted 9 keep_first) placed new_driver (one_farm, []) ≡ (
              if sent then record new_driver { id = 3; kind = bytes "farm" } else new_driver,
              (shown one_farm (building 3), v'),
              sent,
            )))
unfolding resolve
register-hosted_example =
    register-hosted 9 keep_first placed new_driver one_farm [] (building 3) refl

-- A farm whose configuration names two buildings.
abbrev settings : Env
settings = (bytes "WORKPLACES", bytes " 3, ,1 ") ∷ []

abbrev started : Host ShiftSet
started = new_host (new_service 3 ∷ new_service 1 ∷ []) []

started-discovered_example :
    (specs : List Spec) × (parse_specs (trim_space (getenv settings (bytes "WORKPLACES")))
      ≡ some specs)
    × ((id : ℕ)
        → any_id id (driver_ids (discover (hosted 9 keep_first) (started, [])).1)
          ≡ is_configured id specs)
unfolding startup getenv lookup bytes_eq parse_specs split trim parse_uint new_host
started-discovered_example = started-discovered 9 keep_first settings started [] refl refl
