-- ===== src/Farm/Startup/Hosting.antt =====
-- The buildings of the host that services/workplaces/farm/cmd/farm/main.go builds.
use pipsim.Common.{
  ℕ, ◌≡◌, ◌≢◌, ◌⊎◌, refl, Bool, true, false, Option, none, some, List, [], ◌∷◌, if◌then◌else◌,
  arith, All, nat_eq, inl, inr, Bool-cases, Option-cases,
}
use pipsim.Common.Env.{Env, getenv}
use pipsim.Common.Tests.{◌==◌, ℕ-Eq}
use pipsim.Common.Strings.{Bytes, Bytes-Eq, bytes}
use pipsim.Common.Text.{trim_space}
use pipsim.Common.Assoc.{Assoc, lookup, insert, lookup-insert, IsMap, insert-IsMap}
use pipsim.Farm.Specs.{Spec, parse_specs, parse_specs-strict, IsUsable}
use pipsim.Farm.Shifts.{ShiftSet}
use pipsim.Farm.Service.{Service}
use pipsim.Farm.Host.{Host, new_host}
use pipsim.Farm.Host.Listing.{IsHost}
use pipsim.Farm.Startup.{workplace_specs, new_service, build, host_of, startup}

-- The id is one of the configured ones.
abbrev pub is_configured : ℕ → List Spec → Bool
is_configured id [] = false
is_configured id (s ∷ specs) = if nat_eq s.id id then true else is_configured id specs

lookup-new_host :
    (specs : List Spec) (built : Assoc ℕ (Service ShiftSet)) (id : ℕ)
    → lookup id (new_host (build new_service specs) built).buildings
      ≡ (if is_configured id specs then some (new_service id) else lookup id built)
unfolding new_host build
lookup-new_host [] built id = refl
lookup-new_host (s ∷ specs) built id = ground (
  arith,
  lookup-new_host specs (insert s.id (new_service s.id) built) id,
  lookup-insert s.id id (new_service s.id) built,
)

-- Kept under its own id, which is not 0.
abbrev IsOwn : ℕ × Service ShiftSet → Type 0
IsOwn e = (e.0 ≢ 0) × (e.1.id ≡ e.0)

insert-IsOwn :
    (b : Service ShiftSet) (built : Assoc ℕ (Service ShiftSet))
    → b.id ≢ 0
    → All IsOwn built
    → All IsOwn (insert b.id b built)
unfolding insert
insert-IsOwn b [] ne h = ((ne, refl), tt)
insert-IsOwn b (e ∷ built) ne (own, h) = elim (Bool-cases (nat_eq e.0 b.id)) [
  | inl same ↦ rw same ((own.0, ground arith), h)
  | inr other ↦ rw other (own, insert-IsOwn b built ne h)
]

new_host-IsHost :
    (specs : List Spec) (built : Assoc ℕ (Service ShiftSet))
    → All IsUsable specs
    → IsMap built
    → All IsOwn built
    → IsHost (new_host (build new_service specs) built)
unfolding new_host build
new_host-IsHost [] built usable is_map own = (is_map, own)
new_host-IsHost (s ∷ specs) built (first, usable) is_map own =
    new_host-IsHost specs (insert s.id (new_service s.id) built) usable
      (insert-IsMap s.id (new_service s.id) built is_map)
      (insert-IsOwn (new_service s.id) built first.0 own)

-- What a host of configured buildings is.
abbrev pub HostsAll : List Spec → Host ShiftSet → Type 0
HostsAll specs h =
    IsHost h
    × ((id : ℕ)
        → lookup id h.buildings ≡ (if is_configured id specs then some (new_service id) else none))

startup-specs :
    (environment : Env) (specs : Option (List Spec))
    → (trim_space (getenv environment (bytes "WORKPLACES")) == bytes "") ≡ false
    → parse_specs (trim_space (getenv environment (bytes "WORKPLACES"))) ≡ specs
    → startup new_service environment ≡ host_of new_service specs
unfolding startup workplace_specs
startup-specs environment specs set e = rw (set, e) refl

-- A farm that keeps its shifts in memory and whose variable WORKPLACES is not blank starts exactly
-- if the variable reads as a list of ids, and then hosts one new building under each of these ids
-- and no other.
pub startup-HostsAll :
    (environment : Env)
    → (trim_space (getenv environment (bytes "WORKPLACES")) == bytes "") ≡ false
    → let configured = parse_specs (trim_space (getenv environment (bytes "WORKPLACES"))) in
      ((configured ≡ none) × (startup new_service environment ≡ none))
      ⊎ ((specs : List Spec) × (h : Host ShiftSet) × (configured ≡ some specs)
          × (startup new_service environment ≡ some h)
          × HostsAll specs h)
unfolding lookup
startup-HostsAll environment set =
    let raw : Bytes = trim_space (getenv environment (bytes "WORKPLACES")) in
    elim (Option-cases (parse_specs raw)) [
      | inl bad ↦ inl (bad, startup-specs environment none set bad)
      | inr (specs, read) ↦ inr (
        specs,
        new_host (build new_service specs) [],
        read,
        startup-specs environment (some specs) set read,
        (
          new_host-IsHost specs [] (parse_specs-strict raw specs read).2 tt tt,
          λ id. lookup-new_host specs [] id,
        ),
      )
    ]
