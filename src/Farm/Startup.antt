-- ===== src/Farm/Startup.antt =====
-- The farm's `main`, services/workplaces/farm/cmd/farm/main.go: its configuration, the choice of a
-- store, and the host that it builds. The URL of Redis is taken to parse, and the servers and the
-- telemetry that `main` starts are not modelled.
pub mod Hosting
use pipsim.Common.{ℕ, Option, none, some, List, [], ◌∷◌, ◌++◌, map, if◌then◌else◌}
use pipsim.Common.Env.{Env, getenv, or_default, parse_int}
use pipsim.Common.Tests.{◌==◌}
use pipsim.Common.Words.{sign_bit}
use pipsim.Common.Strings.{Bytes, Bytes-Eq, bytes}
use pipsim.Common.Text.{trim_space}
use pipsim.Farm.Specs.{Spec, parse_specs}
use pipsim.Farm.Shifts.{ShiftSet, new_shift_set}
use pipsim.Farm.Service.{Service, max_workers, shift_lease, max_ticks_per_work}
use pipsim.Farm.Host.{Host, new_host}

unfoldable pub env_int : Env → Bytes → ℕ → ℕ
env_int environment key fallback = or_default fallback (parse_int sign_bit (getenv environment key))

unfoldable pub workplace_specs : Env → Option (List Spec)
unfolding env_int
workplace_specs environment =
    let raw = trim_space (getenv environment (bytes "WORKPLACES")) in
    if raw == bytes ""
    then some (record { id = env_int environment (bytes "WORKPLACE_ID") 1 } ∷ [])
    else parse_specs raw

unfoldable pub dapr_sidecar : Env → Bytes
dapr_sidecar environment =
    let port = trim_space (getenv environment (bytes "DAPR_HTTP_PORT")) in
    if port == bytes "" then [] else bytes "http://localhost:" ++ port

-- Where shifts live, in order of preference.
pub data StoreKind : Type 0 where
  memory redis : StoreKind
  dapr : Bytes → StoreKind

unfoldable pub store_kind : Env → StoreKind
unfolding dapr_sidecar
store_kind environment =
    let base = dapr_sidecar environment in
    if base == bytes ""
    then (if getenv environment (bytes "REDIS_URL") == bytes "" then memory else redis)
    else dapr base

-- `New`
abbrev pub new_service : ℕ → Service ShiftSet
new_service id = record {
  store = new_shift_set max_workers shift_lease max_ticks_per_work;
  id = id;
}

-- The loop over the specs, for one kind of store.
unfoldable pub build : {S : Type 0} → (ℕ → Service S) → List Spec → List (Service S)
build new [] = []
build new (s ∷ specs) = new s.id ∷ build new specs

abbrev pub host_of : {S : Type 0} → (ℕ → Service S) → Option (List Spec) → Option (Host S)
host_of new none = none
host_of new (some specs) = some (new_host (build new specs) [])

-- `none` is a bad configuration, on which `main` exits.
unfoldable pub startup : {S : Type 0} → (ℕ → Service S) → Env → Option (Host S)
unfolding workplace_specs build
startup new environment = host_of new (workplace_specs environment)
