-- ===== src/Economy/Registration/Started.antt =====
-- The gateway's discovery against a farm as services/workplaces/farm/cmd/farm/main.go starts it.
use pipsim.Common.{
  ℕ, ◌≡◌, ◌≢◌, refl, ◌∙◌, ap, Bool, true, false, Option, none, some, List, [], ◌∷◌, inl, inr,
  if◌then◌else◌, map, arith, nat_eq, leb, Bool-cases,
}
use pipsim.Common.Env.{Env, getenv}
use pipsim.Common.Tests.{◌==◌, ℕ-Eq}
use pipsim.Common.Strings.{Bytes-Eq, bytes}
use pipsim.Common.Text.{trim_space}
use pipsim.Common.Assoc.{Assoc, lookup}
use pipsim.Farm.Shifts.{ShiftSet}
use pipsim.Farm.Specs.{Spec, parse_specs, parse_specs-strict}
use pipsim.Farm.Service.{Service}
use pipsim.Farm.Host.{Host, ids, sort_ids, insert_sorted}
use pipsim.Farm.Startup.{new_service, startup}
use pipsim.Farm.Startup.Hosting.{is_configured, HostsAll, startup-HostsAll}
use pipsim.Economy.Driver.{Driver}
use pipsim.Economy.Payroll.{any_id}
use pipsim.Economy.Registration.{RegisterWorkplace, discover, new_driver_for}
use pipsim.Economy.Registration.Hosted.{hosted, farm_driver, discover-hosted}

any_id-insert_sorted :
    (x a : ℕ) (l : List ℕ)
    → any_id x (insert_sorted a l) ≡ (if nat_eq a x then true else any_id x l)
unfolding any_id insert_sorted
any_id-insert_sorted x a [] = ground arith
any_id-insert_sorted x a (b ∷ l) = elim (Bool-cases (leb a b)) [
  | inl before ↦ rw before (ground arith)
  | inr behind ↦ rw behind (ground (arith, any_id-insert_sorted x a l))
]

any_id-sort_ids : (x : ℕ) (l : List ℕ) → any_id x (sort_ids l) ≡ any_id x l
unfolding any_id sort_ids
any_id-sort_ids x [] = refl
any_id-sort_ids x (a ∷ l) =
    ground (arith, any_id-insert_sorted x a (sort_ids l), any_id-sort_ids x l)

abbrev is_some : Option (Service ShiftSet) → Bool
is_some none = false
is_some (some b) = true

any_id-keys :
    (x : ℕ) (entries : Assoc ℕ (Service ShiftSet))
    → any_id x (map (λ (e : ℕ × Service ShiftSet). e.0) entries) ≡ is_some (lookup x entries)
unfolding any_id lookup
any_id-keys x [] = refl
any_id-keys x (e ∷ entries) = ground (arith, any_id-keys x entries)

-- The host's ids are those that were configured.
any_id-ids :
    (specs : List Spec) (h : Host ShiftSet) (x : ℕ)
    → HostsAll specs h
    → any_id x (ids h) ≡ is_configured x specs
unfolding ids
any_id-ids specs h x (is_host, has) =
    any_id-sort_ids x (map (λ (e : ℕ × Service ShiftSet). e.0) h.buildings)
    ∙ (any_id-keys x h.buildings ∙ (ap is_some (has x) ∙ ground arith))

nonempty-ids : (specs : List Spec) (h : Host ShiftSet) → HostsAll specs h → specs ≢ [] → ids h ≢ []
unfolding any_id
nonempty-ids [] h hosts ne e = absurd (ne refl)
nonempty-ids (s ∷ specs) h hosts ne e =
    let first : any_id s.id (ids h) ≡ true = any_id-ids (s ∷ specs) h s.id hosts ∙ ground arith in
    cc (rw e at first)

-- The ids of the drivers that were found.
abbrev pub driver_ids : Option (List Driver) → List ℕ
driver_ids none = []
driver_ids (some ds) = map (λ (d : Driver). d.id) ds

driver_ids-farm_driver : (l : List ℕ) → driver_ids (some (map farm_driver l)) ≡ l
unfolding new_driver_for
driver_ids-farm_driver [] = refl
driver_ids-farm_driver (id ∷ l) = ap (λ rest. id ∷ rest) (driver_ids-farm_driver l)

module _ {V : Type 0} (now : ℕ) (submit : RegisterWorkplace → V → V × Bool) where
  -- A farm that has started with the variable WORKPLACES set, its shifts kept in memory, is
  -- discovered: the gateway gets drivers for the configured ids and for no other.
  pub started-discovered :
      (environment : Env) (h : Host ShiftSet) (v : V)
      → (trim_space (getenv environment (bytes "WORKPLACES")) == bytes "") ≡ false
      → startup new_service environment ≡ some h
      → (specs : List Spec) × (parse_specs (trim_space (getenv environment (bytes "WORKPLACES")))
          ≡ some specs)
        × ((id : ℕ)
            → any_id id (driver_ids (discover (hosted now submit) (h, v)).1)
              ≡ is_configured id specs)
  started-discovered environment h v set started = elim (startup-HostsAll environment set) [
    | inl (bad, stopped) ↦ ground arith
    | inr (specs, h', read, e, hosts) ↦
        let same : h' ≡ h = ground (arith, e, started) in
        let some_specs : specs ≢ [] =
          λ none_left. ground (arith, parse_specs-strict _ specs read) in
        let found =
          discover-hosted now submit h' v hosts.0 (nonempty-ids specs h' hosts some_specs) in
        (
          specs,
          read,
          λ id.
              rw (← same, found)
                (ap (any_id id) (driver_ids-farm_driver (ids h')) ∙ any_id-ids specs h' id hosts),
        )
  ]
