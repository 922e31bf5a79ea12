-- ===== src/Economy/Driver/Employment.antt =====
-- `syncEmployment` of services/world-gateway/internal/economy/driver.go: the driver's view of its
-- employees, and the pips that it takes to have left.
use pipsim.Common.{
  ℕ, ◌-◌, ◌≡◌, refl, Bool, true, false, not, ◌||◌, Option, none, some, List, [], ◌∷◌, arith, ltb,
  if◌then◌else◌, nat_eq,
}
use pipsim.Common.Tests.{==_iff, ℕ-Eq}
use pipsim.Common.Assoc.{Assoc, lookup, insert, lookup-insert, IsMap}
use pipsim.Economy.Driver.{
  Driver, holds, hire_grace, fresh_hires, with_hires, dropped, sync_employment,
}

-- The pip was hired at most the grace period ago.
abbrev pub is_fresh : ℕ → Option ℕ → Bool
is_fresh now none = false
is_fresh now (some at) = not (ltb hire_grace (now - at))

abbrev is_some : {A : Type 0} → Option A → Bool
is_some none = false
is_some (some a) = true

lookup-fresh_hires :
    (pip now : ℕ) (hires : Assoc ℕ ℕ)
    → IsMap hires
    → is_some (lookup pip (fresh_hires now hires)) ≡ is_fresh now (lookup pip hires)
unfolding fresh_hires lookup
lookup-fresh_hires pip now [] h = refl
lookup-fresh_hires pip now (e ∷ hires) h =
    ground (arith, ==_iff e.0 pip, lookup-fresh_hires pip now hires h.1)

holds-with_hires :
    (pip : ℕ) (hires : Assoc ℕ ℕ) (employed : Assoc ℕ Bool)
    → holds pip (with_hires hires employed) ≡ (is_some (lookup pip hires) || holds pip employed)
unfolding with_hires lookup
holds-with_hires pip [] employed = refl
holds-with_hires pip (e ∷ hires) employed = ground (
  arith,
  ==_iff e.0 pip,
  holds-with_hires pip hires (insert e.0 true employed),
  lookup-insert e.0 pip true employed,
)

-- `pip` stands in the list.
abbrev pub among : ℕ → List ℕ → Bool
among pip [] = false
among pip (p ∷ ps) = if nat_eq p pip then true else among pip ps

among-dropped :
    (pip : ℕ) (old employed : Assoc ℕ Bool)
    → among pip (dropped old employed)
      ≡ (if is_some (lookup pip old) then not (holds pip employed) else false)
unfolding dropped lookup
among-dropped pip [] employed = refl
among-dropped pip (e ∷ old) employed = ground (arith, among-dropped pip old employed)

-- A pip is reported as gone exactly if the driver saw it employed before, sim-core does not show
-- it employed here now, and it was not hired within the grace period. The driver's new view holds
-- exactly the pips that sim-core shows and those hired within that period.
pub sync_employment_exact :
    (pip now : ℕ) (employed : Assoc ℕ Bool) (d : Driver)
    → IsMap d.hired_at
    → let (d', gone) = sync_employment employed now d in
      let stays = is_fresh now (lookup pip d.hired_at) || holds pip employed in
      (among pip gone ≡ (if is_some (lookup pip d.employed) then not stays else false))
      × (holds pip d'.employed ≡ stays)
unfolding sync_employment
sync_employment_exact pip now employed d h =
    let hires = fresh_hires now d.hired_at in
    ground (
      arith,
      lookup-fresh_hires pip now d.hired_at h,
      holds-with_hires pip hires employed,
      among-dropped pip d.employed (with_hires hires employed),
    )
