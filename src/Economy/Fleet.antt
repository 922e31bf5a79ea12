-- ===== src/Economy/Fleet.antt =====
-- One cycle of the economy, services/world-gateway/internal/economy/economy.go. The drivers that
-- have introduced themselves stand in a map by their ids, which differ; the loop that calls the
-- cycle once a second, its deadline and the log lines are not modelled.
use pipsim.Common.{
  ℕ, zero, suc, ◌+◌, ◌%◌, Bool, true, false, Option, none, some, List, [], ◌∷◌, if◌then◌else◌,
  nat_eq, length, get_elem?,
}
use pipsim.Common.Tests.{ℕ-Eq}
use pipsim.Common.Words.{lt64}
use pipsim.Common.Strings.{bytes}
use pipsim.Common.Assoc.{Assoc, lookup, insert}
use pipsim.Economy.Outside.{Outside, Pip, Snapshot}
use pipsim.Economy.Driver.{Driver, sync_employment, offer, work, end_shift, on_hired}
use pipsim.Economy.Payroll.{pay_wages}

abbrev pub max_offers_per_round : ℕ
max_offers_per_round = 8

pub record Fleet : Type 0 where
  pub drivers : Assoc ℕ Driver
  pub next : ℕ

abbrev pub or_zero : Option ℕ → ℕ
or_zero none = 0
or_zero (some n) = n

abbrev pub or_empty : Option (Assoc ℕ ℕ) → Assoc ℕ ℕ
or_empty none = []
or_empty (some m) = m

-- `employedBy[id]`: the pips that the snapshot shows employed by the workplace.
unfoldable pub employed_by : ℕ → List Pip → Assoc ℕ Bool → Assoc ℕ Bool
employed_by id [] set = set
employed_by id (p ∷ ps) set =
    employed_by id ps (if nat_eq p.employer_workplace_id id then insert p.id true set else set)

unfoldable pub ids_of : Assoc ℕ Driver → List ℕ
ids_of [] = []
ids_of ((id, d) ∷ ds) = id ∷ ids_of ds

-- `live[(start+i)%len(live)]` for i from `i` on, for so many rounds.
unfoldable pub rotation : ℕ → ℕ → ℕ → List ℕ → List ℕ
rotation zero start i live = []
rotation (suc rounds) start i live =
    or_zero (get_elem? live ((start + i) % length live)) ∷ rotation rounds start (i + 1) live

unfoldable pub initial_offers : Assoc ℕ Driver → Assoc ℕ ℕ
initial_offers [] = []
initial_offers ((id, d) ∷ ds) = (id, max_offers_per_round) ∷ initial_offers ds

-- The state of the loop over the pips of the snapshot.
pub record Round (W : Type 0) : Type 0 where
  pub drivers : Assoc ℕ Driver
  pub world : W
  pub offers_left : Assoc ℕ ℕ
  pub credits : Assoc ℕ (Assoc ℕ ℕ)
  pub worked : ℕ
  pub offered : ℕ
  pub commuting : ℕ

module _ {W : Type 0} (out : Outside W) where
  -- The shifts of those who are gone are ended.
  unfoldable pub end_all : List ℕ → ℕ → Driver → W → Driver × W
  end_all [] tick d w = (d, w)
  end_all (pip ∷ gone) tick d w =
      let (d', w') = end_shift out pip tick (bytes "no longer employed here") d w in
      end_all gone tick d' w'

  unfoldable pub sync_all : List Pip → ℕ → Assoc ℕ Driver → W → Assoc ℕ Driver × W
  unfolding end_all
  sync_all pips tick [] w = ([], w)
  sync_all pips tick ((id, d) ∷ ds) w =
      let (d', gone) = sync_employment (employed_by id pips []) (out.now w) d in
      let (d'', w') = end_all gone tick d' w in
      let (ds', w'') = sync_all pips tick ds w' in ((id, d'') ∷ ds', w'')

  -- `credits[id][pip] = wage` for a pip that worked inside and earned something.
  unfoldable pub credit_wage : ℕ → ℕ → ℕ → Assoc ℕ (Assoc ℕ ℕ) → Assoc ℕ (Assoc ℕ ℕ)
  credit_wage id pip wage credits =
      if lt64 0 wage
      then insert id (insert pip wage (or_empty (lookup id credits))) credits
      else credits

  unfoldable pub employ : Pip → ℕ → ℕ → Driver → Round W → Round W
  unfolding credit_wage
  employ p tick id d r =
      let inside = nat_eq p.inside_workplace_id id in
      let (d', w', worked, wage) = work out p.id tick inside d r.world in
      let counted : Round W = record r {
        drivers = insert id d' r.drivers;
        world = w';
        commuting = if inside then r.commuting else r.commuting + 1;
      } in
      if worked
      then (if inside
          then record counted {
            worked = r.worked + 1;
            credits = credit_wage id p.id wage r.credits;
          }
          else counted)
      else counted

  -- One workplace of the rotation: whether an offer went out.
  unfoldable pub try_offer : Pip → ℕ → ℕ → Round W → Round W × Bool
  try_offer p tick id r = elim (or_zero (lookup id r.offers_left)) [
    | zero ↦ (r, false)
    | suc left ↦ elim (lookup id r.drivers) [
      | none ↦ (r, false)
      | some d ↦
          let (d', w', sent) = offer out p.id tick d r.world in
          let asked : Round W = record r { drivers = insert id d' r.drivers; world = w' } in
          if sent
          then (
            record asked { offers_left = insert id left r.offers_left; offered = r.offered + 1 },
            true,
          )
          else (asked, false)
    ]
  ]

  -- An unemployed pip is offered to the first workplace of the rotation that has offers left and
  -- to which an offer goes out.
  unfoldable pub offer_first : Pip → ℕ → List ℕ → Round W → Round W
  unfolding try_offer
  offer_first p tick [] r = r
  offer_first p tick (id ∷ rest) r =
      let (r', sent) = try_offer p tick id r in
      let next = offer_first p tick rest r' in if sent then r' else next

  unfoldable pub serve_pip : Pip → ℕ → List ℕ → Round W → Round W
  serve_pip p tick order r = elim (lookup p.employer_workplace_id r.drivers) [
    | none ↦ offer_first p tick order r
    | some d ↦ employ p tick p.employer_workplace_id d r
  ]

  unfoldable pub serve_all : List Pip → ℕ → List ℕ → Round W → Round W
  serve_all [] tick order r = r
  serve_all (p ∷ ps) tick order r = serve_all ps tick order (serve_pip p tick order r)

  unfoldable pub pay_all : Assoc ℕ (Assoc ℕ ℕ) → ℕ → W → W
  pay_all [] tick w = w
  pay_all ((id, credits) ∷ rest) tick w = pay_all rest tick (pay_wages out id tick credits w)

  unfoldable pub start_round : Assoc ℕ Driver → W → Round W
  unfolding initial_offers
  start_round drivers w = record {
    drivers = drivers;
    world = w;
    offers_left = initial_offers drivers;
    credits = [];
    worked = 0;
    offered = 0;
    commuting = 0;
  }

  -- `cycle` from the snapshot to the end of the loop over the pips.
  unfoldable pub play_round : Snapshot → Fleet → W → Round W
  unfolding sync_all serve_all start_round
  play_round snap f w =
      let (drivers, w') = sync_all snap.pips snap.tick f.drivers w in
      let live = ids_of drivers in
      serve_all snap.pips snap.tick (rotation (length live) f.next 0 live) (start_round drivers w')

  -- The whole cycle; `false` is the error of a snapshot that could not be had.
  unfoldable pub cycle : Fleet → W → Fleet × W × Bool
  unfolding play_round pay_all
  cycle f w =
      let (w', snapshot) = out.snapshot w in
      elim snapshot [
        | none ↦ (f, w', false)
        | some snap ↦ elim f.drivers [
          | [] ↦ (f, w', true)
          | e ∷ ds ↦
              let r = play_round snap f w' in
              (
                record { drivers = r.drivers; next = f.next + 1 },
                pay_all r.credits snap.tick r.world,
                true,
              )
        ]
      ]

  -- `OnHired`: an outcome for a workplace that this gateway does not drive is ignored.
  unfoldable pub hired : ℕ → ℕ → Fleet → W → Fleet × W
  hired pip id f w = elim (lookup id f.drivers) [
    | none ↦ (f, w)
    | some d ↦
        let (d', w') = on_hired out pip d w in (record f { drivers = insert id d' f.drivers }, w')
  ]
