-- ===== src/Gateway/World.antt =====
-- The calls of the browser, services/world-gateway/internal/gateway/gateway.go. sim-core and the
-- stream back to the browser are parameters, and so are the pips, buildings, structures and deltas,
-- which the gateway only hands on. A context's cancellation is read off the outside world.
pub mod Streams
pub mod Purchases
mod Tests
use pipsim.Common.{
  ℕ, ◌+◌, Bool, true, false, not, ◌&&◌, Option, none, some, List, [], ◌∷◌, if◌then◌else◌,
}
use pipsim.Common.Strings.{Bytes}
use pipsim.Connect.{Reply, ok, err, Code, unavailable, unimplemented}
use pipsim.Workplace.{ResourceKind, Description}
use pipsim.Economy.Payroll.{Purchase}

pub record Snapshot (P B S : Type 0) : Type 0 where
  pub tick : ℕ
  pub pips : List P
  pub workplaces : List B
  pub structures : List S

pub record JoinResponse (P B S : Type 0) : Type 0 where
  pub tick : ℕ
  pub tick_hz : ℕ
  pub sim_seed : ℕ
  pub pips : List P
  pub structures : List S
  pub workplaces : List Description
  pub buildings : List B

-- What `Receive` yields until it is false, and whether `Err` is an error then.
pub record Upstream (D : Type 0) : Type 0 where
  pub deltas : List D
  pub failed : Bool

-- How a message to the browser ends: sent, refused as the end of the stream, or failed.
pub data Sent : Type 0 where
  delivered end_of_stream : Sent
  broken : Code → Sent

-- `AssignWorkResponse`
pub record Assignment : Type 0 where
  pub accepted : Bool
  pub reason : Bytes

-- sim-core, and the connection to one browser.
pub record Outside (W P B S D : Type 0) : Type 0 where
  pub snapshot : W → W × Option (Snapshot P B S)
  pub watch_deltas : ℕ → W → W × Option (Upstream D)
  pub submit_hire : ℕ → ℕ → W → W × Option Assignment
  pub send : D → W → W × Sent
  pub is_cancelled : W → Bool

-- `Server`, whose last two fields may be nil.
pub record Server (W : Type 0) : Type 0 where
  pub sim_seed : ℕ
  pub tick_hz : ℕ
  pub describe : Option (W → W × List Description)
  pub buy : Option (ℕ → ℕ → ResourceKind → ℕ → W → W × Option Purchase)

module _ {W : Type 0} where
  abbrev pub new_server : ℕ → ℕ → Server W
  new_server sim_seed tick_hz = record {
    sim_seed = sim_seed;
    tick_hz = tick_hz;
    describe = none;
    buy = none;
  }

  abbrev pub with_workplaces : (W → W × List Description) → Server W → Server W
  with_workplaces describe s = record s { describe = some describe }

  abbrev pub with_buy : (ℕ → ℕ → ResourceKind → ℕ → W → W × Option Purchase) → Server W → Server W
  with_buy buy s = record s { buy = some buy }

  unfoldable pub payroll_view : Option (W → W × List Description) → W → W × List Description
  payroll_view none w = (w, [])
  payroll_view (some describe) w = describe w

-- What a failed `Send` makes of the call.
unfoldable pub send_error : Sent → Bool → Reply (Unit {0})
send_error delivered cancelled = ok tt
send_error end_of_stream cancelled = ok tt
send_error (broken code) cancelled = if cancelled then ok tt else err code

-- An answer, or the error that the call reports in its place.
abbrev pub or_unavailable : {A W : Type 0} → W × Option A → W × Reply A
or_unavailable (w, none) = (w, err unavailable)
or_unavailable (w, some a) = (w, ok a)

module _ {W P B S D : Type 0} (out : Outside W P B S D) where
  unfoldable pub join_world : Server W → W → W × Reply (JoinResponse P B S)
  unfolding payroll_view
  join_world s w =
      let (w', snapshot) = out.snapshot w in
      elim snapshot [
        | none ↦ (w', err unavailable)
        | some snap ↦
            let (w'', payroll) = payroll_view s.describe w' in
            (
              w'',
              ok (record {
                tick = snap.tick;
                tick_hz = s.tick_hz;
                sim_seed = s.sim_seed;
                pips = snap.pips;
                structures = snap.structures;
                workplaces = payroll;
                buildings = snap.workplaces;
              }),
            )
      ]

  -- The loop of `StreamWorld`, with its count of the deltas that were sent.
  unfoldable pub forward : Bool → ℕ → List D → W → W × ℕ × Reply (Unit {0})
  unfolding send_error
  forward failed sent [] w =
      (w, sent, if failed && not (out.is_cancelled w) then err unavailable else ok tt)
  forward failed sent (delta ∷ deltas) w =
      let (w', outcome) = out.send delta w in
      let rest = forward failed (sent + 1) deltas w' in
      elim outcome [
        | delivered ↦ rest
        | end_of_stream ↦ (w', sent, send_error end_of_stream (out.is_cancelled w'))
        | broken code ↦ (w', sent, send_error (broken code) (out.is_cancelled w'))
      ]

  unfoldable pub stream_world : ℕ → W → W × ℕ × Reply (Unit {0})
  unfolding forward
  stream_world from_tick w =
      let (w', upstream) = out.watch_deltas from_tick w in
      elim upstream [ none ↦ (w', 0, err unavailable) | some up ↦ forward up.failed 0 up.deltas w' ]

  unfoldable pub assign_work : ℕ → ℕ → W → W × Reply Assignment
  assign_work pip_id workplace_id w =
      let (w', answer) = out.submit_hire pip_id workplace_id w in
      elim answer [ none ↦ (w', err unavailable) | some a ↦ (w', ok a) ]

  unfoldable pub buy : Server W → ℕ → ℕ → ResourceKind → W → W × Reply Purchase
  buy s pip_id workplace_id kind w = elim s.buy [
    | none ↦ (w, err unimplemented)
    | some run ↦
        let (w', snapshot) = out.snapshot w in
        elim snapshot [
          | none ↦ (w', err unavailable)
          | some snap ↦ or_unavailable (run pip_id workplace_id kind snap.tick w')
        ]
  ]

  -- `BuildWorkplace`
  unfoldable pub build_workplace : W → W × Reply (Unit {0})
  build_workplace w = (w, err unimplemented)
