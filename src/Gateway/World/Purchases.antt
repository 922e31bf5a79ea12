-- ===== src/Gateway/World/Purchases.antt =====
-- `Buy` of services/world-gateway/internal/gateway/gateway.go over the fleet's `Buy` of
-- internal/economy/payroll.go, as cmd/gateway/main.go wires them.
use pipsim.Common.{ℕ, ◌≡◌, true, Option, none, some, List, inl, inr, arith, Option-cases}
use pipsim.Connect.{ok}
use pipsim.Workplace.{ResourceKind}
use pipsim.Economy
use pipsim.Economy.Payroll.{Purchase, any_id}
use pipsim.Economy.Payroll.Purchases.{SawBuyer, buy_checked}
use pipsim.Gateway.World.{Outside, Server, with_buy, buy, or_unavailable}

or_unavailable-ok :
    {A W : Type 0} (r : W × Option A) (a : A) → (or_unavailable r).1 ≡ ok a → r.1 ≡ some a
or_unavailable-ok (w, none) a e = ground arith
or_unavailable-ok (w, some b) a e = ground arith

module _ {W P B S D : Type 0} (out : Outside W P B S D) (economy : Economy.Outside.Outside W) where
  -- A purchase that the browser is told was made is for a building of the fleet, and sim-core's
  -- snapshot, taken after the one that dates the purchase, showed the pip inside that building with
  -- at least the price that the browser is told.
  pub buy_through :
      (s : Server W) (ids : List ℕ) (pip id : ℕ) (kind : ResourceKind) (w : W) (p : Purchase)
      → (buy out (with_buy (Economy.Payroll.buy economy ids) s) pip id kind w).1 ≡ ok p
      → p.ok ≡ true
      → (any_id id ids ≡ true) × SawBuyer economy pip id (economy.snapshot (out.snapshot w).0).1 p
  unfolding buy
  buy_through s ids pip id kind w p e done = elim (Option-cases (out.snapshot w).1) [
    | inl missing ↦ ground arith
    | inr (snap, seen) ↦
        let w' = (out.snapshot w).0 in
        let bought =
          or_unavailable-ok (Economy.Payroll.buy economy ids pip id kind snap.tick w') p
            (rw (seen, buy) at e) in
        buy_checked economy ids pip id kind snap.tick w' p bought done
  ]
