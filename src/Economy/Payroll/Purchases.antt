-- ===== src/Economy/Payroll/Purchases.antt =====
-- `Buy` of services/world-gateway/internal/economy/payroll.go, and what it checks.
use pipsim.Common.{ℕ, ◌≡◌, true, false, Option, none, some, List, arith, inl, inr, Option-cases}
use pipsim.Common.Words.{lt64}
use pipsim.Workplace.{ResourceKind}
use pipsim.Economy.Outside.{Outside, Pip, Snapshot}
use pipsim.Economy.Payroll.{Purchase, any_id, find_pip, buy, check_buyer, purchase_inside}

module _ {W : Type 0} (out : Outside W) where
  -- The buyer stands in the building and holds the price.
  abbrev pub CanBuy : ℕ → Option Pip → Purchase → Type 0
  CanBuy id none p = ⊥
  CanBuy id (some buyer) p = (buyer.inside_workplace_id ≡ id) × (lt64 buyer.balance p.price ≡ false)

  abbrev pub SawBuyer : ℕ → ℕ → Option Snapshot → Purchase → Type 0
  SawBuyer pip id none p = ⊥
  SawBuyer pip id (some s) p = CanBuy id (find_pip pip s.pips) p

  check_buyer-CanBuy :
      (buyer : Option Pip) (id : ℕ) (kind : ResourceKind) (tick : ℕ) (w : W) (p : Purchase)
      → (check_buyer out buyer id kind tick w).1 ≡ some p
      → p.ok ≡ true
      → CanBuy id buyer p
  unfolding check_buyer purchase_inside
  check_buyer-CanBuy none id kind tick w p e done = ground arith
  check_buyer-CanBuy (some buyer) id kind tick w p e done = ground arith

  -- A purchase that `Buy` reports as made is for a building of the fleet, and the world's snapshot
  -- showed the pip inside that building with at least the price that is reported.
  pub buy_checked :
      (ids : List ℕ) (pip id : ℕ) (kind : ResourceKind) (tick : ℕ) (w : W) (p : Purchase)
      → (buy out ids pip id kind tick w).1 ≡ some p
      → p.ok ≡ true
      → (any_id id ids ≡ true) × SawBuyer pip id (out.snapshot w).1 p
  unfolding buy
  buy_checked ids pip id kind tick w p e done = elim (Option-cases (out.snapshot w).1) [
    | inl missing ↦ ground arith
    | inr (s, seen) ↦
        ground (arith, check_buyer-CanBuy (find_pip pip s.pips) id kind tick (out.snapshot w).0 p)
  ]
