-- ===== src/Economy/Payroll.antt =====
-- The money that the gateway moves, services/world-gateway/internal/economy/payroll.go: payroll,
-- purchases and endowments.
pub mod Endowment
pub mod Purchases
use pipsim.Common.{
  ℕ, Bool, true, false, not, ◌||◌, ◌++◌, Option, none, some, List, [], ◌∷◌, if◌then◌else◌, nat_eq,
}
use pipsim.Common.Words.{lt64, sub64, half64}
use pipsim.Common.Strings.{Bytes, bytes, decimal}
use pipsim.Common.Assoc.{Assoc}
use pipsim.Connect.{Reply, ok, err, Code}
use pipsim.Ledger.{Credit, Result, treasury_account}
use pipsim.Bank.{TransferRequest, BatchTransferRequest, TransferKind, wage, issuance, purchase}
use pipsim.Bank.Escheat.{pip_account}
use pipsim.Workplace.{ResourceKind, unspecified, BuyResponse}
use pipsim.Economy.Outside.{Outside, Pip, Snapshot, PipCredit, Intent, credit_balances, transfer}

-- `fmt.Sprintf("workplace:%d", id)`
unfoldable pub workplace_account : ℕ → Bytes
workplace_account id = bytes "workplace:" ++ decimal id

-- `amount <= 0` on int64.
abbrev pub not_positive : ℕ → Bool
not_positive amount = not (lt64 0 amount)

-- The two lists that `payWages` builds from a workplace's credits.
unfoldable pub bank_credits : Assoc ℕ ℕ → List Credit
bank_credits [] = []
bank_credits ((pip, amount) ∷ credits) =
    let rest = bank_credits credits in
    if not_positive amount then rest else record { payee = pip_account pip; amount = amount } ∷ rest

unfoldable pub sim_credits : Assoc ℕ ℕ → List PipCredit
sim_credits [] = []
sim_credits ((pip, amount) ∷ credits) =
    let rest = sim_credits credits in
    if not_positive amount then rest else record { pip_id = pip; amount = amount } ∷ rest

-- How much to issue to a workplace that holds `held`.
unfoldable pub endowment_for : ℕ → ℕ → ℕ
endowment_for held capital = if not (lt64 held (half64 capital)) then 0 else sub64 capital held

unfoldable pub find_pip : ℕ → List Pip → Option Pip
find_pip pip [] = none
find_pip pip (p ∷ ps) = if nat_eq p.id pip then some p else find_pip pip ps

unfoldable pub any_id : ℕ → List ℕ → Bool
any_id id [] = false
any_id id (i ∷ ids) = if nat_eq i id then true else any_id id ids

-- What `Buy` returns: an error, or whether the purchase went through, the reason and the price.
pub record Purchase : Type 0 where
  pub ok : Bool
  pub reason : Bytes
  pub price : ℕ

abbrev pub refused : Bytes → ℕ → Purchase
refused reason price = record { ok = false; reason = reason; price = price }

module _ {W : Type 0} (out : Outside W) where
  -- `payWages` once there is something to pay.
  unfoldable pub settle : ℕ → ℕ → List Credit → List PipCredit → W → W
  settle id tick credits pips w =
      let (w', reply) =
        out.batch_transfer
          (record { payer = workplace_account id; credits = credits; kind = wage; tick = tick })
          w in
      elim reply [
        | err c ↦ w'
        | ok res ↦
            if not res.ok
            then w'
            else (out.submit (credit_balances (workplace_account id) pips tick) w').0
      ]

  unfoldable pub pay_wages : ℕ → ℕ → Assoc ℕ ℕ → W → W
  unfolding settle bank_credits sim_credits
  pay_wages id tick credits w = elim (bank_credits credits) [
    | [] ↦ w
    | c ∷ cs ↦ settle id tick (c ∷ cs) (sim_credits credits) w
  ]

  -- `Endow` for one workplace.
  unfoldable pub issue : ℕ → ℕ → ℕ → W → W
  issue tick id amount w =
      let account = workplace_account id in
      let (w', reply) =
        out.transfer
          (record {
            payer = treasury_account;
            payee = account;
            amount = amount;
            kind = issuance;
            tick = tick;
          })
          w in
      elim reply [
        | err c ↦ w'
        | ok res ↦
            if not res.ok
            then w'
            else (out.submit (transfer treasury_account account amount unspecified issuance tick)
                w').0
      ]

  unfoldable pub endow_one : ℕ → ℕ → ℕ → W → W
  unfolding issue
  endow_one tick capital id w =
      let (w', reply) = out.get_balance (workplace_account id) w in
      elim reply [
        | err c ↦ w'
        | ok held ↦
            let amount = endowment_for held capital in
            if nat_eq amount 0 then w' else issue tick id amount w'
      ]

  -- The loop of `Endow` over the drivers' ids; an id of 0 has not introduced itself.
  unfoldable pub endow_each : ℕ → ℕ → List ℕ → W → W
  endow_each tick capital [] w = w
  endow_each tick capital (id ∷ ids) w =
      endow_each tick capital ids (if nat_eq id 0 then w else endow_one tick capital id w)

  unfoldable pub endow : ℕ → List ℕ → W → W
  endow capital ids w =
      if not_positive capital
      then w
      else (let (w', snapshot) = out.snapshot w in
          elim snapshot [ none ↦ w' | some s ↦ endow_each s.tick capital ids w' ])

  -- `Buy` once the buyer is known to be inside: the workplace's price, the courtesy check, and the
  -- intent. `none` is an error.
  unfoldable pub purchase_inside : Pip → ℕ → ResourceKind → ℕ → W → W × Option Purchase
  purchase_inside buyer id kind tick w =
      let (w', reply) = out.buy id buyer.id kind tick w in
      elim reply [
        | err c ↦ (w', none)
        | ok offer ↦
            if not offer.ok
            then (w', some (refused offer.reason 0))
            else if lt64 buyer.balance offer.price
            then (w', some (refused (bytes "insufficient funds") offer.price))
            else (let (w'', sent) =
                  out.submit
                    (transfer (pip_account buyer.id) (workplace_account id) offer.price kind
                      purchase tick)
                    w' in
                if not sent
                then (w'', none)
                else (w'', some (record { ok = true; reason = bytes ""; price = offer.price })))
      ]

  unfoldable pub check_buyer : Option Pip → ℕ → ResourceKind → ℕ → W → W × Option Purchase
  check_buyer none id kind tick w = (w, some (refused (bytes "no such pip") 0))
  check_buyer (some buyer) id kind tick w =
      if not (nat_eq buyer.inside_workplace_id id)
      then (w, some (refused (bytes "the pip is not inside this building") 0))
      else purchase_inside buyer id kind tick w

  -- `Buy`, given the ids of the fleet's drivers.
  unfoldable pub buy : List ℕ → ℕ → ℕ → ResourceKind → ℕ → W → W × Option Purchase
  buy ids pip id kind tick w =
      if not (any_id id ids)
      then (w, some (refused (bytes "unknown workplace") 0))
      else (let (w', snapshot) = out.snapshot w in
          elim snapshot [
            | none ↦ (w', none)
            | some s ↦ check_buyer (find_pip pip s.pips) id kind tick w'
          ])
