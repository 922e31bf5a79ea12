-- ===== src/Work/Outage.antt =====
-- What becomes of an offer while the store of a farm fails:
-- services/workplaces/farm/internal/queue/queue.go over host.go and farm.go.
use pipsim.Common.{
  ℕ, ◌≡◌, refl, Bool, true, false, Option, none, some, List, [], ◌∷◌, inl, inr, ◌+◌, length,
}
use pipsim.Common.Strings.{Bytes, bytes}
use pipsim.Connect.{Reply-cases}
use pipsim.Work.{WorkOffer, Codec, ack, Broker, exchange, hired_key}
use pipsim.Work.Consumer.{Decider, handle}
use pipsim.Work.Hiring.{outcome_of, handle_publishes}
use pipsim.Farm.Store.{StoreCalls}
use pipsim.Farm.Service.{Service, consider_offer, considered, answer}
use pipsim.Farm.Host.Offers.{List-cases}
use pipsim.Farm.Host.{Host, ids, resolve, rotation, try_buildings, consider}

-- Every claim of a position is an error.
abbrev pub IsDown : {S : Type 0} → StoreCalls S → Type 0
IsDown {S} calls = (pip tick now : ℕ) (s : S) → (calls.claim pip tick now s).1 ≡ none

considered_down :
    {S : Type 0} (b : Service S) (r : S × Option (Bool × Bytes))
    → r.1 ≡ none
    → (considered (answer b (λ a. a) r)).1 ≡ false
unfolding answer
considered_down b (s, none) e = refl
considered_down b (s, some a) e = cc e

module _ {S : Type 0} (calls : StoreCalls S) (down : IsDown calls) (pip tick now : ℕ) where
  consider_offer_down : (b : Service S) → (consider_offer calls pip tick now b).1 ≡ false
  unfolding consider_offer
  consider_offer_down b =
      considered_down b (calls.claim pip tick now b.store) (down pip tick now b.store)

  -- No building takes the pip, and none is named.
  try_buildings_down :
      (l : List ℕ) (reason : Bytes) (h : Host S)
      → let (_, accepted, _, id) = try_buildings calls pip tick now reason l h in
        (accepted ≡ false) × (id ≡ 0)
  unfolding try_buildings
  try_buildings_down [] reason h = (refl, refl)
  try_buildings_down (id ∷ rest) reason h = elim (Reply-cases (resolve id h)) [
    | inl (c, e) ↦ rw (e, try_buildings) (try_buildings_down rest reason h)
    | inr (b, e) ↦ rw (e, try_buildings) (rw (consider_offer_down b) (try_buildings_down rest _ _))
  ]

  consider_down :
      (h : Host S)
      → let (_, accepted, _, id) = consider calls pip tick now h in (accepted ≡ false) × (id ≡ 0)
  unfolding consider
  consider_down h = elim (List-cases (ids h)) [
    | inl e ↦ rw (e, consider) (refl, refl)
    | inr (id, rest, e) ↦
        rw (e, consider)
          (try_buildings_down (rotation (length (id ∷ rest)) h.next 0 (id ∷ rest))
            (bytes "no free positions") (record h { next = h.next + 1 }))
  ]

-- While the store of a farm fails, an offer that can be read and answered is not brought back: it
-- is acknowledged, and what the broker has taken is an outcome that refuses the pip and names no
-- building, as if the farm had decided against it.
pub outage_refuses :
    {S W Body : Type 0} (calls : StoreCalls S) (now : ℕ) (codec : Codec Body)
    (broker : Broker W Body) (kind : Bytes) (o : WorkOffer) (body text : Body) (h : Host S) (w : W)
    → IsDown calls
    → codec.unmarshal_offer body ≡ some o
    → (let decide : Decider (Host S) = λ p t d. consider calls p t now d in
        codec.marshal_outcome (outcome_of kind o (decide o.pip_id o.tick h)) ≡ some text)
    → (broker.publish exchange hired_key text w).1 ≡ true
    → let decide : Decider (Host S) = λ p t d. consider calls p t now d in
      let outcome = outcome_of kind o (decide o.pip_id o.tick h) in
      let (_, w', settled) = handle codec broker decide kind body h w in
      (settled ≡ ack)
      × (w' ≡ (broker.publish exchange hired_key text w).0)
      × (outcome.accepted ≡ false)
      × (outcome.workplace_id ≡ 0)
outage_refuses {S = S} calls now codec broker kind o body text h w down read written sent =
    let decide : Decider (Host S) = λ p t d. consider calls p t now d in
    let (refused, nowhere) = consider_down calls down o.pip_id o.tick now h in
    rw (handle_publishes codec broker decide kind o body text h w read written)
      (rw sent (refl, refl, refused, nowhere))
