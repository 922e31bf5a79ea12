-- ===== src/Farm/Host.antt =====
-- The host of several buildings, services/workplaces/farm/internal/farm/host.go.
pub mod Offers
pub mod Listing
pub mod Capacity
pub mod Refusals
use pipsim.Common.{
  ℕ, zero, suc, ◌+◌, ◌%◌, Bool, true, false, Option, none, some, List, [], ◌∷◌, leb, nat_eq,
  if◌then◌else◌, length, get_elem?, map,
}
use pipsim.Common.Tests.{◌==◌, ℕ-Eq}
use pipsim.Common.Strings.{Bytes, Bytes-Eq, bytes}
use pipsim.Common.Assoc.{Assoc, lookup, insert}
use pipsim.Connect.{Reply, ok, err, invalid_argument, not_found}
use pipsim.Workplace.{Description}
use pipsim.Farm.Store.{StoreCalls}
use pipsim.Farm.Service.{Service, describe, consider_offer}

pub record Host (S : Type 0) : Type 0 where
  pub buildings : Assoc ℕ (Service S)
  pub next : ℕ

unfoldable pub new_host : {S : Type 0} → List (Service S) → Assoc ℕ (Service S) → Host S
new_host [] built = record { buildings = built; next = 0 }
new_host (b ∷ bs) built = new_host bs (insert b.id b built)

-- `sort.Slice` of the ids.
unfoldable pub insert_sorted : ℕ → List ℕ → List ℕ
insert_sorted a [] = a ∷ []
insert_sorted a (b ∷ bs) = if leb a b then a ∷ b ∷ bs else b ∷ insert_sorted a bs

unfoldable pub sort_ids : List ℕ → List ℕ
sort_ids [] = []
sort_ids (a ∷ as') = insert_sorted a (sort_ids as')

unfoldable pub ids : {S : Type 0} → Host S → List ℕ
unfolding sort_ids insert_sorted
ids h = sort_ids (map (λ (e : ℕ × Service _). e.0) h.buildings)

-- The only building, if there is one.
abbrev pub only : {S : Type 0} → Assoc ℕ (Service S) → Reply (Service S)
only ((id, b) ∷ []) = ok b
only [] = err invalid_argument
only (e ∷ f ∷ rest) = err invalid_argument

abbrev pub or_not_found : {A : Type 0} → Option A → Reply A
or_not_found none = err not_found
or_not_found (some a) = ok a

unfoldable pub resolve : {S : Type 0} → ℕ → Host S → Reply (Service S)
resolve id h = if nat_eq id 0 then only h.buildings else or_not_found (lookup id h.buildings)

abbrev pub or_zero : Option ℕ → ℕ
or_zero none = 0
or_zero (some n) = n

-- `ids[(start+i)%len(ids)]` for i from `i` on, for so many rounds.
unfoldable pub rotation : ℕ → ℕ → ℕ → List ℕ → List ℕ
rotation zero start i all = []
rotation (suc rounds) start i all =
    or_zero (get_elem? all ((start + i) % length all)) ∷ rotation rounds start (i + 1) all

module _ {S : Type 0} (calls : StoreCalls S) where
  -- A handler: resolve the building, run its own handler, keep the building's new state.
  unfoldable pub forward :
      {A : Type 0} → ℕ → (Service S → Service S × Reply A) → Host S → Host S × Reply A
  forward id handler h = elim (resolve id h) [
    | err c ↦ (h, err c)
    | ok b ↦
        let (b', reply) = handler b in (record h { buildings = insert b'.id b' h.buildings }, reply)
  ]

  -- `List`: the descriptions in the order of the ids, or the first error.
  unfoldable pub describe_each : ℕ → List ℕ → Host S → Host S × Reply (List Description)
  unfolding forward
  describe_each now [] h = (h, ok [])
  describe_each now (id ∷ rest) h =
      let (h', reply) = forward id (describe calls now) h in
      let (h'', others) = describe_each now rest h' in
      elim reply [
        | err c ↦ (h', err c)
        | ok d ↦ elim others [ err c ↦ (h'', err c) | ok ds ↦ (h'', ok (d ∷ ds)) ]
      ]

  unfoldable pub list : ℕ → Host S → Host S × Reply (List Description)
  unfolding describe_each ids
  list now h = describe_each now (ids h) h

  -- The loop of `ConsiderOffer` over the ids that are left, in the order of the rotation.
  unfoldable pub try_buildings : ℕ → ℕ → ℕ → Bytes → List ℕ → Host S → Host S × Bool × Bytes × ℕ
  try_buildings pip tick now last_reason [] h = (h, false, last_reason, 0)
  try_buildings pip tick now last_reason (id ∷ rest) h = elim (resolve id h) [
    | err c ↦ try_buildings pip tick now last_reason rest h
    | ok b ↦
        let (b', accepted, reason) = consider_offer calls pip tick now b in
        let h' : Host S = record h { buildings = insert id b' h.buildings } in
        elim accepted [
          | true ↦ (h', true, bytes "", id)
          | false ↦
              try_buildings pip tick now (if reason == bytes "" then last_reason else reason) rest
                h'
        ]
  ]

  -- `h.next` is read and moved on for each offer.
  unfoldable pub consider : ℕ → ℕ → ℕ → Host S → Host S × Bool × Bytes × ℕ
  unfolding try_buildings ids rotation
  consider pip tick now h = elim (ids h) [
    | [] ↦ (h, false, bytes "no buildings", 0)
    | id ∷ rest ↦
        try_buildings pip tick now (bytes "no free positions")
          (rotation (length (id ∷ rest)) h.next 0 (id ∷ rest)) (record h { next = h.next + 1 })
  ]

  -- `Workers` of one building is -1 when its store fails, and such a building is not counted.
  unfoldable pub workers_of : ℕ → List ℕ → Host S → ℕ
  workers_of now [] h = 0
  workers_of now (id ∷ rest) h =
      let others = workers_of now rest h in
      elim (resolve id h) [ err c ↦ others | ok b ↦ or_zero ((calls.count now b.store).1) + others ]

  unfoldable pub workers : ℕ → Host S → ℕ
  unfolding workers_of
  workers now h = workers_of now (ids h) h
