-- ===== src/Gateway/Config/Gauge.antt =====
-- The gauge of the pending offers in services/world-gateway/cmd/gateway/main.go.
use pipsim.Common.{
  ℕ, ◌≡◌, not, ◌||◌, Option, none, List, [], ◌∷◌, if◌then◌else◌, arith, inl, inr, Bool-cases,
  Option-cases,
}
use pipsim.Common.Tests.{◌==◌, ==_iff}
use pipsim.Common.Strings.{Bytes, Bytes-Eq, bytes}
use pipsim.Common.Assoc.{lookup, IsMap}
use pipsim.Gateway.Config.{is_among, offers_pending}

module _ (queue_depth : Bytes → Option ℕ) where
  -- What the gauge shows for a kind.
  abbrev pub shown : Bytes → List Bytes → List Bytes → Option ℕ
  shown kind seen kinds =
      if kind == bytes "" || is_among kind seen || not (is_among kind kinds)
      then none
      else queue_depth kind

  pub lookup-offers_pending :
      (seen kinds : List Bytes) (kind : Bytes)
      → lookup kind (offers_pending queue_depth seen kinds) ≡ shown kind seen kinds
  unfolding offers_pending is_among lookup
  lookup-offers_pending seen [] kind = ground arith
  lookup-offers_pending seen (k ∷ kinds) kind =
      elim (Bool-cases (k == bytes "" || is_among k seen)) [
        | inl skip ↦ rw skip (ground (arith, ==_iff k kind, lookup-offers_pending seen kinds kind))
        | inr new ↦ elim (Option-cases (queue_depth k)) [
          | inl unknown ↦
              rw (new, unknown)
                (ground (arith, ==_iff k kind, lookup-offers_pending (k ∷ seen) kinds kind))
          | inr (n, known) ↦
              rw (new, known)
                (ground (arith, ==_iff k kind, lookup-offers_pending (k ∷ seen) kinds kind))
        ]
      ]

  pub offers_pending-IsMap :
      (seen kinds : List Bytes) → IsMap (offers_pending queue_depth seen kinds)
  unfolding offers_pending is_among lookup
  offers_pending-IsMap seen [] = tt
  offers_pending-IsMap seen (k ∷ kinds) = elim (Bool-cases (k == bytes "" || is_among k seen)) [
    | inl skip ↦ rw skip (offers_pending-IsMap seen kinds)
    | inr new ↦ elim (Option-cases (queue_depth k)) [
      | inl unknown ↦ rw (new, unknown) (offers_pending-IsMap (k ∷ seen) kinds)
      | inr (n, known) ↦
          rw (new, known)
            (
              ground (arith, ==_iff k k, lookup-offers_pending (k ∷ seen) kinds k),
              offers_pending-IsMap (k ∷ seen) kinds,
            )
    ]
  ]

  -- However many drivers share a kind, the gauge shows each kind once: the depth of its queue, for
  -- a kind that some driver knows and whose queue can be read, and nothing for any other.
  pub offers_pending_once :
      (kinds : List Bytes) (kind : Bytes)
      → IsMap (offers_pending queue_depth [] kinds)
        × (lookup kind (offers_pending queue_depth [] kinds) ≡ shown kind [] kinds)
  offers_pending_once kinds kind =
      (offers_pending-IsMap [] kinds, lookup-offers_pending [] kinds kind)
