-- ===== src/Gateway/World/Streams.antt =====
-- What `StreamWorld` of services/world-gateway/internal/gateway/gateway.go sends to the browser.
use pipsim.Common.{
  ℕ, ◌+◌, ◌≡◌, ◌≢◌, ◌⊎◌, refl, ◌∙◌, sym, ap, Bool, not, ◌&&◌, Option, none, some, List, [], ◌∷◌,
  ◌++◌, inl, inr, arith, Option-cases, length, if◌then◌else◌,
}
use mathlib.Core.List.{append_assoc, append-nil}
use pipsim.Connect.{Reply, ok, err, unavailable}
use pipsim.Gateway.World.{
  Outside, Upstream, Sent, delivered, end_of_stream, broken, forward, stream_world, send_error,
}

module _ {W P B S D : Type 0} (out : Outside W P B S D) (received : W → List D) where
  -- The browser receives a delta exactly where `Send` reports no error.
  abbrev pub IsFaithful : Type 0
  IsFaithful =
      (delta : D) (w : W)
      → let (w', outcome) = out.send delta w in
        ((outcome ≡ delivered) × (received w' ≡ received w ++ delta ∷ []))
        ⊎ ((outcome ≢ delivered) × (received w' ≡ received w))

  -- Every delta was sent, or the first of those that are left could not be sent.
  abbrev pub StopsRightly : Bool → List D → W → Reply (Unit {0}) → Type 0
  StopsRightly failed [] w reply =
      reply ≡ (if failed && not (out.is_cancelled w) then err unavailable else ok tt)
  StopsRightly failed (delta ∷ rest) w reply =
      (before : W) × ((out.send delta before).0 ≡ w)
      × ((out.send delta before).1 ≢ delivered)
      × (reply ≡ send_error (out.send delta before).1 (out.is_cancelled w))

  -- What the loop has done by its end to the deltas that it was given.
  abbrev pub Forwards : Bool → ℕ → List D → W → W × ℕ × Reply (Unit {0}) → Type 0
  Forwards failed sent deltas w (w', sent', reply) =
      (done rest : List D) × (deltas ≡ done ++ rest)
      × (received w' ≡ received w ++ done)
      × (sent' ≡ sent + length done)
      × StopsRightly failed rest w' reply

  forward_delivered :
      (failed : Bool) (sent : ℕ) (delta : D) (deltas : List D) (w : W)
      → (out.send delta w).1 ≡ delivered
      → forward out failed sent (delta ∷ deltas) w
        ≡ forward out failed (sent + 1) deltas (out.send delta w).0
  unfolding forward
  forward_delivered failed sent delta deltas w e = rw (e, forward) refl

  forward_stopped :
      (failed : Bool) (sent : ℕ) (delta : D) (deltas : List D) (w : W) (outcome : Sent)
      → (out.send delta w).1 ≡ outcome
      → outcome ≢ delivered
      → let w' = (out.send delta w).0 in
        forward out failed sent (delta ∷ deltas) w
        ≡ (w', sent, send_error outcome (out.is_cancelled w'))
  unfolding forward
  forward_stopped failed sent delta deltas w delivered e ne = absurd (ne refl)
  forward_stopped failed sent delta deltas w end_of_stream e ne = rw (e, forward) refl
  forward_stopped failed sent delta deltas w (broken code) e ne = rw (e, forward) refl

  forward-Forwards :
      IsFaithful
      → (failed : Bool) (sent : ℕ) (deltas : List D) (w : W)
      → Forwards failed sent deltas w (forward out failed sent deltas w)
  unfolding forward
  forward-Forwards faithful failed sent [] w =
      ([], [], refl, sym (append-nil (received w)), omega arith, refl)
  forward-Forwards faithful failed sent (delta ∷ deltas) w = elim (faithful delta w) [
    | inl (e, grown) ↦
        let (done, rest, split, log, count, stop) =
          forward-Forwards faithful failed (sent + 1) deltas (out.send delta w).0 in
        rw (forward_delivered failed sent delta deltas w e) (
          delta ∷ done,
          rest,
          ap (λ l. delta ∷ l) split,
          log ∙ (ap (λ l. l ++ done) grown ∙ append_assoc (received w) (delta ∷ []) done),
          omega (arith, count),
          stop,
        )
    | inr (ne, same) ↦
        rw (forward_stopped failed sent delta deltas w (out.send delta w).1 refl ne) (
          [],
          delta ∷ deltas,
          refl,
          same ∙ sym (append-nil (received w)),
          omega arith,
          (w, refl, ne, refl),
        )
  ]

  -- How the call ends: sim-core is not reached, or of the deltas that it streams the browser
  -- receives the first so many.
  abbrev pub Streams : Option (Upstream D) → W → W × ℕ × Reply (Unit {0}) → Type 0
  Streams none w r = r ≡ (w, 0, err unavailable)
  Streams (some up) w r = Forwards up.failed 0 up.deltas w r

  -- A stream of the world hands on the deltas of sim-core in their order, none twice and none left
  -- out before the last one that the browser receives, and counts them. It stops at the first that
  -- cannot be sent, without an error where the browser has hung up or the call is cancelled, and
  -- else at the end of sim-core's stream, whose failure it reports unless the call is cancelled.
  pub stream_world-Streams :
      IsFaithful
      → (from_tick : ℕ) (w : W)
      → let (w', upstream) = out.watch_deltas from_tick w in
        Streams upstream w' (stream_world out from_tick w)
  unfolding stream_world
  stream_world-Streams faithful from_tick w = elim (Option-cases (out.watch_deltas from_tick w).1) [
    | inl e ↦ rw (e, stream_world) refl
    | inr (up, e) ↦
        rw (e, stream_world)
          (forward-Forwards faithful up.failed 0 up.deltas (out.watch_deltas from_tick w).0)
  ]
