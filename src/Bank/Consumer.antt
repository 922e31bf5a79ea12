-- ===== src/Bank/Consumer.antt =====
-- A consumer's loop, `Run` of services/bank/internal/bankapi/purchases.go and escheat.go, over the
-- outcomes of `FetchMessage` until the context is cancelled.
use pipsim.Common.{ℕ, ◌+◌, Bool, ◌&&◌, List, [], ◌∷◌, if◌then◌else◌}
use pipsim.Common.Strings.{Bytes}

pub data Payload : Type 0 where
  purchase_made : Bytes → Bytes → ℕ → Payload
  pip_died : ℕ → Payload
  other : Payload

-- What `proto.Unmarshal` makes of a message's bytes.
pub data Message : Type 0 where
  undecodable : Message
  envelope : Bytes → ℕ → Payload → Message

-- One return of `FetchMessage`, on one partition of the topic. A message comes with the id that a
-- transfer would draw while it is handled, with its offset, and with whether `CommitMessages` will
-- succeed for it.
pub data Fetch : Type 0 where
  failed : Fetch
  fetched : Bytes → ℕ → Message → Bool → Fetch

-- The ledger, and the offset that is committed: a consumer that starts again goes on from there, so
-- a commit also passes every earlier message of the partition.
pub record State (S : Type 0) : Type 0 where
  pub ledger : S
  pub committed : ℕ

-- A handler returns `false` where the Go function returns an error.
abbrev pub Handler : Type 0 → Type 0
Handler S = Bytes → Message → S → S × Bool

unfoldable pub step : {S : Type 0} → Handler S → Fetch → State S → State S
step handle failed c = c
step handle (fetched id offset msg commits) c =
    let (s, handled) = handle id msg c.ledger in
    record { ledger = s; committed = if handled && commits then offset + 1 else c.committed }

unfoldable pub run : {S : Type 0} → Handler S → List Fetch → State S → State S
run handle [] c = c
run handle (f ∷ fs) c = run handle fs (step handle f c)
