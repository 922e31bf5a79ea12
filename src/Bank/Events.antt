-- ===== src/Bank/Events.antt =====
-- The publisher of the bank's facts, services/bank/internal/bankapi/events.go. The protobuf form and
-- the queue of the Kafka writer are parameters; the time stamp of an envelope is not modelled, and
-- the id that it draws is an argument.
use pipsim.Common.{ℕ, ◌≡◌, ◌∙◌, ap, sym, Bool, Option, none, some, List, [], ◌∷◌, ◌++◌}
use mathlib.Core.List.{append_assoc, append-nil}
use pipsim.Common.Strings.{Bytes, bytes}
use pipsim.Bank.{Event, wage_paid, account_overdrawn, money_issued}

-- The four facts of pips.events.v1 that this publisher sends; a kind is the number of the enum.
pub data Payload : Type 0 where
  wage_fact : Bytes → Bytes → ℕ → Payload
  purchase_fact : Bytes → Bytes → ℕ → ℕ → Payload
  overdraft_fact : Bytes → ℕ → ℕ → Payload
  issue_fact : Bytes → ℕ → Payload

pub record Envelope : Type 0 where
  pub event_id : Bytes
  pub tick : ℕ
  pub producer : Bytes
  pub payload : Payload

-- `proto.Marshal`, and `WriteMessages` with a key; `false` is an error.
pub record Writer (W Body : Type 0) : Type 0 where
  pub marshal : Envelope → Option Body
  pub write : Bytes → Body → W → W × Bool

-- A message before it is encoded: its key and its envelope.
abbrev pub Message : Type 0
Message = Bytes × Envelope

abbrev pub envelope : Bytes → ℕ → Payload → Envelope
envelope id tick payload = record {
  event_id = id;
  tick = tick;
  producer = bytes "bank";
  payload = payload;
}

module _ {W Body : Type 0} (writer : Writer W Body) where
  abbrev pub enqueue : Bytes → Option Body → W → W
  enqueue key none w = w
  enqueue key (some body) w = (writer.write key body w).0

  -- An error is only logged.
  unfoldable pub publish : Bytes → Bytes → ℕ → Payload → W → W
  publish id key tick payload w = enqueue key (writer.marshal (envelope id tick payload)) w

  unfoldable pub publish_wage_paid : Bytes → Bytes → Bytes → ℕ → ℕ → W → W
  unfolding publish
  publish_wage_paid id payer payee amount tick w =
      publish id payee tick (wage_fact payer payee amount) w

  unfoldable pub publish_purchase_made : Bytes → Bytes → Bytes → ℕ → ℕ → ℕ → W → W
  unfolding publish
  publish_purchase_made id payer payee amount kind tick w =
      publish id payer tick (purchase_fact payer payee amount kind) w

  unfoldable pub publish_account_overdrawn : Bytes → Bytes → ℕ → ℕ → ℕ → W → W
  unfolding publish
  publish_account_overdrawn id account attempted balance tick w =
      publish id account tick (overdraft_fact account attempted balance) w

  unfoldable pub publish_money_issued : Bytes → Bytes → ℕ → ℕ → W → W
  unfolding publish
  publish_money_issued id payee amount tick w = publish id payee tick (issue_fact payee amount) w

  -- The call that a handler makes for a fact.
  unfoldable pub send : Bytes → Event → W → W
  unfolding publish_wage_paid publish_account_overdrawn publish_money_issued
  send id (wage_paid payer payee amount tick) w = publish_wage_paid id payer payee amount tick w
  send id (account_overdrawn account attempted balance tick) w =
      publish_account_overdrawn id account attempted balance tick w
  send id (money_issued payee amount tick) w = publish_money_issued id payee amount tick w

  -- The facts of a handler in their order, with the ids that are drawn for them.
  unfoldable pub send_all : List (Bytes × Event) → W → W
  unfolding send
  send_all [] w = w
  send_all ((id, e) ∷ facts) w = send_all facts (send id e w)

-- The message of a fact: its key is the account that the fact is about.
abbrev pub message_of : Bytes × Event → Message
message_of (id, wage_paid payer payee amount tick) =
    (payee, envelope id tick (wage_fact payer payee amount))
message_of (id, account_overdrawn account attempted balance tick) =
    (account, envelope id tick (overdraft_fact account attempted balance))
message_of (id, money_issued payee amount tick) =
    (payee, envelope id tick (issue_fact payee amount))

abbrev pub messages_of : List (Bytes × Event) → List Message
messages_of [] = []
messages_of (f ∷ facts) = message_of f ∷ messages_of facts

module _ {W Body : Type 0} (writer : Writer W Body) (topic : W → List Message)
    (takes : (key : Bytes) (e : Envelope) (w : W)
      → topic (enqueue writer key (writer.marshal e) w) ≡ topic w ++ (key, e) ∷ []) where
  send-topic :
      (f : Bytes × Event) (w : W) → topic (send writer f.0 f.1 w) ≡ topic w ++ message_of f ∷ []
  unfolding send publish
  send-topic (id, wage_paid payer payee amount tick) w = takes payee _ w
  send-topic (id, account_overdrawn account attempted balance tick) w = takes account _ w
  send-topic (id, money_issued payee amount tick) w = takes payee _ w

  -- A writer that takes every message gets the facts in their order, each under the key of the
  -- account that it is about, so that all facts about an account stand in one partition.
  pub send_all-topic :
      (facts : List (Bytes × Event)) (w : W)
      → topic (send_all writer facts w) ≡ topic w ++ messages_of facts
  unfolding send_all
  send_all-topic [] w = sym (append-nil (topic w))
  send_all-topic (f ∷ facts) w =
      send_all-topic facts (send writer f.0 f.1 w)
      ∙ (ap (λ l. l ++ messages_of facts) (send-topic f w)
          ∙ append_assoc (topic w) (message_of f ∷ []) (messages_of facts))
