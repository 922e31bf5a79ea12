-- ===== src/Postgres/Mirror/Handlers.antt =====
-- The bank's handlers (services/bank/internal/bankapi/bankapi.go) over
-- services/bank/internal/ledger/postgres.go, beside the same handlers over memory.go.
use pipsim.Common.{
  ◌≡◌, ◌≢◌, ◌⊎◌, ◌<◌, ◌||◌, refl, Bool, true, false, Option, none, some, List, [], inl, inr,
  Bool-cases,
}
use pipsim.Common.Tests.{◌==◌}
use pipsim.Common.Words.{word_size}
use pipsim.Common.Strings.{Bytes, Bytes-Eq, bytes}
use pipsim.Connect.{Reply, err, unavailable}
use pipsim.Ledger
use pipsim.Ledger.{Memory, Result}
use pipsim.Ledger.Interface.{LedgerCalls, memory_calls}
use pipsim.Ledger.Keys.{IsPlain}
use pipsim.Postgres.Statements.{Tables}
use pipsim.Postgres.Calls
use pipsim.Postgres.Calls.{
  Commit, made, unheard, transact, transfer_body, batch_transfer_body, post_body,
}
use pipsim.Postgres.Mirror.Bodies.{Overflows}
use pipsim.Postgres.Mirror.Batches.{BatchOverflows}
use pipsim.Postgres.Mirror.Calls.{Mirrors}
use pipsim.Postgres.Mirror.Credits.{PaysOthers}
use pipsim.Postgres.Mirror.Implements.{
  Succeeds, Happens, transfer-Implements, batch_transfer-Implements,
}
use pipsim.Bank
use pipsim.Bank.{Server, Event, TransferRequest, BatchTransferRequest, finish, kind_from_proto}

abbrev is_done : Option (Unit {0}) → Bool
is_done none = false
is_done (some done) = true

-- `Postgres` as an instance of the interface, where these statements fail and the commit ends so.
abbrev pub postgres_calls : List Bool → Commit → LedgerCalls Tables
postgres_calls faults commit = record {
  open_account = λ account t. Calls.open_account account faults t;
  transfer = λ id payer payee amount kind tick t.
      transact (transfer_body id payer payee amount kind tick) faults commit t;
  batch_transfer = λ id payer credits kind tick t.
      transact (batch_transfer_body id payer credits kind tick) faults commit t;
  post = λ id payer payee amount kind tick t.
      let (t', reply) = transact (post_body id payer payee amount kind tick) faults commit t in
      (t', is_done reply);
  get_balance = λ account t. Calls.get_balance account faults t;
}

-- The handler over the tables did, published and answered what the handler over the memory did.
abbrev pub AsMemory : {A : Type 0} → Server Memory × Reply A → Server Tables × Reply A → Type 0
AsMemory (b, reply) (c, reply') =
    (reply' ≡ reply) × (c.events ≡ b.events) × Mirrors b.ledger c.ledger

-- It answered with an error and published nothing, and did what the other handler did, or nothing.
abbrev pub IsUnavailable :
    {A : Type 0} → Server Memory → Server Memory × Reply A → Server Tables × Reply A → Type 0
IsUnavailable before (b, reply) (c, reply') =
    (reply' ≡ err unavailable)
    × (c.events ≡ before.events)
    × (Mirrors before.ledger c.ledger ⊎ Mirrors b.ledger c.ledger)

abbrev some_answer : {A : Type 0} → Memory × A → Memory × Option A
some_answer (m, a) = (m, some a)

finish-Succeeds :
    {A : Type 0} (TooLarge : Type 0) (facts : A → List Event) (b : Server Memory)
    (c : Server Tables) (answer : Memory × A) (r : Tables × Option A)
    → c.events ≡ b.events
    → Succeeds TooLarge answer r
    → TooLarge ⊎ AsMemory (finish b facts (some_answer answer)) (finish c facts r)
unfolding finish
finish-Succeeds TooLarge facts b c (m, a) (t, none) same (inl large) = inl large
finish-Succeeds TooLarge facts b c (m, a) (t, some a') same (inl large) = inl large
finish-Succeeds TooLarge facts b c (m, a) (t, none) same (inr (mirrors, e)) = cc e
finish-Succeeds TooLarge facts b c (m, a) (t, some a') same (inr (mirrors, e)) =
    let answered : a' ≡ a = cc e in inr (rw (answered, same) (refl, refl, mirrors))

finish-Happens :
    {A : Type 0} (facts : A → List Event) (b : Server Memory) (c : Server Tables)
    (answer : Memory × A) (commit : Commit) (r : Tables × Option A)
    → c.events ≡ b.events
    → Happens b.ledger answer commit r
    → let over_memory = finish b facts (some_answer answer) in
      AsMemory over_memory (finish c facts r) ⊎ IsUnavailable b over_memory (finish c facts r)
unfolding finish
finish-Happens facts b c (m, a) commit (t, none) same (inl (mirrors, e)) =
    inr (refl, same, inl mirrors)
finish-Happens facts b c (m, a) commit (t, some a') same (inl (mirrors, e)) = cc e
finish-Happens facts b c (m, a) commit (t, none) same (inr (mirrors, e)) =
    inr (refl, same, inr mirrors)
finish-Happens facts b c (m, a) commit (t, some a') same (inr (mirrors, inl e)) =
    let answered : a' ≡ a = cc e in inl (rw (answered, same) (refl, refl, mirrors))
finish-Happens facts b c (m, a) commit (t, some a') same (inr (mirrors, inr (_, e))) = cc e

-- A transfer between two accounts, asked for over RPC of a bank with tables that mirror a ledger in
-- memory. Without faults the bank answers, publishes and books as it would over that memory, unless
-- a balance would leave the range of int64 or the tick does not fit a BIGINT. With faults it does the same, or it answers
-- `unavailable` and publishes nothing, having booked all of the transfer or nothing. Names hold no
-- `|`, and the payer is not the payee.
pub transfer-AsMemory :
    (faults : List Bool) (commit : Commit) (id : Bytes) (req : TransferRequest) (b : Server Memory)
    (c : Server Tables)
    → Mirrors b.ledger c.ledger
    → c.events ≡ b.events
    → IsPlain req.payer
    → IsPlain req.payee
    → req.tick < word_size
    → req.payer ≢ req.payee
    → let over_memory = Bank.transfer memory_calls id req b in
      let TooLarge = Overflows req.payer req.payee req.amount req.tick b.ledger.balances in
      (TooLarge ⊎ AsMemory over_memory (Bank.transfer (postgres_calls [] made) id req c))
      × (AsMemory over_memory (Bank.transfer (postgres_calls faults commit) id req c)
          ⊎ IsUnavailable b over_memory (Bank.transfer (postgres_calls faults commit) id req c))
unfolding Bank.transfer
transfer-AsMemory faults commit id req b c mirrors same plain_payer plain_payee small ne =
    let kind = kind_from_proto req.kind in
    let facts : Result → List Event = Bank.transfer_events req kind in
    let answer = Ledger.transfer id req.payer req.payee req.amount kind req.tick b.ledger in
    let (succeeds, happens) =
      transfer-Implements id req.payer req.payee req.amount kind req.tick faults commit b.ledger
        c.ledger mirrors plain_payer plain_payee small ne in
    elim (Bool-cases ((req.payer == bytes "") || (req.payee == bytes ""))) [
      | inl blank ↦ rw blank (inr (refl, same, mirrors), inl (refl, same, mirrors))
      | inr named ↦ rw named (
        finish-Succeeds _ facts b c answer _ same succeeds,
        finish-Happens facts b c answer commit _ same happens,
      )
    ]

-- A batch, asked for over RPC of a bank with tables that mirror a ledger in memory, from a payer
-- that is not among its own payees. Without faults the bank answers, publishes and books as it would
-- over that memory, unless a balance would leave the range of int64 or the tick does not fit a
-- BIGINT. With faults it does the same, or it answers `unavailable` and publishes nothing, having
-- booked all of the credits or none. The payer's name holds no `|`.
pub batch_transfer-AsMemory :
    (faults : List Bool) (commit : Commit) (id : Bytes) (req : BatchTransferRequest)
    (b : Server Memory) (c : Server Tables)
    → Mirrors b.ledger c.ledger
    → c.events ≡ b.events
    → IsPlain req.payer
    → req.tick < word_size
    → PaysOthers req.payer req.credits
    → let over_memory = Bank.batch_transfer memory_calls id req b in
      let TooLarge = BatchOverflows req.payer req.credits req.tick b.ledger.balances in
      (TooLarge ⊎ AsMemory over_memory (Bank.batch_transfer (postgres_calls [] made) id req c))
      × (AsMemory over_memory (Bank.batch_transfer (postgres_calls faults commit) id req c)
          ⊎ IsUnavailable b over_memory
              (Bank.batch_transfer (postgres_calls faults commit) id req c))
unfolding Bank.batch_transfer
batch_transfer-AsMemory faults commit id req b c mirrors same plain small others =
    let kind = kind_from_proto req.kind in
    let facts : Result → List Event = Bank.batch_events req kind in
    let answer = Ledger.batch_transfer id req.payer req.credits kind req.tick b.ledger in
    let (succeeds, happens) =
      batch_transfer-Implements id req.payer req.credits kind req.tick faults commit b.ledger
        c.ledger mirrors plain small others in
    elim (Bool-cases (req.payer == bytes "")) [
      | inl blank ↦ rw blank (inr (refl, same, mirrors), inl (refl, same, mirrors))
      | inr named ↦ rw named (
        finish-Succeeds _ facts b c answer _ same succeeds,
        finish-Happens facts b c answer commit _ same happens,
      )
    ]
