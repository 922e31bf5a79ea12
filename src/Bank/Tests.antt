-- ===== src/Bank/Tests.antt =====
-- The theorems of the service layer at inputs that meet their hypotheses, and runs of it.
use pipsim.Common.{◌≡◌, refl, true, List, [], ◌∷◌, ◌++◌, arith, All, Bool, false}
use pipsim.Common.Words.{add64, neg64}
use pipsim.Common.Strings.{Bytes, bytes, bytes_eq, decimal, ne_of_bytes_eq}
use pipsim.Common.Assoc.{insert, lookup}
use pipsim.Ledger
use pipsim.Ledger.{
  credit, debit, Memory, Result, new_memory, treasury_account, balance_of, kind_wage, debit,
  commit_transfer, cannot_cover,
}
use pipsim.Ledger.History.{Call, run}
use pipsim.Ledger.Interface.{memory_calls}
use pipsim.Bank.{Server, TransferRequest, wage_paid, wage, transfer}
use pipsim.Bank.Consumer
use pipsim.Bank.Consumer.{
  Message, envelope, purchase_made, undecodable, Fetch, failed, fetched, State,
}
use pipsim.Bank.Purchases.{book_purchase, handle_purchase}
use pipsim.Bank.Delivery.{purchase_redelivered}
use pipsim.Bank.Settled.{
  take, drop, deliveries as delivered_from, live_all, IsBooked, committed-IsBooked,
}
use pipsim.Bank.Escheat.{pip_account, escheat}
use pipsim.Bank.Reclaim.{escheat_reclaims}
use pipsim.Bank.Replies.{wage_redelivered}

abbrev farm : Bytes
farm = bytes "workplace:1"

abbrev ann : Bytes
ann = bytes "pip:1"

abbrev book : Memory
book = record new_memory { balances = (treasury_account, neg64 36) ∷ (farm, 24) ∷ (ann, 12) ∷ [] }

abbrev meal : Message
meal = envelope (bytes "e1") 9 (purchase_made ann farm 5)

-- The broker delivers the meal twice, and a message that cannot be read.
abbrev deliveries : List Fetch
deliveries =
    fetched (bytes "u1") 0 meal true
    ∷ failed
    ∷ fetched (bytes "u2") 1 undecodable true
    ∷ fetched (bytes "u3") 0 meal true
    ∷ []

abbrev start : State Memory
start = record { ledger = book; committed = 0 }

-- A partition with a purchase that has no id. The consumer dies twice; the first commit is lost, and
-- the last one also passes the purchase without an id.
abbrev partition : List Message
partition = meal ∷ envelope (bytes "") 9 (purchase_made ann farm 2) ∷ undecodable ∷ meal ∷ []

abbrev lives : List (List (Bytes × Bool))
lives =
    ((bytes "u1", false) ∷ [])
    ∷ ((bytes "u2", true) ∷ (bytes "u3", true) ∷ (bytes "u4", true) ∷ [])
    ∷ []

run-lives :
    let c = live_all partition lives start in
    (c.committed ≡ 3) × (balance_of farm c.ledger.balances ≡ 29)
unfolding live_all delivered_from drop Consumer.run Consumer.step handle_purchase book_purchase
    Ledger.post lookup insert debit credit bytes_eq
run-lives = (refl, refl)

committed-IsBooked_example :
    let c = live_all partition lives start in
    All (IsBooked partition c.ledger) (take c.committed partition)
committed-IsBooked_example = committed-IsBooked partition lives book refl

purchase_redelivered_example :
    let c' =
      Consumer.run
        (handle_purchase memory_calls)
        (fetched (bytes "u0") 0 meal true ∷ deliveries)
        start in
    handle_purchase memory_calls (bytes "u9") meal c'.ledger ≡ (c'.ledger, true)
purchase_redelivered_example =
    purchase_redelivered (bytes "u0") (bytes "u9") (bytes "e1") ann farm 0 9 5 true deliveries start
      (cc)

escheat_reclaims_example :
    let (m', handled) = escheat memory_calls (bytes "u") 1 7 book in
    (balance_of (pip_account 1) m'.balances ≡ 0)
    × (balance_of treasury_account m'.balances
        ≡ add64
            (balance_of treasury_account book.balances)
            (balance_of (pip_account 1) book.balances))
    × (balance_of farm m'.balances ≡ balance_of farm book.balances)
    × (handled ≡ true)
unfolding lookup bytes_eq pip_account decimal
escheat_reclaims_example =
    escheat_reclaims (bytes "u") 1 7 book farm refl (omega arith) (omega arith)
      (ne_of_bytes_eq farm (pip_account 1) refl) (ne_of_bytes_eq farm treasury_account refl)

-- The dead pip's last wage arrives after its purse was reclaimed.
abbrev late_wage : List Call
late_wage = Call.transfer (bytes "w") farm ann 6 kind_wage 8 ∷ []

abbrev request : TransferRequest
request = record { payer = farm; payee = ann; amount = 6; kind = wage; tick = 8 }

abbrev server : Server Memory
server = record { ledger = book; events = [] }

wage_redelivered_example :
    let (b', reply) = transfer memory_calls (bytes "x") request server in
    let later : Server Memory = record { ledger = run [] b'.ledger; events = b'.events } in
    transfer memory_calls (bytes "y") request later
    ≡ (record later { events = b'.events ++ wage_paid farm ann 6 8 ∷ [] }, reply)
unfolding Ledger.transfer commit_transfer cannot_cover lookup debit bytes_eq
wage_redelivered_example =
    wage_redelivered (bytes "x") (bytes "y") request [] server
      (transfer memory_calls (bytes "x") request server).0.events refl (cc) (cc) refl
