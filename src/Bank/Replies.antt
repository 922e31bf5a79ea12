-- ===== src/Bank/Replies.antt =====
-- What a client of the bank sees when it sends a request again.
use pipsim.Common.{◌≡◌, ◌≢◌, refl, true, List, [], ◌∷◌, ◌++◌}
use pipsim.Common.Tests.{==-eq-false}
use pipsim.Common.Strings.{Bytes, Bytes-Eq, bytes, bytes_eq}
use pipsim.Ledger
use pipsim.Ledger.{Memory, Result, kind_wage}
use pipsim.Ledger.Idempotency.{transfer_replay}
use pipsim.Ledger.History.{Call, run}
use pipsim.Ledger.Interface.{memory_calls}
use pipsim.Bank.{
  Server, TransferRequest, Event, wage_paid, wage, kind_from_proto, transfer, transfer_events,
}

-- A wage whose transfer succeeded, requested again after any history: the ledger stays as it is
-- and the reply is the first one, but the payment is published once more.
pub wage_redelivered :
    (id id' : Bytes) (req : TransferRequest) (cs : List Call) (b : Server Memory)
    (facts : List Event)
    → req.kind ≡ wage
    → req.payer ≢ bytes ""
    → req.payee ≢ bytes ""
    → (Ledger.transfer id req.payer req.payee req.amount kind_wage req.tick b.ledger).1.ok ≡ true
    → let (b', reply) = transfer memory_calls id req b in
      let later : Server Memory = record { ledger = run cs b'.ledger; events = facts } in
      transfer memory_calls id' req later ≡ (
        record later { events = facts ++ wage_paid req.payer req.payee req.amount req.tick ∷ [] },
        reply,
      )
unfolding transfer transfer_events kind_from_proto bytes_eq
wage_redelivered id id' req cs b facts kind payer payee paid =
    rw (kind, ==-eq-false req.payer (bytes "") payer, ==-eq-false req.payee (bytes "") payee)
      (rw
        (transfer_replay id id' req.payer req.payee req.amount req.amount kind_wage req.tick cs
          b.ledger paid)
        (rw paid refl))
