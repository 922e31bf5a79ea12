-- ===== src/Postgres/Atomic.antt =====
-- The transactions of services/bank/internal/ledger/postgres.go under faults: rollback, commit and
-- a commit whose answer is lost.
use pipsim.Common.{ℕ, ◌≡◌, refl, ◌⊎◌, inl, inr, Bool, true, false, Option, none, some, List, []}
use pipsim.Common.Strings.{Bytes, Bytes-Eq}
use pipsim.Ledger.{Kind, Credit}
use pipsim.Postgres.Statements.{Tables, Session, Tx}
use pipsim.Postgres.Calls.{
  Commit, made, refused, unheard, transact, finish, transfer_body, post_body, batch_transfer_body,
}
use pipsim.Postgres.Steady.{
  AgreesWith, IsSteady, transfer_body-IsSteady, post_body-IsSteady, batch_transfer_body-IsSteady,
}

-- The call left the tables alone and reports an error, or it left them as the call without faults
-- does, and answers as that one or, only where the answer to the commit was lost, with an error.
abbrev pub IsAtomic : {A : Type 0} → Tx (A × Bool) → List Bool → Commit → Tables → Type 0
IsAtomic body faults commit t =
    let (after, reply) = transact body faults commit t in
    let (whole, answer) = transact body [] made t in
    ((after ≡ t) × (reply ≡ none))
    ⊎ ((after ≡ whole) × ((reply ≡ answer) ⊎ ((commit ≡ unheard) × (reply ≡ none))))

finish-IsAtomic :
    {A : Type 0} (r free : Option ((A × Bool) × Session)) (commit : Commit) (t : Tables)
    → AgreesWith r free
    → let (after, reply) = finish commit t r in
      let (whole, answer) = finish made t free in
      ((after ≡ t) × (reply ≡ none))
      ⊎ ((after ≡ whole) × ((reply ≡ answer) ⊎ ((commit ≡ unheard) × (reply ≡ none))))
unfolding finish
finish-IsAtomic none free commit t h = inl (refl, refl)
finish-IsAtomic (some ((a, false), (faults, t'))) free commit t h = rw h (inr (refl, inl refl))
finish-IsAtomic (some ((a, true), (faults, t'))) free made t h = rw h (inr (refl, inl refl))
finish-IsAtomic (some ((a, true), (faults, t'))) free refused t h = inl (refl, refl)
finish-IsAtomic (some ((a, true), (faults, t'))) free unheard t h =
    rw h (inr (refl, inr (refl, refl)))

transact-IsAtomic :
    {A : Type 0} (body : Tx (A × Bool)) (faults : List Bool) (commit : Commit) (t : Tables)
    → IsSteady body
    → IsAtomic body faults commit t
unfolding transact
transact-IsAtomic body faults commit t h =
    finish-IsAtomic (body (faults, t)) (body ([], t)) commit t (h faults t)

-- Whatever statements fail, and however the commit ends, a transfer, a batch and a settled movement
-- each happen as a whole or not at all: either nothing has changed and the caller gets an error, or
-- the tables are as after the same call without any fault, and so is the answer, unless the answer
-- to the commit itself was lost.
pub calls-AreAtomic :
    (id payer payee : Bytes) (amount : ℕ) (credits : List Credit) (kind : Kind) (tick : ℕ)
    (faults : List Bool) (commit : Commit) (t : Tables)
    → IsAtomic (transfer_body id payer payee amount kind tick) faults commit t
      × IsAtomic (batch_transfer_body id payer credits kind tick) faults commit t
      × IsAtomic (post_body id payer payee amount kind tick) faults commit t
calls-AreAtomic id payer payee amount credits kind tick faults commit t = (
  transact-IsAtomic _ faults commit t (transfer_body-IsSteady id payer payee amount kind tick),
  transact-IsAtomic _ faults commit t (batch_transfer_body-IsSteady id payer kind tick credits),
  transact-IsAtomic _ faults commit t (post_body-IsSteady id payer payee amount kind tick),
)
