-- ===== src/Bank/Settled.antt =====
-- What a committed offset promises: purchases.go over memory.go, through crashes and restarts.
use pipsim.Common.{
  ℕ, zero, suc, ◌+◌, ◌≤◌, ◌≡◌, ◌≢◌, refl, sym, ap, ◌∙◌, inl, inr, Bool, List, [], ◌∷◌, ◌++◌, length,
  arith, All, All-mono, Bool-cases, Option-cases,
}
use mathlib.Core.List.{append_assoc}
use pipsim.Common.Tests.{◌==◌, ==_iff}
use pipsim.Common.Strings.{Bytes, Bytes-Eq, bytes}
use pipsim.Common.Assoc.{lookup, lookup-insert}
use pipsim.Ledger.{Memory, JournalEntry, kind_purchase, two_entries, post}
use pipsim.Ledger.Interface.{memory_calls}
use pipsim.Ledger.Idempotency.{Booked}
use pipsim.Bank.Consumer.{
  Message, undecodable, envelope, purchase_made, pip_died, other, Fetch, fetched, State, step, run,
}
use pipsim.Bank.Purchases.{handle_purchase}
use pipsim.Bank.Delivery.{handle_purchase-Booked, handle_purchase_first}

unfoldable pub take : ℕ → List Message → List Message
take zero log = []
take (suc n) [] = []
take (suc n) (msg ∷ log) = msg ∷ take n log

unfoldable pub drop : ℕ → List Message → List Message
drop zero log = log
drop (suc n) [] = []
drop (suc n) (msg ∷ log) = drop n log

take-drop : (n : ℕ) (l : List Message) → take n l ++ drop n l ≡ l
unfolding take drop
take-drop zero l = refl
take-drop (suc n) [] = refl
take-drop (suc n) (msg ∷ l) = ap (λ rest. msg ∷ rest) (take-drop n l)

length-take : (n : ℕ) (l : List Message) → n ≤ length l → length (take n l) ≡ n
unfolding take
length-take zero l h = refl
length-take (suc n) [] h = omega arith
length-take (suc n) (msg ∷ l) h = ap suc (length-take n l (omega arith))

All-take : (P : Message → Type 0) (n : ℕ) (l : List Message) → All P l → All P (take n l)
unfolding take
All-take P zero l h = tt
All-take P (suc n) [] h = tt
All-take P (suc n) (msg ∷ l) (p, h) = (p, All-take P n l h)

take-append : (l rest : List Message) → take (length l) (l ++ rest) ≡ l
unfolding take
take-append [] rest = refl
take-append (msg ∷ l) rest = ap (λ k. msg ∷ k) (take-append l rest)

drop-append : (l rest : List Message) → drop (length l) (l ++ rest) ≡ rest
unfolding drop
drop-append [] rest = refl
drop-append (msg ∷ l) rest = drop-append l rest

take-at : (n : ℕ) (l rest : List Message) → length l ≡ n → take n (l ++ rest) ≡ l
take-at n l rest at = rw (← at) (take-append l rest)

drop-at : (n : ℕ) (l rest : List Message) → length l ≡ n → drop n (l ++ rest) ≡ rest
drop-at n l rest at = rw (← at) (drop-append l rest)

prefix-take :
    (n : ℕ) (whole l rest : List Message) → whole ≡ l ++ rest → length l ≡ n → take n whole ≡ l
prefix-take n whole l rest e at = ap (take n) e ∙ take-at n l rest at

length-snoc : (l : List Message) (msg : Message) → length (l ++ msg ∷ []) ≡ length l + 1
length-snoc [] msg = refl
length-snoc (m ∷ l) msg = omega (arith, length-snoc l msg)

All-snoc :
    (P : Message → Type 0) (l : List Message) (a : Message) → All P l → P a → All P (l ++ a ∷ [])
All-snoc P [] a h p = (p, tt)
All-snoc P (x ∷ l) a h p = (h.0, All-snoc P l a h.1 p)

-- The one list stands in the other.
abbrev pub Has : {A : Type 0} → List A → List A → Type 0
Has {A} part whole = (before : List A) × (after : List A) × (whole ≡ before ++ (part ++ after))

Has-append : {A : Type 0} (part whole more : List A) → Has part whole → Has part (whole ++ more)
Has-append part whole more (before, after, e) = (
  before,
  after ++ more,
  ap (λ l. l ++ more) e
      ∙ append_assoc before (part ++ after) more
      ∙ ap (λ l. before ++ l) (append_assoc part after more),
)

-- The journal has both rows of a purchase of the log with this id.
abbrev pub Journaled : List Message → Bytes → List JournalEntry → Type 0
Journaled log e journal =
    (p : Bytes) × (q : Bytes) × (x : ℕ) × (t : ℕ) × Has (envelope e t (purchase_made p q x) ∷ [])
      log
    × Has (two_entries e p q x kind_purchase t) journal

-- What the ledger keeps of a message that was passed over: a purchase with an id is journaled.
abbrev pub IsBooked : List Message → Memory → Message → Type 0
IsBooked log m undecodable = Unit
IsBooked log m (envelope e t (purchase_made p q x)) = e ≢ bytes "" → Journaled log e m.journal
IsBooked log m (envelope e t (pip_died pip)) = Unit
IsBooked log m (envelope e t other) = Unit

abbrev IsPosted : Memory → Message → Type 0
IsPosted m undecodable = Unit
IsPosted m (envelope e t (purchase_made p q x)) = e ≢ bytes "" → Booked e m
IsPosted m (envelope e t (pip_died pip)) = Unit
IsPosted m (envelope e t other) = Unit

-- Every id in `posted` is that of a journaled purchase.
abbrev Posts : List Message → Memory → Type 0
Posts log m = (e : Bytes) → Booked e m → Journaled log e m.journal

post-Posts :
    (log : List Message) (e p q : Bytes) (x t : ℕ) (m : Memory)
    → Has (envelope e t (purchase_made p q x) ∷ []) log
    → Posts log m
    → Posts log (post e p q x kind_purchase t m)
unfolding post
post-Posts log e p q x t m within h = elim (Option-cases (lookup e m.posted)) [
  | inr (_, seen) ↦ rw (seen, post) h
  | inl fresh ↦
      rw (fresh, post)
        (λ f booked. elim (Bool-cases (e == f)) [
          | inl same ↦
              let e_is_f : e ≡ f = (==_iff e f).0 same in
              rw (← e_is_f) (p, q, x, t, within, (m.journal, [], refl))
          | inr differs ↦
              let old : Booked f m =
                ground (arith, lookup-insert e f tt m.posted, booked, differs) in
              let (p', q', x', t', within', rows) = h f old in
              (
                p',
                q',
                x',
                t',
                within',
                Has-append (two_entries f p' q' x' kind_purchase t') m.journal
                    (two_entries e p q x kind_purchase t) rows,
              )
        ])
]

module _ (log : List Message) where
  handle-Posts :
      (id : Bytes) (msg : Message) (m : Memory)
      → Has (msg ∷ []) log
      → Posts log m
      → Posts log (handle_purchase memory_calls id msg m).0
  unfolding handle_purchase
  handle-Posts id undecodable m within h = h
  handle-Posts id (envelope e t (purchase_made p q x)) m within h =
      elim (Bool-cases (e == bytes "")) [
        | inl empty ↦ rw empty h
        | inr named ↦ rw named (post-Posts log e p q x t m within h)
      ]
  handle-Posts id (envelope e t (pip_died pip)) m within h = h
  handle-Posts id (envelope e t other) m within h = h

  handle-IsPosted :
      (id : Bytes) (msg : Message) (m : Memory)
      → IsPosted (handle_purchase memory_calls id msg m).0 msg
  handle-IsPosted id undecodable m = tt
  handle-IsPosted id (envelope e t (purchase_made p q x)) m =
      λ named. handle_purchase_first id e p q t x m named
  handle-IsPosted id (envelope e t (pip_died pip)) m = tt
  handle-IsPosted id (envelope e t other) m = tt

  IsPosted-handle :
      (id : Bytes) (msg : Message) (m : Memory) (old : Message)
      → IsPosted m old
      → IsPosted (handle_purchase memory_calls id msg m).0 old
  IsPosted-handle id msg m undecodable h = tt
  IsPosted-handle id msg m (envelope e t (purchase_made p q x)) h =
      λ named. handle_purchase-Booked e id msg m (h named)
  IsPosted-handle id msg m (envelope e t (pip_died pip)) h = tt
  IsPosted-handle id msg m (envelope e t other) h = tt

  IsPosted-IsBooked :
      (m : Memory) → Posts log m → (msg : Message) → IsPosted m msg → IsBooked log m msg
  IsPosted-IsBooked m posts undecodable h = tt
  IsPosted-IsBooked m posts (envelope e t (purchase_made p q x)) h = λ named. posts e (h named)
  IsPosted-IsBooked m posts (envelope e t (pip_died pip)) h = tt
  IsPosted-IsBooked m posts (envelope e t other) h = tt

  -- All that was delivered is posted, and no more than that is committed.
  abbrev Sound : List Message → State Memory → Type 0
  Sound done c = All (IsPosted c.ledger) done × (c.committed ≤ length done) × Posts log c.ledger

  step-Sound :
      (done rest : List Message) (id : Bytes) (msg : Message) (commits : Bool) (c : State Memory)
      → log ≡ done ++ (msg ∷ rest)
      → Sound done c
      → Sound
          (done ++ msg ∷ [])
          (step (handle_purchase memory_calls) (fetched id (length done) msg commits) c)
  unfolding step
  step-Sound done rest id msg commits c e (posted, bound, posts) =
      let (m, handled) = handle_purchase memory_calls id msg c.ledger in
      let small = length-snoc done msg in
      (
        All-snoc (IsPosted m) done msg (All-mono (IsPosted-handle id msg c.ledger) done posted)
            (handle-IsPosted id msg c.ledger),
        ground (arith, small, bound),
        handle-Posts id msg c.ledger (done, rest, e) posts,
      )

  -- What the broker delivers from an offset on: the messages of the log in their order, as far as the
  -- consumer lives, each with the id that a transfer would draw and whether its commit succeeds.
  unfoldable pub deliveries : ℕ → List Message → List (Bytes × Bool) → List Fetch
  deliveries offset [] life = []
  deliveries offset (msg ∷ rest) [] = []
  deliveries offset (msg ∷ rest) ((id, commits) ∷ life) =
      fetched id offset msg commits ∷ deliveries (offset + 1) rest life

  -- The consumer starts at the committed offset and dies at some point.
  unfoldable pub live : List (Bytes × Bool) → State Memory → State Memory
  unfolding deliveries drop
  live life c =
      run (handle_purchase memory_calls) (deliveries c.committed (drop c.committed log) life) c

  unfoldable pub live_all : List (List (Bytes × Bool)) → State Memory → State Memory
  unfolding live
  live_all [] c = c
  live_all (life ∷ lives) c = live_all lives (live life c)

  -- The log is split at the place that the consumer has reached.
  abbrev Reached : State Memory → Type 0
  Reached c = (done : List Message) × (rest : List Message) × (log ≡ done ++ rest) × Sound done c

  run-Reached :
      (rest done : List Message) (life : List (Bytes × Bool)) (c : State Memory)
      → log ≡ done ++ rest
      → Sound done c
      → Reached (run (handle_purchase memory_calls) (deliveries (length done) rest life) c)
  unfolding run deliveries
  run-Reached [] done life c e sound = (done, [], e, sound)
  run-Reached (msg ∷ rest) done [] c e sound = (done, msg ∷ rest, e, sound)
  run-Reached (msg ∷ rest) done ((id, commits) ∷ life) c e sound =
      let c' = step (handle_purchase memory_calls) (fetched id (length done) msg commits) c in
      rw (← length-snoc done msg) (
        run-Reached rest (done ++ msg ∷ []) life c' (e ∙ sym (append_assoc done (msg ∷ []) rest))
          (step-Sound done rest id msg commits c e sound))

  run_from-Reached :
      (n : ℕ) (rest done : List Message) (life : List (Bytes × Bool)) (c : State Memory)
      → length done ≡ n
      → log ≡ done ++ rest
      → Sound done c
      → Reached (run (handle_purchase memory_calls) (deliveries n rest life) c)
  run_from-Reached n rest done life c at e sound = rw (← at) (run-Reached rest done life c e sound)

  -- All before the committed offset is posted.
  abbrev Kept : State Memory → Type 0
  Kept c =
      (done : List Message) × (rest : List Message) × (log ≡ done ++ rest)
      × (length done ≡ c.committed)
      × All (IsPosted c.ledger) done
      × Posts log c.ledger

  Reached-Kept : (c : State Memory) → Reached c → Kept c
  Reached-Kept c (done, rest, e, (posted, bound, posts)) = (
    take c.committed done,
    drop c.committed done ++ rest,
    e
        ∙ ap (λ l. l ++ rest) (sym (take-drop c.committed done))
        ∙ append_assoc (take c.committed done) (drop c.committed done) rest,
    length-take c.committed done bound,
    All-take (IsPosted c.ledger) c.committed done posted,
    posts,
  )

  live-Kept : (life : List (Bytes × Bool)) (c : State Memory) → Kept c → Kept (live life c)
  unfolding live
  live-Kept life c (done, rest, e, at, posted, posts) =
      let left : drop c.committed log ≡ rest =
        ap (drop c.committed) e ∙ drop-at c.committed done rest at in
      let reached : Reached (live life c) =
        rw left
          (run_from-Reached c.committed rest done life c at e (posted, omega (arith, at), posts)) in
      Reached-Kept (live life c) reached

  live_all-Kept :
      (lives : List (List (Bytes × Bool))) (c : State Memory) → Kept c → Kept (live_all lives c)
  unfolding live_all
  live_all-Kept [] c h = h
  live_all-Kept (life ∷ lives) c h = live_all-Kept lives (live life c) (live-Kept life c h)

  -- A consumer of one partition dies any number of times, at any point and with any commits lost,
  -- and starts again at the committed offset. Then the journal of the in-memory ledger has, for every
  -- purchase with an id before the committed offset, both rows of a purchase of the log with that id.
  -- The ledger has booked no purchase at first.
  pub committed-IsBooked :
      (lives : List (List (Bytes × Bool))) (m : Memory)
      → m.posted ≡ []
      → let c = live_all lives (record { ledger = m; committed = 0 }) in
        All (IsBooked log c.ledger) (take c.committed log)
  unfolding lookup
  committed-IsBooked lives m fresh =
      let start : State Memory = record { ledger = m; committed = 0 } in
      let none_posted : Posts log m = λ e booked. cc (rw fresh at booked) in
      let (done, rest, e, at, posted, posts) =
        live_all-Kept lives start ([], log, refl, refl, tt, none_posted) in
      rw (prefix-take (live_all lives start).committed log done rest e at)
        (All-mono (IsPosted-IsBooked (live_all lives start).ledger posts) done posted)
