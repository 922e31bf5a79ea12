-- ===== src/Postgres/Mirror/Once.antt =====
-- Histories of the ledger in which no settled movement comes twice.
use pipsim.Common.{ℕ, ◌≡◌, ◌≢◌, none, List, [], ◌∷◌, All, arith}
use pipsim.Common.Tests.{==_iff}
use pipsim.Common.Strings.{Bytes, Bytes-Eq}
use pipsim.Common.Assoc.{lookup, lookup-insert}
use pipsim.Ledger
use pipsim.Ledger.{Memory}
use pipsim.Ledger.History.{Call, after}
use pipsim.Ledger.Idempotency.{posted-transfer, posted-batch_transfer}

-- The fact that the call books, if it books one, is not booked yet.
abbrev pub IsUnbooked : Memory → Call → Type 0
IsUnbooked m (Call.post id p q x k tick) = lookup id m.posted ≡ none
IsUnbooked m _ = Unit

-- The calls do not book the same fact.
abbrev pub BooksOther : Call → Call → Type 0
BooksOther (Call.post id p q x k tick) (Call.post id' p' q' x' k' tick') = id ≢ id'
BooksOther _ _ = Unit

-- No fact is booked by two of the calls.
abbrev pub BookOnce : List Call → Type 0
BookOnce [] = Unit
BookOnce (c ∷ cs) = All (BooksOther c) cs × BookOnce cs

post-IsUnbooked :
    (id p q : Bytes) (x : ℕ) (k : Bytes) (tick : ℕ) (c : Call) (m : Memory)
    → BooksOther (Call.post id p q x k tick) c
    → IsUnbooked m c
    → IsUnbooked (Ledger.post id p q x k tick m) c
unfolding Ledger.post
post-IsUnbooked id p q x k tick (Call.open_account a) m ne h = tt
post-IsUnbooked id p q x k tick (Call.get_balance a) m ne h = tt
post-IsUnbooked id p q x k tick (Call.transfer id' p' q' x' k' tick') m ne h = tt
post-IsUnbooked id p q x k tick (Call.batch_transfer id' p' cs k' tick') m ne h = tt
post-IsUnbooked id p q x k tick (Call.post id' p' q' x' k' tick') m ne h =
    ground (arith, lookup-insert id id' tt m.posted, ==_iff id id')

same_posted-IsUnbooked :
    (c : Call) (m m' : Memory) → m'.posted ≡ m.posted → IsUnbooked m c → IsUnbooked m' c
same_posted-IsUnbooked (Call.open_account a) m m' e h = tt
same_posted-IsUnbooked (Call.get_balance a) m m' e h = tt
same_posted-IsUnbooked (Call.transfer id p q x k tick) m m' e h = tt
same_posted-IsUnbooked (Call.batch_transfer id p cs k tick) m m' e h = tt
same_posted-IsUnbooked (Call.post id p q x k tick) m m' e h = rw e h

pub after-IsUnbooked :
    (c d : Call) (m : Memory) → BooksOther c d → IsUnbooked m d → IsUnbooked (after c m) d
unfolding after Ledger.open_account Ledger.get_balance
after-IsUnbooked (Call.open_account a) d m ne h = h
after-IsUnbooked (Call.get_balance a) d m ne h = h
after-IsUnbooked (Call.transfer id p q x k tick) d m ne h =
    same_posted-IsUnbooked d m (Ledger.transfer id p q x k tick m).0
      (posted-transfer id p q x k tick m) h
after-IsUnbooked (Call.batch_transfer id p cs k tick) d m ne h =
    same_posted-IsUnbooked d m (Ledger.batch_transfer id p cs k tick m).0
      (posted-batch_transfer id p cs k tick m) h
after-IsUnbooked (Call.post id p q x k tick) d m ne h = post-IsUnbooked id p q x k tick d m ne h

pub after-AreUnbooked :
    (c : Call) (cs : List Call) (m : Memory)
    → All (BooksOther c) cs
    → All (IsUnbooked m) cs
    → All (IsUnbooked (after c m)) cs
after-AreUnbooked c [] m others h = tt
after-AreUnbooked c (d ∷ cs) m (ne, others) (fresh, h) =
    (after-IsUnbooked c d m ne fresh, after-AreUnbooked c cs m others h)
