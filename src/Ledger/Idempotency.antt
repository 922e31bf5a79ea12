-- ===== src/Ledger/Idempotency.antt =====
-- Repeated requests to services/bank/internal/ledger/memory.go: the remembered answers, and the
-- ids of the facts that were booked.
use pipsim.Common.{ℕ, ◌≡◌, some, true, List, [], ◌∷◌, arith}
use pipsim.Common.Tests.{==_iff, ==-refl}
use pipsim.Common.Strings.{Bytes, Bytes-Eq, bytes}
use pipsim.Common.Assoc.{lookup, lookup-insert}
use pipsim.Ledger.{
  Kind, Result, Credit, Memory, idempotency_key, transfer, commit_transfer, batch_transfer,
  commit_batch, post, open_account, get_balance,
}
use pipsim.Ledger.History.{Call, after, run}

-- The answer `r` is on record under `key`.
abbrev pub Recorded : Bytes → Result → Memory → Type 0
Recorded key r m = lookup key m.idempotent ≡ some r

-- The fact `id` has been booked.
abbrev pub Booked : Bytes → Memory → Type 0
Booked id m = lookup id m.posted ≡ some tt

transfer-Recorded :
    (key id p q : Bytes) (x : ℕ) (k : Kind) (t : ℕ) (r : Result) (m : Memory)
    → Recorded key r m
    → Recorded key r (transfer id p q x k t m).0
unfolding transfer commit_transfer
transfer-Recorded key id p q x k t r m h = ground (
  arith,
  ==_iff (idempotency_key p q t k) key,
  lookup-insert (idempotency_key p q t k) key
      (commit_transfer id p q x k t (idempotency_key p q t k) m).1 m.idempotent,
)

batch_transfer-Recorded :
    (key id p : Bytes) (cs : List Credit) (k : Kind) (t : ℕ) (r : Result) (m : Memory)
    → Recorded key r m
    → Recorded key r (batch_transfer id p cs k t m).0
unfolding batch_transfer commit_batch
batch_transfer-Recorded key id p cs k t r m h =
    grind (arith, ==_iff (idempotency_key p (bytes "batch") t k) key, lookup-insert)

after-Recorded :
    (key : Bytes) (r : Result) (c : Call) (m : Memory)
    → Recorded key r m
    → Recorded key r (after c m)
unfolding after open_account get_balance post
after-Recorded key r (Call.open_account a) m h = h
after-Recorded key r (Call.get_balance a) m h = h
after-Recorded key r (Call.transfer id p q x k t) m h = transfer-Recorded key id p q x k t r m h
after-Recorded key r (Call.batch_transfer id p cs k t) m h =
    batch_transfer-Recorded key id p cs k t r m h
after-Recorded key r (Call.post id p q x k t) m h = ground arith

pub run-Recorded :
    (key : Bytes) (r : Result) (cs : List Call) (m : Memory)
    → Recorded key r m
    → Recorded key r (run cs m)
unfolding run
run-Recorded key r [] m h = h
run-Recorded key r (c ∷ cs) m h = run-Recorded key r cs (after c m) (after-Recorded key r c m h)

pub transfer_records :
    (id p q : Bytes) (x : ℕ) (k : Kind) (t : ℕ) (m : Memory)
    → (transfer id p q x k t m).1.ok ≡ true
    → Recorded (idempotency_key p q t k) (transfer id p q x k t m).1 (transfer id p q x k t m).0
unfolding transfer commit_transfer
transfer_records id p q x k t m h = grind (arith, lookup-insert, ==-refl (idempotency_key p q t k))

batch_transfer_records :
    (id p : Bytes) (cs : List Credit) (k : Kind) (t : ℕ) (m : Memory)
    → (batch_transfer id p cs k t m).1.ok ≡ true
    → Recorded
        (idempotency_key p (bytes "batch") t k)
        (batch_transfer id p cs k t m).1
        (batch_transfer id p cs k t m).0
unfolding batch_transfer commit_batch
batch_transfer_records id p cs k t m h =
    grind (arith, lookup-insert, ==-refl (idempotency_key p (bytes "batch") t k))

-- A call whose key is on record is answered from the record.
pub transfer_answered :
    (id p q : Bytes) (x : ℕ) (k : Kind) (t : ℕ) (r : Result) (m : Memory)
    → Recorded (idempotency_key p q t k) r m
    → transfer id p q x k t m ≡ (m, r)
unfolding transfer
transfer_answered id p q x k t r m h = rw (h, transfer)

pub batch_transfer_answered :
    (id p : Bytes) (cs : List Credit) (k : Kind) (t : ℕ) (r : Result) (m : Memory)
    → Recorded (idempotency_key p (bytes "batch") t k) r m
    → batch_transfer id p cs k t m ≡ (m, r)
unfolding batch_transfer
batch_transfer_answered id p cs k t r m h = rw (h, batch_transfer)

-- A transfer that succeeded, sent again with the same payer, payee, tick and kind after any
-- history, whatever amount and id it carries then, is answered as the first time and changes
-- nothing.
pub transfer_replay :
    (id id' p q : Bytes) (x x' : ℕ) (k : Kind) (t : ℕ) (cs : List Call) (m : Memory)
    → (transfer id p q x k t m).1.ok ≡ true
    → let (m', r) = transfer id p q x k t m in transfer id' p q x' k t (run cs m') ≡ (run cs m', r)
transfer_replay id id' p q x x' k t cs m h =
    let (m', r) = transfer id p q x k t m in
    transfer_answered id' p q x' k t r (run cs m')
      (run-Recorded (idempotency_key p q t k) r cs m' (transfer_records id p q x k t m h))

-- A batch that succeeded, sent again with the same payer, tick and kind after any history,
-- whatever credits it carries then, is answered as the first time and changes nothing.
pub batch_transfer_replay :
    (id id' p : Bytes) (ds ds' : List Credit) (k : Kind) (t : ℕ) (cs : List Call) (m : Memory)
    → (batch_transfer id p ds k t m).1.ok ≡ true
    → let (m', r) = batch_transfer id p ds k t m in
      batch_transfer id' p ds' k t (run cs m') ≡ (run cs m', r)
batch_transfer_replay id id' p ds ds' k t cs m h =
    let (m', r) = batch_transfer id p ds k t m in
    batch_transfer_answered id' p ds' k t r (run cs m') (
      run-Recorded (idempotency_key p (bytes "batch") t k) r cs m'
        (batch_transfer_records id p ds k t m h))

pub posted-transfer :
    (id p q : Bytes) (x : ℕ) (k : Kind) (t : ℕ) (m : Memory)
    → (transfer id p q x k t m).0.posted ≡ m.posted
unfolding transfer commit_transfer
posted-transfer id p q x k t m = ground arith

pub posted-batch_transfer :
    (id p : Bytes) (cs : List Credit) (k : Kind) (t : ℕ) (m : Memory)
    → (batch_transfer id p cs k t m).0.posted ≡ m.posted
unfolding batch_transfer commit_batch
posted-batch_transfer id p cs k t m = ground arith

pub post-Booked :
    (f id p q : Bytes) (x : ℕ) (k : Kind) (t : ℕ) (m : Memory)
    → Booked f m
    → Booked f (post id p q x k t m)
unfolding post
post-Booked f id p q x k t m h = ground (arith, ==_iff id f, lookup-insert id f tt m.posted)

after-Booked : (f : Bytes) (c : Call) (m : Memory) → Booked f m → Booked f (after c m)
unfolding after open_account get_balance
after-Booked f (Call.open_account a) m h = h
after-Booked f (Call.get_balance a) m h = h
after-Booked f (Call.transfer id p q x k t) m h = rw (posted-transfer id p q x k t m) h
after-Booked f (Call.batch_transfer id p cs k t) m h = rw (posted-batch_transfer id p cs k t m) h
after-Booked f (Call.post id p q x k t) m h = post-Booked f id p q x k t m h

run-Booked : (f : Bytes) (cs : List Call) (m : Memory) → Booked f m → Booked f (run cs m)
unfolding run
run-Booked f [] m h = h
run-Booked f (c ∷ cs) m h = run-Booked f cs (after c m) (after-Booked f c m h)

pub post_books :
    (f p q : Bytes) (x : ℕ) (k : Kind) (t : ℕ) (m : Memory) → Booked f (post f p q x k t m)
unfolding post
post_books f p q x k t m = ground (arith, ==-refl f, lookup-insert f f tt m.posted)

pub post_again :
    (f p q : Bytes) (x : ℕ) (k : Kind) (t : ℕ) (m : Memory) → Booked f m → post f p q x k t m ≡ m
unfolding post
post_again f p q x k t m h = rw (h, post)

-- A fact that was booked once is not booked again, after any history and whatever movement the
-- later delivery carries.
pub post_replay :
    (f p p' q q' : Bytes) (x x' : ℕ) (k k' : Kind) (t t' : ℕ) (cs : List Call) (m : Memory)
    → post f p' q' x' k' t' (run cs (post f p q x k t m)) ≡ run cs (post f p q x k t m)
post_replay f p p' q q' x x' k k' t t' cs m =
    let m' = run cs (post f p q x k t m) in
    post_again f p' q' x' k' t' m' (run-Booked f cs (post f p q x k t m) (post_books f p q x k t m))
