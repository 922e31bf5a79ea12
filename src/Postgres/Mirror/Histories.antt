-- ===== src/Postgres/Mirror/Histories.antt =====
-- Histories of calls on services/bank/internal/ledger/postgres.go, each under its own faults, beside
-- the calls of memory.go that took effect.
use pipsim.Common.{
  ◌≢◌, ◌⊎◌, ◌<◌, refl, ◌∙◌, Bool, true, false, Option, List, [], ◌∷◌, inl, inr, map, All,
}
use pipsim.Common.Words.{word_size}
use pipsim.Common.Strings.{Bytes, Bytes-Eq}
use pipsim.Common.Assoc.{lookup}
use pipsim.Ledger
use pipsim.Ledger.{Memory, balance_of}
use pipsim.Ledger.History.{Call, after, run}
use pipsim.Ledger.Keys.{IsPlain}
use pipsim.Postgres.Statements.{Tables, exec, done}
use pipsim.Postgres.Calls.{
  Commit, transact, transfer_body, batch_transfer_body, post_body, open_account, get_balance,
}
use pipsim.Postgres.Mirror.Rows.{or_insert-SameBalances}
use pipsim.Postgres.Mirror.Calls.{Mirrors}
use pipsim.Postgres.Mirror.Credits.{PaysOthers}
use pipsim.Postgres.Mirror.Once.{IsUnbooked, BookOnce, after-AreUnbooked}
use pipsim.Postgres.Mirror.Implements.{
  transfer-Implements, batch_transfer-Implements, post-Implements, Happens,
}

-- A call, which of its statements fail, and how its commit ends.
pub record Attempt : Type 0 where
  pub call : Call
  pub faults : List Bool
  pub commit : Commit

-- The tables after an attempt.
unfoldable pub attempt : Call → List Bool → Commit → Tables → Tables
attempt (Call.open_account a) faults commit t = (open_account a faults t).0
attempt (Call.get_balance a) faults commit t = (get_balance a faults t).0
attempt (Call.transfer id p q x k tick) faults commit t =
    (transact (transfer_body id p q x k tick) faults commit t).0
attempt (Call.batch_transfer id p cs k tick) faults commit t =
    (transact (batch_transfer_body id p cs k tick) faults commit t).0
attempt (Call.post id p q x k tick) faults commit t =
    (transact (post_body id p q x k tick) faults commit t).0

unfoldable pub attempt_all : List Attempt → Tables → Tables
attempt_all [] t = t
attempt_all (a ∷ attempts) t = attempt_all attempts (attempt a.call a.faults a.commit t)

abbrev pub calls_of : List Attempt → List Call
calls_of = map (λ (a : Attempt). a.call)

-- The first list is the second with some calls left out.
pub data IsSublist : List Call → List Call → Type 0 where
  nothing : IsSublist [] []
  kept : {c : Call} {cs ds : List Call} → IsSublist cs ds → IsSublist (c ∷ cs) (c ∷ ds)
  left_out : {c : Call} {cs ds : List Call} → IsSublist cs ds → IsSublist cs (c ∷ ds)

-- Names without `|`, ticks that fit, and no payment to oneself.
abbrev pub IsProper : Call → Type 0
IsProper (Call.open_account a) = Unit
IsProper (Call.get_balance a) = Unit
IsProper (Call.transfer id p q x k tick) = IsPlain p × IsPlain q × (tick < word_size) × (p ≢ q)
IsProper (Call.batch_transfer id p cs k tick) = IsPlain p × (tick < word_size) × PaysOthers p cs
IsProper (Call.post id p q x k tick) = Unit

Happens-Mirrors :
    {A : Type 0} (m : Memory) (answer : Memory × A) (commit : Commit) (r : Tables × Option A)
    → Happens m answer commit r
    → Mirrors m r.0 ⊎ Mirrors answer.0 r.0
Happens-Mirrors m answer commit r (inl (same, e)) = inl same
Happens-Mirrors m answer commit r (inr (moved, e)) = inr moved

open_account-Mirrors :
    (a : Bytes) (faults : List Bool) (m : Memory) (t : Tables)
    → Mirrors m t
    → Mirrors m (open_account a faults t).0
unfolding open_account exec done
open_account-Mirrors a [] m t h =
    (λ y. or_insert-SameBalances a t.accounts (lookup a t.accounts) refl y ∙ h.0 y, h.1, h.2)
open_account-Mirrors a (true ∷ faults) m t h = h
open_account-Mirrors a (false ∷ faults) m t h =
    (λ y. or_insert-SameBalances a t.accounts (lookup a t.accounts) refl y ∙ h.0 y, h.1, h.2)

get_balance-Mirrors :
    (a : Bytes) (faults : List Bool) (m : Memory) (t : Tables)
    → Mirrors m t
    → Mirrors m (get_balance a faults t).0
unfolding get_balance exec done
get_balance-Mirrors a [] m t h = h
get_balance-Mirrors a (true ∷ faults) m t h = h
get_balance-Mirrors a (false ∷ faults) m t h = h

-- An attempt leaves what the tables mirror, or takes it on by the call.
pub attempt-Mirrors :
    (c : Call) (faults : List Bool) (commit : Commit) (m : Memory) (t : Tables)
    → Mirrors m t
    → IsProper c
    → IsUnbooked m c
    → Mirrors m (attempt c faults commit t) ⊎ Mirrors (after c m) (attempt c faults commit t)
unfolding attempt after
attempt-Mirrors (Call.open_account a) faults commit m t h proper fresh =
    inl (open_account-Mirrors a faults m t h)
attempt-Mirrors (Call.get_balance a) faults commit m t h proper fresh =
    inl (get_balance-Mirrors a faults m t h)
attempt-Mirrors (Call.transfer id p q x k tick) faults commit m t h proper fresh =
    Happens-Mirrors m (Ledger.transfer id p q x k tick m) commit _
      (transfer-Implements id p q x k tick faults commit m t h proper.0 proper.1 proper.2
        proper.3).1
attempt-Mirrors (Call.batch_transfer id p cs k tick) faults commit m t h proper fresh =
    Happens-Mirrors m (Ledger.batch_transfer id p cs k tick m) commit _
      (batch_transfer-Implements id p cs k tick faults commit m t h proper.0 proper.1 proper.2).1
attempt-Mirrors (Call.post id p q x k tick) faults commit m t h proper fresh =
    Happens-Mirrors m (Ledger.post id p q x k tick m, tt) commit _
      (post-Implements id p q x k tick faults commit m t h fresh).1

-- However the statements of a history of calls fail, and however its commits end, the tables mirror
-- at its end what the memory holds after some of the calls, in the same order: those that took
-- effect. This asks for names without `|`, ticks that fit 64 bits, payers that do not pay
-- themselves, and that no settled movement comes twice.
pub attempt_all-Mirrors :
    (attempts : List Attempt) (m : Memory) (t : Tables)
    → Mirrors m t
    → All IsProper (calls_of attempts)
    → All (IsUnbooked m) (calls_of attempts)
    → BookOnce (calls_of attempts)
    → (cs : List Call) × IsSublist cs (calls_of attempts)
      × Mirrors (run cs m) (attempt_all attempts t)
unfolding attempt_all run
attempt_all-Mirrors [] m t h proper fresh once = ([], nothing, h)
attempt_all-Mirrors (a ∷ attempts) m t h (p, proper) (f, fresh) (o, once) =
    elim (attempt-Mirrors a.call a.faults a.commit m t h p f) [
      | inl same ↦
          let (cs, sub, mirrors) =
            attempt_all-Mirrors attempts m (attempt a.call a.faults a.commit t) same proper fresh
              once in
          (cs, left_out sub, mirrors)
      | inr moved ↦
          let (cs, sub, mirrors) =
            attempt_all-Mirrors attempts (after a.call m) (attempt a.call a.faults a.commit t) moved
              proper (after-AreUnbooked a.call (calls_of attempts) m o fresh) once in
          (a.call ∷ cs, kept sub, mirrors)
    ]
