-- ===== src/Ledger/Keys.antt =====
-- The key of a transfer, `payer|payee|tick|kind` (idempotencyKey of
-- services/bank/internal/ledger/memory.go).
use pipsim.Common.{ℕ, ◌≡◌, ◌≢◌, ◌<◌, [], ◌∷◌, ◌++◌, arith, All}
use mathlib.Core.List.{append_assoc}
use pipsim.Common.Words.{word_size}
use pipsim.Common.Strings.{Bytes, decimal, decimal-injective, decimal-All-IsDigit, IsDigit}
use pipsim.Ledger.{Kind, idempotency_key, separator}

-- The text has no separator.
abbrev pub IsPlain : Bytes → Type 0
IsPlain = All (λ c. c ≢ separator)

-- Two texts with no separator, each followed by one, end at the same place.
split_at_separator :
    (s s' r r' : Bytes)
    → IsPlain s
    → IsPlain s'
    → s ++ (separator ∷ r) ≡ s' ++ (separator ∷ r')
    → (s ≡ s') × (r ≡ r')
split_at_separator [] [] r r' h h' e = ground arith
split_at_separator [] (c ∷ s') r r' h h' e = absurd (h'.0 (ground arith))
split_at_separator (c ∷ s) [] r r' h h' e = absurd (h.0 (ground arith))
split_at_separator (c ∷ s) (c' ∷ s') r r' h h' e =
    ground (arith, split_at_separator s s' r r' h.1 h'.1)

IsDigit-IsPlain : (s : Bytes) → All IsDigit s → IsPlain s
IsDigit-IsPlain [] h = tt
IsDigit-IsPlain (c ∷ s) h = (omega arith, IsDigit-IsPlain s h.1)

-- Transfers between accounts whose names hold no `|` share a key only if they agree in payer,
-- payee, tick and kind, so no transfer is answered for another one. The ticks are uint64 and the
-- kinds any text.
pub idempotency_key-injective :
    (p p' q q' : Bytes) (t t' : ℕ) (k k' : Kind)
    → IsPlain p
    → IsPlain p'
    → IsPlain q
    → IsPlain q'
    → t < word_size
    → t' < word_size
    → idempotency_key p q t k ≡ idempotency_key p' q' t' k'
    → (p ≡ p') × (q ≡ q') × (t ≡ t') × (k ≡ k')
unfolding idempotency_key
idempotency_key-injective p p' q q' t t' k k' hp hp' hq hq' ht ht' e =
    let (ep, rest) = split_at_separator p p' _ _ hp hp' e in
    let (eq, last) = split_at_separator q q' _ _ hq hq' rest in
    let (et, ek) =
      split_at_separator (decimal t) (decimal t') _ _
        (IsDigit-IsPlain (decimal t) (decimal-All-IsDigit t))
        (IsDigit-IsPlain (decimal t') (decimal-All-IsDigit t')) last in
    (ep, eq, decimal-injective t t' (omega arith) (omega arith) et, ek)

-- A `|` in a name lets two transfers between different accounts share a key.
pub idempotency_key_ambiguous :
    (a b c : Bytes) (t : ℕ) (k : Kind)
    → idempotency_key (a ++ (separator ∷ b)) c t k ≡ idempotency_key a (b ++ (separator ∷ c)) t k
unfolding idempotency_key
idempotency_key_ambiguous a b c t k = simp append_assoc
