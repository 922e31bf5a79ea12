-- ===== src/Economy/Payroll/Endowment.antt =====
-- `endowmentFor` of services/world-gateway/internal/economy/payroll.go.
use pipsim.Common.{ℕ, ◌+◌, ◌/◌, ◌≤◌, ◌<◌, ◌≡◌, ◌⊎◌, arith}
use pipsim.Common.Words.{add64, word_size, sign_bit}
use pipsim.Economy.Payroll.{endowment_for}

-- For a capital of more than zero, and a workplace that holds any int64 balance not so far below
-- zero that the shortfall itself would wrap round: either it holds half its capital or more and
-- gets nothing, or it holds less and gets a positive amount that brings it to exactly its capital.
pub endowment_for_fills :
    (held capital : ℕ)
    → 0 < capital
    → capital < sign_bit
    → held < word_size
    → (held < sign_bit) ⊎ (capital + sign_bit < held)
    → let amount = endowment_for held capital in
      ((held < sign_bit) × (capital / 2 ≤ held) × (amount ≡ 0))
      ⊎ (((held < capital / 2) ⊎ (sign_bit ≤ held))
          × (0 < amount)
          × (amount < sign_bit)
          × (add64 held amount ≡ capital))
unfolding endowment_for
endowment_for_fills held capital c1 c2 h range = ground arith
