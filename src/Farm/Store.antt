-- ===== src/Farm/Store.antt =====
-- The interface `Store` of services/workplaces/farm/internal/farm/store.go, and its in-memory
-- implementation `memStore`.
use pipsim.Common.{ℕ, Bool, Option, some}
use pipsim.Common.Strings.{Bytes}
use pipsim.Farm.Shifts
use pipsim.Farm.Shifts.{ShiftSet}

-- The calls over a state of type `S`, each at the time that is its last number; `none` is an
-- error.
pub record StoreCalls (S : Type 0) : Type 0 where
  pub claim : ℕ → ℕ → ℕ → S → S × Option (Bool × Bytes)
  pub touch : ℕ → ℕ → ℕ → S → S × Option (ℕ × Bool)
  pub release : ℕ → ℕ → ℕ → S → S × Option (ℕ × Bool)
  pub count : ℕ → S → S × Option ℕ

abbrev locked : {A B : Type 0} → ShiftSet × A × B → ShiftSet × Option (A × B)
locked (s, a, b) = (s, some (a, b))

abbrev pub mem_store : StoreCalls ShiftSet
mem_store = record {
  claim = λ pip tick now s. locked (Shifts.claim pip tick now s);
  touch = λ pip tick now s. locked (Shifts.touch pip tick now s);
  release = λ pip tick now s. locked (Shifts.release pip s);
  count = λ now s. (s, some (Shifts.count s));
}
