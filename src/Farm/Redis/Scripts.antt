-- ===== src/Farm/Redis/Scripts.antt =====
-- The hash that stands for a shift map, and what the scripts of
-- services/workplaces/farm/internal/farm/store.go make of it.
use pipsim.Common.{
  ℕ, suc, ◌<◌, ◌≡◌, ◌≢◌, refl, ap, inl, inr, false, Option, none, some, [], ◌∷◌, length, arith, All,
  Bool-cases,
}
use pipsim.Common.Words.{word_size}
use pipsim.Common.Tests.{◌==◌, ==_iff, ==-refl, ==-eq-false, ℕ-Eq}
use pipsim.Common.Strings.{Bytes, Bytes-Eq, decimal, decimal-injective}
use pipsim.Common.Text.{split, Lacks, decimal-Lacks, split-join, parse_uint-decimal, decimal-ne-nil}
use pipsim.Common.Assoc.{Assoc, lookup, insert, delete}
use pipsim.Farm.Shifts.{Shift}
use pipsim.Farm.Redis.{
  Hash, colon, value_text, third_number, third_match, two_matches, tonumber, double, exact_limit,
  last_ms,
}

unfoldable pub shift_text : Shift → Bytes
shift_text sh =
    value_text (decimal sh.started_tick) (decimal sh.last_work_tick) (decimal sh.last_work)

-- The hash of a shift map.
unfoldable pub hash_of : Assoc ℕ Shift → Hash
hash_of [] = []
hash_of (e ∷ entries) = (decimal e.0, shift_text e.1) ∷ hash_of entries

-- The id is a uint64, and the numbers are exact as doubles.
abbrev pub IsSmall : ℕ × Shift → Type 0
IsSmall (pip, sh) =
    (pip < word_size)
    × (sh.started_tick < exact_limit)
    × (sh.last_work_tick < exact_limit)
    × (sh.last_work < exact_limit)

decimal-Lacks-colon : (n : ℕ) → Lacks colon (decimal n)
decimal-Lacks-colon n = decimal-Lacks colon n (λ c digit. omega (arith, digit))

pub split-shift_text :
    (sh : Shift)
    → split (shift_text sh) colon
      ≡ decimal sh.started_tick ∷ (decimal sh.last_work_tick ∷ (decimal sh.last_work ∷ []))
unfolding shift_text
split-shift_text sh =
    let plain : (n : ℕ) → Lacks colon (decimal n) = λ n. decimal-Lacks-colon n in
    split-join colon (decimal sh.started_tick)
      (decimal sh.last_work_tick ∷ (decimal sh.last_work ∷ [])) (plain sh.started_tick)
      (plain sh.last_work_tick, (plain sh.last_work, tt))

pub double-eq : (n : ℕ) → n < exact_limit → double n ≡ n
unfolding double
double-eq n h = ground arith

pub tonumber-decimal : (n : ℕ) → n < exact_limit → tonumber (decimal n) ≡ some n
unfolding tonumber
tonumber-decimal n h =
    rw (parse_uint-decimal n (omega (arith, h)), tonumber) (ap some (double-eq n h))

decimal-some : (n : ℕ) → (decimal n == []) ≡ false
decimal-some n = ==-eq-false (decimal n) [] (decimal-ne-nil n)

pub two_matches-decimal :
    (a b : ℕ) (c : Bytes)
    → two_matches (decimal a ∷ (decimal b ∷ (c ∷ []))) ≡ some (decimal a, decimal b)
unfolding two_matches
two_matches-decimal a b c = rw (decimal-some a, decimal-some b) refl

pub last_ms-shift_text :
    (sh : Shift) → sh.last_work < exact_limit → last_ms (shift_text sh) ≡ some sh.last_work
unfolding last_ms third_number third_match
last_ms-shift_text sh small =
    rw (split-shift_text sh, decimal-some sh.started_tick, decimal-some sh.last_work_tick)
      (rw (decimal-some sh.last_work) (tonumber-decimal sh.last_work small))

different : (a b : ℕ) → (a == b) ≡ false → a ≢ b
different a b differs e = ground (arith, ==_iff a b)

pub same_field : (a b : ℕ) → a < word_size → b < word_size → (decimal a == decimal b) ≡ (a == b)
same_field a b ha hb = elim (Bool-cases (a == b)) [
  | inl same ↦ let e : a ≡ b = (==_iff a b).0 same in rw same (rw e (==-refl (decimal b)))
  | inr differs ↦ rw differs (
      ==-eq-false (decimal a) (decimal b) (λ e.
        different a b differs (decimal-injective a b (omega (arith, ha)) (omega (arith, hb)) e)))
]

abbrev pub text_of : Option Shift → Option Bytes
text_of none = none
text_of (some sh) = some (shift_text sh)

pub lookup-hash_of :
    (pip : ℕ) (shifts : Assoc ℕ Shift)
    → pip < word_size
    → All IsSmall shifts
    → lookup (decimal pip) (hash_of shifts) ≡ text_of (lookup pip shifts)
unfolding lookup hash_of
lookup-hash_of pip [] small h = refl
lookup-hash_of pip (e ∷ shifts) small (first, h) =
    rw (same_field e.0 pip first.0 small) (elim (Bool-cases (e.0 == pip)) [
      | inl same ↦ rw same refl
      | inr differs ↦ rw differs (lookup-hash_of pip shifts small h)
    ])

pub insert-hash_of :
    (pip : ℕ) (sh : Shift) (shifts : Assoc ℕ Shift)
    → pip < word_size
    → All IsSmall shifts
    → insert (decimal pip) (shift_text sh) (hash_of shifts) ≡ hash_of (insert pip sh shifts)
unfolding insert hash_of
insert-hash_of pip sh [] small h = refl
insert-hash_of pip sh (e ∷ shifts) small (first, h) =
    rw (same_field e.0 pip first.0 small) (elim (Bool-cases (e.0 == pip)) [
      | inl same ↦ rw same refl
      | inr differs ↦
          rw differs (
            ap (λ rest. (decimal e.0, shift_text e.1) ∷ rest)
              (insert-hash_of pip sh shifts small h))
    ])

pub delete-hash_of :
    (pip : ℕ) (shifts : Assoc ℕ Shift)
    → pip < word_size
    → All IsSmall shifts
    → delete (decimal pip) (hash_of shifts) ≡ hash_of (delete pip shifts)
unfolding delete hash_of
delete-hash_of pip [] small h = refl
delete-hash_of pip (e ∷ shifts) small (first, h) =
    rw (same_field e.0 pip first.0 small) (elim (Bool-cases (e.0 == pip)) [
      | inl same ↦ rw same (delete-hash_of pip shifts small h)
      | inr differs ↦
          rw differs
            (ap (λ rest. (decimal e.0, shift_text e.1) ∷ rest) (delete-hash_of pip shifts small h))
    ])

pub length-hash_of : (shifts : Assoc ℕ Shift) → length (hash_of shifts) ≡ length shifts
unfolding hash_of
length-hash_of [] = refl
length-hash_of (e ∷ shifts) = ap suc (length-hash_of shifts)
