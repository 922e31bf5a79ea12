-- ===== src/Farm/Redis/Claims.antt =====
-- The claim script of services/workplaces/farm/internal/farm/store.go on the hash of a shift map.
use pipsim.Common.{
  ℕ, suc, ◌+◌, ◌-◌, ◌<◌, ◌≡◌, ◌≢◌, ◌⊎◌, refl, ap, ◌∙◌, inl, inr, true, false, Option, none, some,
  [], ◌∷◌, ◌++◌, length, arith, All, Bool-cases,
}
use pipsim.Common.Words.{word_size}
use pipsim.Common.Tests.{◌==◌, ==_iff, ==-refl, ℕ-Eq}
use pipsim.Common.Strings.{Bytes-Eq, decimal}
use pipsim.Common.Assoc.{Assoc, lookup, delete, IsMap, delete-IsMap}
use pipsim.Farm.Shifts.{Shift, live, is_expired}
use pipsim.Farm.Redis.{Hash, scan, exact_limit, is_over, last_ms}
use pipsim.Farm.Redis.Scripts.{
  hash_of, IsSmall, last_ms-shift_text, shift_text, double-eq, same_field, delete-hash_of,
}

delete-fresh :
    (pip : ℕ) (shifts : Assoc ℕ Shift) → lookup pip shifts ≡ none → delete pip shifts ≡ shifts
unfolding delete lookup
delete-fresh pip [] h = refl
delete-fresh pip (e ∷ shifts) h = elim (Bool-cases (e.0 == pip)) [
  | inl same ↦ ground (arith, h, same)
  | inr differs ↦ rw differs (ap (λ rest. e ∷ rest) (delete-fresh pip shifts (rw differs at h)))
]

lookup-middle : (e : ℕ × Shift) (kept rest : Assoc ℕ Shift) → lookup e.0 (kept ++ (e ∷ rest)) ≢ none
unfolding lookup
lookup-middle e [] rest h = ground (arith, ==-refl e.0)
lookup-middle e (x ∷ kept) rest h = elim (Bool-cases (x.0 == e.0)) [
  | inl same ↦ ground (arith, h, same)
  | inr differs ↦ lookup-middle e kept rest (rw differs at h)
]

delete-middle :
    (e : ℕ × Shift) (kept rest : Assoc ℕ Shift)
    → IsMap (kept ++ (e ∷ rest))
    → delete e.0 (kept ++ (e ∷ rest)) ≡ kept ++ rest
unfolding delete
delete-middle e [] rest (fresh, h) = rw (==-refl e.0) (delete-fresh e.0 rest fresh)
delete-middle e (x ∷ kept) rest (fresh, h) = elim (Bool-cases (x.0 == e.0)) [
  | inl same ↦
      let xe : x.0 ≡ e.0 = (==_iff x.0 e.0).0 same in
      absurd (lookup-middle e kept rest (rw xe at fresh))
  | inr differs ↦ rw differs (ap (λ m. x ∷ m) (delete-middle e kept rest h))
]

append-snoc :
    (kept rest : Assoc ℕ Shift) (e : ℕ × Shift) → (kept ++ (e ∷ [])) ++ rest ≡ kept ++ (e ∷ rest)
append-snoc [] rest e = refl
append-snoc (x ∷ kept) rest e = ap (λ m. x ∷ m) (append-snoc kept rest e)

live-middle :
    (now lease : ℕ) (e : ℕ × Shift) (kept rest : Assoc ℕ Shift)
    → is_expired now lease e.1 ≡ true
    → live now lease (kept ++ (e ∷ rest)) ≡ live now lease (kept ++ rest)
unfolding live
live-middle now lease e [] rest h = rw h refl
live-middle now lease e (x ∷ kept) rest h = rw (live-middle now lease e kept rest h) refl

All-middle :
    (e : ℕ × Shift) (kept rest : Assoc ℕ Shift)
    → All IsSmall (kept ++ (e ∷ rest))
    → All IsSmall (kept ++ rest)
All-middle e [] rest (first, h) = h
All-middle e (x ∷ kept) rest (first, h) = (first, All-middle e kept rest h)

All-at : (e : ℕ × Shift) (kept rest : Assoc ℕ Shift) → All IsSmall (kept ++ (e ∷ rest)) → IsSmall e
All-at e [] rest (first, h) = first
All-at e (x ∷ kept) rest (first, h) = All-at e kept rest h

module _ (pip now lease : ℕ) (small : pip < word_size) (clock : now < exact_limit)
    (long : lease < exact_limit) where
  is_over-shift_text :
      (sh : Shift)
      → sh.last_work < exact_limit
      → is_over now lease (last_ms (shift_text sh)) ≡ is_expired now lease sh
  unfolding is_over
  is_over-shift_text sh at_small =
      let gap : now - sh.last_work < exact_limit = omega arith in
      rw (last_ms-shift_text sh at_small, is_over)
        (rw (double-eq lease long, double-eq now clock)
          (rw (double-eq (now - sh.last_work) gap) refl))

  abbrev loop : Assoc ℕ Shift → Assoc ℕ Shift → ℕ → Hash × Option ℕ
  loop rest m held = scan (decimal pip) now lease (hash_of rest) (hash_of m) held

  loop-expired :
      (e : ℕ × Shift) (rest m : Assoc ℕ Shift) (held : ℕ)
      → IsSmall e
      → is_expired now lease e.1 ≡ true
      → delete (decimal e.0) (hash_of m) ≡ hash_of (delete e.0 m)
      → loop (e ∷ rest) m held ≡ loop rest (delete e.0 m) held
  unfolding scan hash_of
  loop-expired e rest m held (_, _, _, at_small) over deleted =
      rw (is_over-shift_text e.1 at_small, scan) (rw over (rw deleted refl))

  loop-found :
      (e : ℕ × Shift) (rest m : Assoc ℕ Shift) (held : ℕ)
      → IsSmall e
      → is_expired now lease e.1 ≡ false
      → (e.0 == pip) ≡ true
      → loop (e ∷ rest) m held ≡ (hash_of m, none)
  unfolding scan hash_of
  loop-found e rest m held (pip_small, _, _, at_small) alive mine =
      rw (is_over-shift_text e.1 at_small, scan)
        (rw (alive, same_field e.0 pip pip_small small) (rw mine refl))

  loop-other :
      (e : ℕ × Shift) (rest m : Assoc ℕ Shift) (held : ℕ)
      → IsSmall e
      → is_expired now lease e.1 ≡ false
      → (e.0 == pip) ≡ false
      → loop (e ∷ rest) m held ≡ loop rest m (held + 1)
  unfolding scan hash_of
  loop-other e rest m held (pip_small, _, _, at_small) alive other =
      rw (is_over-shift_text e.1 at_small, scan)
        (rw (alive, same_field e.0 pip pip_small small) (rw other refl))

  -- The end of the loop: the live shifts among the rest are counted and the others deleted, or the
  -- pip is among the live ones and the hash has lost nothing but expired shifts.
  abbrev pub Scanned : Assoc ℕ Shift → Assoc ℕ Shift → ℕ → Hash × Option ℕ → Type 0
  Scanned kept rest held result =
      ((lookup pip (live now lease rest) ≡ none)
        × (result
            ≡ (hash_of (kept ++ live now lease rest), some (held + length (live now lease rest)))))
      ⊎ ((sh : Shift) × (lookup pip (live now lease rest) ≡ some sh)
          × ((m : Assoc ℕ Shift) × (result ≡ (hash_of m, none))
              × (live now lease m ≡ live now lease (kept ++ rest))))

  Scanned-end :
      (kept : Assoc ℕ Shift) (held : ℕ)
      → loop [] (kept ++ []) held ≡ (hash_of (kept ++ []), some (held + 0))
  unfolding scan hash_of
  Scanned-end kept held = let e : held + 0 ≡ held = omega arith in rw e refl

  Scanned-snoc :
      (kept rest : Assoc ℕ Shift) (e : ℕ × Shift) (held : ℕ) (result : Hash × Option ℕ)
      → is_expired now lease e.1 ≡ false
      → (e.0 == pip) ≡ false
      → Scanned (kept ++ (e ∷ [])) rest (held + 1) result
      → Scanned kept (e ∷ rest) held result
  unfolding live lookup
  Scanned-snoc kept rest e held result alive other (inl (gone, r)) =
      rw (alive, other)
        (inl (
          gone,
          (let sum : held + 1 + length (live now lease rest)
                  ≡ held + suc (length (live now lease rest)) =
                omega arith in
              r ∙ rw (append-snoc kept (live now lease rest) e, sum) refl),
        ))
  Scanned-snoc kept rest e held result alive other (inr (sh, found, (m, r, same))) =
      rw (alive, other)
        (inr (sh, found, (m, r, same ∙ ap (live now lease) (append-snoc kept rest e))))

  pub scan-Scanned :
      (kept rest : Assoc ℕ Shift) (held : ℕ)
      → IsMap (kept ++ rest)
      → All IsSmall (kept ++ rest)
      → Scanned kept rest held (loop rest (kept ++ rest) held)
  unfolding live lookup
  scan-Scanned kept [] held is_map smalls = inl (refl, Scanned-end kept held)
  scan-Scanned kept (e ∷ rest) held is_map smalls =
      let e_small = All-at e kept rest smalls in
      elim (Bool-cases (is_expired now lease e.1)) [
        | inl over ↦
            let deleted = delete-hash_of e.0 (kept ++ (e ∷ rest)) e_small.0 smalls in
            let shorter = delete-middle e kept rest is_map in
            rw (loop-expired e rest (kept ++ (e ∷ rest)) held e_small over deleted, over, shorter)
              (rw (live-middle now lease e kept rest over) (
                scan-Scanned kept rest held
                  (rw shorter at (delete-IsMap e.0 (kept ++ (e ∷ rest)) is_map))
                  (All-middle e kept rest smalls)))
        | inr alive ↦ elim (Bool-cases (e.0 == pip)) [
          | inl mine ↦
              rw (loop-found e rest (kept ++ (e ∷ rest)) held e_small alive mine, alive)
                (rw mine (inr (e.1, refl, (kept ++ (e ∷ rest), refl, refl))))
          | inr other ↦ rw (loop-other e rest (kept ++ (e ∷ rest)) held e_small alive other) (
              Scanned-snoc kept rest e held (loop rest (kept ++ (e ∷ rest)) (held + 1)) alive other
                (let joined = append-snoc kept rest e in
                  rw (← joined) (
                    scan-Scanned (kept ++ (e ∷ [])) rest (held + 1) (rw joined is_map)
                      (rw joined smalls))))
        ]
      ]
