-- ===== src/Common/Assoc.antt =====
-- Go's `map` as an association list with one entry for each key. A write replaces the entry in
-- place, or adds one at the end.
use mathlib.Core.Path.{◌≡◌, refl}
use mathlib.Core.Option.{Option, none, some}
use mathlib.Core.List.{List, [], ◌∷◌}
use native.Mathlib.Omega.{arith}
use pipsim.Common.Tests.{Eq, ◌==◌, ==_iff, if◌then◌else◌}

abbrev pub Assoc : Type 0 → Type 0 → Type 0
Assoc K V = List (K × V)

module _ {K V : Type 0} ⦃o : Eq K⦄ where
  -- `v, ok := entries[key]`
  unfoldable pub lookup : K → Assoc K V → Option V
  lookup key [] = none
  lookup key (entry ∷ entries) = if entry.0 == key then some entry.1 else lookup key entries

  -- `entries[key] = value`
  unfoldable pub insert : K → V → Assoc K V → Assoc K V
  insert key value [] = (key, value) ∷ []
  insert key value (entry ∷ entries) =
      if entry.0 == key then (entry.0, value) ∷ entries else entry ∷ insert key value entries

  -- `delete(entries, key)`
  unfoldable pub delete : K → Assoc K V → Assoc K V
  delete key [] = []
  delete key (entry ∷ entries) =
      let rest = delete key entries in if entry.0 == key then rest else entry ∷ rest

  pub lookup-insert :
      (written read : K) (value : V) (entries : Assoc K V)
      → lookup read (insert written value entries)
        ≡ (if written == read then some value else lookup read entries)
  unfolding insert lookup
  lookup-insert written read value [] = refl
  lookup-insert written read value (entry ∷ entries) = ground (
    arith,
    lookup-insert written read value entries,
    ==_iff entry.0 written,
    ==_iff entry.0 read,
    ==_iff written read,
  )

  pub lookup-delete :
      (deleted read : K) (entries : Assoc K V)
      → lookup read (delete deleted entries)
        ≡ (if deleted == read then none else lookup read entries)
  unfolding delete lookup
  lookup-delete deleted read [] = ground arith
  lookup-delete deleted read (entry ∷ entries) = ground (
    arith,
    lookup-delete deleted read entries,
    ==_iff entry.0 deleted,
    ==_iff entry.0 read,
    ==_iff deleted read,
  )

module _ {K V : Type 0} ⦃o : Eq K⦄ where
  -- One entry for each key, as in a Go map.
  abbrev pub IsMap : Assoc K V → Type 0
  IsMap [] = Unit
  IsMap (entry ∷ entries) = (lookup entry.0 entries ≡ none) × IsMap entries

  pub insert-IsMap :
      (key : K) (value : V) (entries : Assoc K V) → IsMap entries → IsMap (insert key value entries)
  unfolding insert lookup
  insert-IsMap key value [] h = (refl, tt)
  insert-IsMap key value (entry ∷ entries) h = ground (
    arith,
    ==_iff entry.0 key,
    ==_iff key entry.0,
    insert-IsMap key value entries h.1,
    lookup-insert key entry.0 value entries,
  )

  pub delete-IsMap : (key : K) (entries : Assoc K V) → IsMap entries → IsMap (delete key entries)
  unfolding delete lookup
  delete-IsMap key [] h = tt
  delete-IsMap key (entry ∷ entries) h =
      ground
        (arith, ==_iff key entry.0, delete-IsMap key entries h.1, lookup-delete key entry.0 entries)
