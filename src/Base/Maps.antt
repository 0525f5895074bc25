-- ===== src/Base/Maps.antt =====
-- Go's `map[string]V` as an association list. The program reads a map by key, or removes entries
-- while it ranges over it; the order of a range is not modelled.
use Prim.Native.String.{String}
use mathlib.Core.Path.{◌≡◌, refl}
use mathlib.Core.Bool.{Bool}
use mathlib.Core.List.{List, [], ◌∷◌}
use mathlib.Core.Option.{Option, none, some}
use mathlib.Core.Logic.{◌⊎◌, inl, inr}
use text.Mathlib.TextPositions.{eq_refl}
use native.Mathlib.Omega.{arith}
use text.Mathlib.Text.{◌==◌}
use text.Mathlib.TextEquality.{eq_iff}
use google_photos_picker.Base.Tests.{if◌then◌else◌, Bool-cases}

abbrev pub StringMap {ℓ} : Type ℓ → Type ℓ
StringMap V = List (String × V)

module _ {ℓ} {V : Type ℓ} where
  -- `v, ok := entries[key]`
  unfoldable pub lookup : String → StringMap V → Option V
  lookup key [] = none
  lookup key ((j, v) ∷ entries) = if j == key then some v else lookup key entries

  -- `entries[key] = v`
  unfoldable pub insert : String → V → StringMap V → StringMap V
  insert key v [] = (key, v) ∷ []
  insert key v ((j, old) ∷ entries) =
      if j == key then (key, v) ∷ entries else (j, old) ∷ insert key v entries

  -- `delete(entries, key)`
  unfoldable pub erase : String → StringMap V → StringMap V
  erase key [] = []
  erase key ((j, v) ∷ entries) =
      let rest = erase key entries in if j == key then rest else (j, v) ∷ rest

  -- Keeps the entries whose value passes.
  unfoldable pub retain : (V → Bool) → StringMap V → StringMap V
  retain p [] = []
  retain p ((j, v) ∷ entries) = let rest = retain p entries in if p v then (j, v) ∷ rest else rest

  pub lookup-insert :
      (key j : String) (v : V) (entries : StringMap V)
      → lookup j (insert key v entries) ≡ (if key == j then some v else lookup j entries)
  unfolding lookup insert
  lookup-insert key j v [] = refl
  lookup-insert key j v ((i, old) ∷ entries) =
      ground (arith, eq_iff key j, eq_iff i key, eq_iff i j, lookup-insert key j v entries)

  pub lookup-erase :
      (key j : String) (entries : StringMap V)
      → lookup j (erase key entries) ≡ (if key == j then none else lookup j entries)
  unfolding lookup erase
  lookup-erase key j [] = ground arith
  lookup-erase key j ((i, old) ∷ entries) =
      ground (arith, eq_iff key j, eq_iff i key, eq_iff i j, lookup-erase key j entries)

-- No key is listed twice.
module _ {ℓ} {V : Type ℓ} where
  abbrev pub HasUniqueKeys : StringMap V → Type ℓ
  HasUniqueKeys [] = Unit
  HasUniqueKeys ((key, _) ∷ entries) = (lookup key entries ≡ none) × HasUniqueKeys entries

  -- What a lookup in the retained entries finds of an entry.
  abbrev pub keep : (V → Bool) → Option V → Option V
  keep p none = none
  keep p (some v) = if p v then some v else none

  pub lookup-retain :
      (key : String) (p : V → Bool) (entries : StringMap V)
      → HasUniqueKeys entries
      → lookup key (retain p entries) ≡ keep p (lookup key entries)
  unfolding lookup retain
  lookup-retain key p [] h = refl
  lookup-retain key p ((j, v) ∷ entries) h =
      ground (arith, eq_iff j key, lookup-retain key p entries h.1)

  pub insert-HasUniqueKeys :
      (key : String) (v : V) (entries : StringMap V)
      → HasUniqueKeys entries
      → HasUniqueKeys (insert key v entries)
  unfolding insert
  insert-HasUniqueKeys key v [] h = (unfold lookup in refl, tt)
  insert-HasUniqueKeys key v ((j, old) ∷ entries) h = ground (
    arith,
    eq_iff j key,
    eq_iff key j,
    insert-HasUniqueKeys key v entries h.1,
    lookup-insert key j v entries,
  )

  pub erase-HasUniqueKeys :
      (key : String) (entries : StringMap V)
      → HasUniqueKeys entries
      → HasUniqueKeys (erase key entries)
  unfolding erase
  erase-HasUniqueKeys key [] h = tt
  erase-HasUniqueKeys key ((j, old) ∷ entries) h =
      ground (arith, erase-HasUniqueKeys key entries h.1, lookup-erase key j entries, eq_iff key j)

  pub retain-HasUniqueKeys :
      (p : V → Bool) (entries : StringMap V)
      → HasUniqueKeys entries
      → HasUniqueKeys (retain p entries)
  unfolding retain
  retain-HasUniqueKeys p [] h = tt
  retain-HasUniqueKeys p ((j, old) ∷ entries) h =
      ground (arith, retain-HasUniqueKeys p entries h.1, lookup-retain j p entries h.1)

module _ {ℓ} {V : Type ℓ} (key i : String) (v old : V) (entries : StringMap V) where
  -- What is found in a map stands in front, or in the rest.
  pub lookup-cons :
      lookup key ((i, v) ∷ entries) ≡ some old
      → ((i ≡ key) × (v ≡ old)) ⊎ (lookup key entries ≡ some old)
  unfolding lookup
  lookup-cons h = elim (Bool-cases (i == key)) [
    | inl same ↦ inl ((eq_iff i key).0 same, ground arith)
    | inr differ ↦ inr (rw differ at h)
  ]

  pub lookup-tail :
      HasUniqueKeys ((i, v) ∷ entries)
      → lookup key entries ≡ some old
      → lookup key ((i, v) ∷ entries) ≡ some old
  unfolding lookup
  lookup-tail u h = ground (arith, eq_iff i key)

module _ {ℓ} {V : Type ℓ} (key : String) (v : V) (entries : StringMap V) where
  pub lookup-head : lookup key ((key, v) ∷ entries) ≡ some v
  unfolding lookup
  lookup-head = rw (eq_refl, lookup)
