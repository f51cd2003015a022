-- ===== src/Common/Map.antt =====
-- Go maps as association lists. An iteration goes over the pairs in the list's order; a theorem
-- that must hold for every iteration order is stated for every list.
use mathlib.Core.Path.{◌≡◌, refl}
use mathlib.Core.Bool.{Bool, true, false}
use mathlib.Core.Option.{Option, none, some}
use mathlib.Core.List.{List, [], ◌∷◌}
use native.Mathlib.Omega.{arith}
use sukko.Common.Tests.{if◌then◌else◌}
use sukko.Common.Keys.{Equality, ◌==◌, eq_iff, eq_refl}

module _ {ℓ} {K : Type 0} {V : Type ℓ} ⦃e : Equality K⦄ where
  -- `v, ok := entries[key]`.
  unfoldable pub lookup : K → List (K × V) → Option V
  lookup key [] = none
  lookup key ((other, v) ∷ entries) = if other == key then some v else lookup key entries

  -- `entries[key] = v`.
  unfoldable pub insert : K → V → List (K × V) → List (K × V)
  insert key v [] = (key, v) ∷ []
  insert key v ((other, old) ∷ entries) =
      if other == key then (key, v) ∷ entries else (other, old) ∷ insert key v entries

  -- `delete(entries, key)`.
  unfoldable pub delete : K → List (K × V) → List (K × V)
  delete key [] = []
  delete key ((other, old) ∷ entries) =
      let rest = delete key entries in if other == key then rest else (other, old) ∷ rest

  pub lookup-insert :
      (key other : K) (v : V) (entries : List (K × V))
      → lookup other (insert key v entries)
        ≡ (if key == other then some v else lookup other entries)
  unfolding lookup insert
  lookup-insert key other v [] = refl
  lookup-insert key other v ((head, old) ∷ entries) = ground (
    arith,
    eq_iff key other,
    eq_iff head key,
    eq_iff head other,
    lookup-insert key other v entries,
  )

  pub lookup-delete :
      (key other : K) (entries : List (K × V))
      → lookup other (delete key entries) ≡ (if key == other then none else lookup other entries)
  unfolding lookup delete
  lookup-delete key other [] = ground arith
  lookup-delete key other ((head, old) ∷ entries) =
      ground (
        arith,
        eq_iff key other,
        eq_iff head key,
        eq_iff head other,
        lookup-delete key other entries,
      )

  pub lookup-insert_self :
      (key : K) (v : V) (entries : List (K × V)) → lookup key (insert key v entries) ≡ some v
  lookup-insert_self key v entries = ground (arith, lookup-insert key key v entries, eq_refl key)

  pub lookup-delete_self :
      (key : K) (entries : List (K × V)) → lookup key (delete key entries) ≡ none
  lookup-delete_self key entries = ground (arith, lookup-delete key key entries, eq_refl key)

  unfoldable pub has_key : K → List (K × V) → Bool
  unfolding lookup
  has_key key entries = elim (lookup key entries) [ none ↦ false | some v ↦ true ]
