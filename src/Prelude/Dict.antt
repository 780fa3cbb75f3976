-- ===== src/Prelude/Dict.antt =====
-- Go's `map[K]V` as an association list with one entry for each key. A new key is put last.
use mathlib.Core.Path.{◌≡◌, refl}
use mathlib.Core.Option.{Option, none, some}
use mathlib.Core.List.{List, [], ◌∷◌}
use native.Mathlib.Omega.{arith}
use ioflux.Prelude.Tests.{Equality, ◌==◌, if◌then◌else◌}

module _ {ℓ κ} {K : Type ℓ} {V : Type κ} ⦃e : Equality K⦄ where
  -- v, ok := m[k]
  unfoldable pub lookup : K → List (K × V) → Option V
  lookup k [] = none
  lookup k ((j, v) ∷ m) = if j == k then some v else lookup k m

  -- m[k] = v
  unfoldable pub insert : K → V → List (K × V) → List (K × V)
  insert k v [] = (k, v) ∷ []
  insert k v ((j, w) ∷ m) = if j == k then (j, v) ∷ m else (j, w) ∷ insert k v m

  -- delete(m, k)
  unfoldable pub erase : K → List (K × V) → List (K × V)
  erase k [] = []
  erase k ((j, w) ∷ m) = let rest = erase k m in if j == k then rest else (j, w) ∷ rest

  pub lookup-insert :
      (key other : K) (val : V) (dict : List (K × V))
      → lookup other (insert key val dict) ≡ (if key == other then some val else lookup other dict)
  unfolding lookup insert
  lookup-insert key other val [] = refl
  lookup-insert key other val ((first, old) ∷ dict) = ground (
    arith,
    e.equal_iff key other,
    e.equal_iff first key,
    e.equal_iff first other,
    lookup-insert key other val dict,
  )

  pub lookup-erase :
      (key other : K) (dict : List (K × V))
      → lookup other (erase key dict) ≡ (if key == other then none else lookup other dict)
  unfolding lookup erase
  lookup-erase key other [] = ground arith
  lookup-erase key other ((first, old) ∷ dict) = ground (
    arith,
    e.equal_iff key other,
    e.equal_iff first key,
    e.equal_iff first other,
    lookup-erase key other dict,
  )
