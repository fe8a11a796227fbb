-- ===== src/Base/Dict.antt =====
-- Go maps as association lists.
use mathlib.Core.List.{List, [], ◌∷◌}
use mathlib.Core.Option.{Option, none, some}
use mathlib.Core.Path.{◌≡◌}
use native.Mathlib.Omega.{arith}
use yaghan.Base.Tests.{if◌then◌else◌, Comparable, ◌==◌}

module _ {ℓ κ} {K : Type ℓ} {V : Type κ} ⦃e : Comparable K⦄ where
  -- m[k]
  unfoldable pub lookup : K → List (K × V) → Option V
  lookup key [] = none
  lookup key ((own, value) ∷ rest) =
      let later = lookup key rest in if own == key then some value else later

  -- delete(m, k)
  unfoldable pub delete : K → List (K × V) → List (K × V)
  delete key [] = []
  delete key ((own, value) ∷ rest) =
      let others = delete key rest in if own == key then others else (own, value) ∷ others

  -- m[k] = v: at most one entry has the key afterwards.
  unfoldable pub insert : K → V → List (K × V) → List (K × V)
  unfolding delete
  insert key value m = (key, value) ∷ delete key m

  pub lookup-delete :
      (key other : K) (m : List (K × V))
      → lookup other (delete key m) ≡ (if key == other then none else lookup other m)
  unfolding lookup delete
  lookup-delete key other [] = ground arith
  lookup-delete key other ((own, value) ∷ m) = ground (
    arith,
    e.equal_iff key other,
    e.equal_iff own key,
    e.equal_iff own other,
    lookup-delete key other m,
  )

  pub lookup-insert :
      (key other : K) (value : V) (m : List (K × V))
      → lookup other (insert key value m) ≡ (if key == other then some value else lookup other m)
  unfolding lookup insert
  lookup-insert key other value m = ground (arith, lookup-delete key other m)
