-- ===== src/Prelude/Maps.antt =====
-- Go's maps as association lists. The order of the entries is the order in which a `range` loop
-- happens to visit them; a theorem about all such lists holds of every order.
use mathlib.Core.Path.{◌≡◌, refl}
use mathlib.Core.Bool.{false}
use mathlib.Core.Option.{Option, none, some}
use mathlib.Core.List.{List, [], ◌∷◌}
use native.Mathlib.Omega.{arith}
use xds_controller.Prelude.Tests.{if◌then◌else◌}
use xds_controller.Prelude.Lists.{is_empty}
use xds_controller.Prelude.Eq.{EqOps, ◌==◌}

abbrev pub Map {ℓ κ} : Type ℓ → Type κ → Type (ℓ ⊔ κ)
Map K V = List (K × V)

module _ {ℓ κ} {K : Type ℓ} {V : Type κ} ⦃e : EqOps K⦄ where
  -- v, ok := m[k]
  unfoldable pub lookup : K → Map K V → Option V
  lookup key [] = none
  lookup key ((k, v) ∷ rest) = if k == key then some v else lookup key rest

  -- m[k] = v
  unfoldable pub insert : K → V → Map K V → Map K V
  insert key v [] = (key, v) ∷ []
  insert key v ((k, old) ∷ rest) = if k == key then (k, v) ∷ rest else (k, old) ∷ insert key v rest

  -- delete(m, k)
  unfoldable pub delete : K → Map K V → Map K V
  delete k [] = []
  delete k ((j, w) ∷ m) = let rest = delete k m in if j == k then rest else (j, w) ∷ rest

  pub lookup-insert :
      (key other : K) (v : V) (m : Map K V)
      → lookup other (insert key v m) ≡ (if key == other then some v else lookup other m)
  unfolding lookup insert
  lookup-insert key other v [] = refl
  lookup-insert key other v ((k, old) ∷ rest) = ground (
    arith,
    e.beq_iff key other,
    e.beq_iff k key,
    e.beq_iff k other,
    lookup-insert key other v rest,
  )

  pub lookup-delete :
      (k j : K) (m : Map K V) → lookup j (delete k m) ≡ (if k == j then none else lookup j m)
  unfolding lookup delete
  lookup-delete k j [] = ground arith
  lookup-delete k j ((i, w) ∷ m) =
      ground (arith, e.beq_iff k j, e.beq_iff i k, e.beq_iff i j, lookup-delete k j m)

  pub is_empty-of_lookup : (k : K) (m : Map K V) {v : V} → lookup k m ≡ some v → is_empty m ≡ false
  unfolding lookup
  is_empty-of_lookup k [] h = cc
  is_empty-of_lookup k (p ∷ m) h = refl
