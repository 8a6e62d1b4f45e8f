-- ===== src/Prelude/Searches.antt =====
-- Searches for an element of one list in another, in either order.
use mathlib.Core.Path.{◌≡◌, refl, ap}
use mathlib.Core.Bool.{Bool, true, ◌&&◌}
use mathlib.Core.List.{List, [], ◌∷◌, Memᴰ}
use native.Mathlib.Omega.{arith}
use mathlib.Core.Logic.{◌↔◌, inl, inr}
use xds_controller.Prelude.Tests.{Bool-cases}
use xds_controller.Prelude.Eq.{EqOps, ◌==◌, eq_of_beq, contains, contains-of_mem, mem_of-contains}
use xds_controller.Prelude.Lists.{any, keep, any-of_mem, mem_of-any, bool_ext}

module _ {ℓ} {A : Type ℓ} ⦃e : EqOps A⦄ where
  pub any-contains_iff :
      (xs ys : List A) → (any (contains ys) xs ≡ true) ↔ ((a : A) × Memᴰ a xs × Memᴰ a ys)
  any-contains_iff xs ys = (
    λ h. let (a, m, k) = mem_of-any (contains ys) xs h in (a, m, mem_of-contains a ys k),
    λ (a, m, k). any-of_mem (contains ys) a xs m (contains-of_mem a ys k),
  )

  any-contains-le : (xs ys : List A) → any (contains ys) xs ≡ true → any (contains xs) ys ≡ true
  any-contains-le xs ys h =
      let (a, m, k) = (any-contains_iff xs ys).0 h in (any-contains_iff ys xs).1 (a, k, m)

  pub any-contains_comm : (xs ys : List A) → any (contains ys) xs ≡ any (contains xs) ys
  any-contains_comm xs ys =
      bool_ext (any (contains ys) xs) (any (contains xs) ys) (any-contains-le xs ys)
        (any-contains-le ys xs)

  pub contains-keep :
      (p : A → Bool) (a : A) (xs : List A) → contains (keep p xs) a ≡ (contains xs a && p a)
  unfolding contains
  contains-keep p a [] = refl
  contains-keep p a (x ∷ xs) = elim (Bool-cases (a == x)) [
    | inl e ↦ let same : p a ≡ p x = ap p (eq_of_beq a x e) in ground (arith, contains-keep p a xs)
    | inr e ↦ ground (arith, contains-keep p a xs)
  ]
