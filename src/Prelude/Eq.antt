-- ===== src/Prelude/Eq.antt =====
-- Go's `==` on comparable types, as an instance argument, and `slices.Contains`.
use Prim.Native.Nat.{ℕ}
use mathlib.Core.Path.{◌≡◌, refl}
use mathlib.Core.Logic.{◌≢◌, ◌↔◌, inl, inr}
use mathlib.Core.Bool.{Bool, true, false, ◌&&◌, ◌||◌}
use mathlib.Core.List.{List, [], ◌∷◌, ◌++◌, Memᴰ}
use native.Mathlib.Omega.{arith}
use xds_controller.Prelude.Tests.{nat_beq, nat_beq_iff, Bool-cases}

pub record EqOps {ℓ} (A : Type ℓ) : Type ℓ where
  pub beq : A → A → Bool
  pub beq_iff : (x y : A) → (beq x y ≡ true) ↔ (x ≡ y)

infix 50 ◌==◌
abbrev pub ◌==◌ {ℓ} : {A : Type ℓ} ⦃e : EqOps A⦄ → A → A → Bool
◌==◌ ⦃e⦄ = e.beq

instance abbrev pub nat_eq : EqOps ℕ
nat_eq = record { beq = nat_beq; beq_iff = nat_beq_iff }

module _ {ℓ} {A : Type ℓ} ⦃e : EqOps A⦄ where
  pub eq_of_beq : (a b : A) → (a == b) ≡ true → a ≡ b
  eq_of_beq a b = (e.beq_iff a b).0

  pub beq_of_eq : (a b : A) → a ≡ b → (a == b) ≡ true
  beq_of_eq a b = (e.beq_iff a b).1

  pub ne_of_beq : (a b : A) → (a == b) ≡ false → a ≢ b
  ne_of_beq a b h p = cc (beq_of_eq a b p)

  pub beq_of_ne : (a b : A) → a ≢ b → (a == b) ≡ false
  beq_of_ne a b h = elim (Bool-cases (a == b)) [ inl p ↦ absurd (h (eq_of_beq a b p)) | inr p ↦ p ]

  unfoldable pub list_beq : List A → List A → Bool
  list_beq [] [] = true
  list_beq [] (y ∷ ys) = false
  list_beq (x ∷ xs) [] = false
  list_beq (x ∷ xs) (y ∷ ys) = x == y && list_beq xs ys

  list_beq_eq : (xs ys : List A) → list_beq xs ys ≡ true → xs ≡ ys
  unfolding list_beq
  list_beq_eq [] [] h = refl
  list_beq_eq [] (y ∷ ys) h = cc
  list_beq_eq (x ∷ xs) [] h = cc
  list_beq_eq (x ∷ xs) (y ∷ ys) h = ground (arith, eq_of_beq x y, list_beq_eq xs ys)

  list_beq_refl : (xs : List A) → list_beq xs xs ≡ true
  unfolding list_beq
  list_beq_refl [] = refl
  list_beq_refl (x ∷ xs) = ground (arith, beq_of_eq x x refl, list_beq_refl xs)

  pub list_beq_iff : (xs ys : List A) → (list_beq xs ys ≡ true) ↔ (xs ≡ ys)
  list_beq_iff xs ys = (list_beq_eq xs ys, λ p. rw p (list_beq_refl ys))

  -- slices.Contains
  unfoldable pub contains : List A → A → Bool
  contains [] v = false
  contains (w ∷ ws) v = v == w || contains ws v

  pub mem_of-contains : (a : A) (xs : List A) → contains xs a ≡ true → Memᴰ a xs
  unfolding contains
  mem_of-contains a [] h = cc
  mem_of-contains a (x ∷ xs) h = elim (Bool-cases (a == x)) [
    | inl p ↦ Memᴰ.head (eq_of_beq a x p)
    | inr p ↦ Memᴰ.tail (mem_of-contains a xs (ground arith))
  ]

  pub contains-of_mem : (a : A) (xs : List A) → Memᴰ a xs → contains xs a ≡ true
  unfolding contains
  contains-of_mem a [] m = elim m [ ]
  contains-of_mem a (x ∷ xs) (Memᴰ.head p) = ground (arith, beq_of_eq a x p)
  contains-of_mem a (x ∷ xs) (Memᴰ.tail m) = ground (arith, contains-of_mem a xs m)

  -- The test is the membership.
  pub mem-eq-contains : (a : A) (xs : List A) → (contains xs a ≡ true) ↔ Memᴰ a xs
  mem-eq-contains a xs = (mem_of-contains a xs, contains-of_mem a xs)

  pub contains-append :
      (a : A) (xs ys : List A) → contains (xs ++ ys) a ≡ (contains xs a || contains ys a)
  unfolding contains
  contains-append a [] ys = refl
  contains-append a (x ∷ xs) ys = ground (arith, contains-append a xs ys)

instance abbrev pub list_eq {ℓ} : {A : Type ℓ} ⦃e : EqOps A⦄ → EqOps (List A)
list_eq = record { beq = list_beq; beq_iff = list_beq_iff }

abbrev pub pair_beq {ℓ κ} :
    {A : Type ℓ} {B : Type κ} ⦃e : EqOps A⦄ ⦃f : EqOps B⦄ → A × B → A × B → Bool
pair_beq p q = p.0 == q.0 && p.1 == q.1

pub pair_beq_iff {ℓ κ} :
    {A : Type ℓ} {B : Type κ} ⦃e : EqOps A⦄ ⦃f : EqOps B⦄ (p q : A × B)
    → (pair_beq p q ≡ true) ↔ (p ≡ q)
pair_beq_iff ⦃e⦄ ⦃f⦄ (a, b) (c, d) = (
  λ h. ground (arith, e.beq_iff a c, f.beq_iff b d),
  λ h. ground (arith, e.beq_iff a c, f.beq_iff b d),
)

instance abbrev pub pair_eq {ℓ κ} :
    {A : Type ℓ} {B : Type κ} ⦃e : EqOps A⦄ ⦃f : EqOps B⦄ → EqOps (A × B)
pair_eq = record { beq = pair_beq; beq_iff = pair_beq_iff }

abbrev pub bool_beq : Bool → Bool → Bool
bool_beq true b = b
bool_beq false true = false
bool_beq false false = true

pub bool_beq_iff : (a b : Bool) → (bool_beq a b ≡ true) ↔ (a ≡ b)
bool_beq_iff true b = (λ h. ground arith, λ h. ground arith)
bool_beq_iff false b = (λ h. ground arith, λ h. ground arith)

instance abbrev pub bool_eq : EqOps Bool
bool_eq = record { beq = bool_beq; beq_iff = bool_beq_iff }
