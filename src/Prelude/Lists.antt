-- ===== src/Prelude/Lists.antt =====
-- Lists measured by native numbers, predicates on them, and membership without truncation.
use Prim.Native.Nat.{ℕ, suc, ◌+◌}
use mathlib.Core.Path.{◌≡◌, refl, ap}
use mathlib.Core.Logic.{◌⊎◌, inl, inr}
use mathlib.Core.Bool.{Bool, true, false, ◌&&◌, ◌||◌}
use mathlib.Core.List.{List, [], ◌∷◌, ◌++◌, Memᴰ}
use native.Mathlib.Omega.{arith}
use xds_controller.Prelude.Tests.{if◌then◌else◌, Bool-cases}

module _ {ℓ} {A : Type ℓ} where
  abbrev pub length : List A → ℕ
  length [] = 0
  length (x ∷ xs) = suc (length xs)

  pub length-append : (xs ys : List A) → length (xs ++ ys) ≡ length xs + length ys
  length-append [] ys = omega arith
  length-append (x ∷ xs) ys = omega (arith, length-append xs ys)

  abbrev pub is_empty : List A → Bool
  is_empty [] = true
  is_empty (x ∷ xs) = false

  abbrev pub All {κ} : (A → Type κ) → List A → Type κ
  All P [] = Unit
  All P (x ∷ xs) = P x × All P xs

  abbrev pub any : (A → Bool) → List A → Bool
  any p [] = false
  any p (x ∷ xs) = p x || any p xs

  abbrev pub keep : (A → Bool) → List A → List A
  keep p [] = []
  keep p (x ∷ xs) = if p x then x ∷ keep p xs else keep p xs

  pub mem-append_left : {a : A} (xs ys : List A) → Memᴰ a xs → Memᴰ a (xs ++ ys)
  mem-append_left [] ys m = elim m [ ]
  mem-append_left (x ∷ xs) ys (Memᴰ.head p) = Memᴰ.head p
  mem-append_left (x ∷ xs) ys (Memᴰ.tail m) = Memᴰ.tail (mem-append_left xs ys m)

  pub mem-append_right : {a : A} (xs ys : List A) → Memᴰ a ys → Memᴰ a (xs ++ ys)
  mem-append_right [] ys m = m
  mem-append_right (x ∷ xs) ys m = Memᴰ.tail (mem-append_right xs ys m)

  pub mem-append_cases : {a : A} (xs ys : List A) → Memᴰ a (xs ++ ys) → Memᴰ a xs ⊎ Memᴰ a ys
  mem-append_cases [] ys m = inr m
  mem-append_cases (x ∷ xs) ys (Memᴰ.head p) = inl (Memᴰ.head p)
  mem-append_cases (x ∷ xs) ys (Memᴰ.tail m) = elim (mem-append_cases xs ys m) [
    | inl l ↦ inl (Memᴰ.tail l)
    | inr r ↦ inr r
  ]

  pub any-append : (p : A → Bool) (xs ys : List A) → any p (xs ++ ys) ≡ (any p xs || any p ys)
  any-append p [] ys = refl
  any-append p (x ∷ xs) ys = ground (arith, any-append p xs ys)

  pub any_or : (p q : A → Bool) (xs : List A) → any (λ x. p x || q x) xs ≡ (any p xs || any q xs)
  any_or p q [] = refl
  any_or p q (x ∷ xs) = ground (arith, any_or p q xs)

  pub any_and : (p : A → Bool) (b : Bool) (xs : List A) → any (λ x. p x && b) xs ≡ (any p xs && b)
  any_and p b [] = refl
  any_and p b (x ∷ xs) = ground (arith, any_and p b xs)

  pub any-of_mem : (p : A → Bool) (a : A) (xs : List A) → Memᴰ a xs → p a ≡ true → any p xs ≡ true
  any-of_mem p a [] m h = elim m [ ]
  any-of_mem p a (x ∷ xs) (Memᴰ.head e) h = ground (arith, ap p e)
  any-of_mem p a (x ∷ xs) (Memᴰ.tail m) h = ground (arith, any-of_mem p a xs m h)

  pub mem_of-any :
      (p : A → Bool) (xs : List A) → any p xs ≡ true → (a : A) × Memᴰ a xs × (p a ≡ true)
  mem_of-any p [] h = cc
  mem_of-any p (x ∷ xs) h = elim (Bool-cases (p x)) [
    | inl e ↦ (x, Memᴰ.head refl, e)
    | inr e ↦ let (a, m, k) = mem_of-any p xs (ground arith) in (a, Memᴰ.tail m, k)
  ]

pub bool_ext : (a b : Bool) → (a ≡ true → b ≡ true) → (b ≡ true → a ≡ true) → a ≡ b
bool_ext a b f g = ground (arith, f, g)

-- Two nested searches find a pair in either order.
any-any-le {ℓ κ} :
    {A : Type ℓ} {B : Type κ} (p : A → B → Bool) (xs : List A) (ys : List B)
    → any (λ x. any (p x) ys) xs ≡ true
    → any (λ y. any (λ x. p x y) xs) ys ≡ true
any-any-le p xs ys h =
    let (a, ma, ka) = mem_of-any (λ x. any (p x) ys) xs h in
    let (b, mb, kb) = mem_of-any (p a) ys ka in
    any-of_mem (λ y. any (λ x. p x y) xs) b ys mb (any-of_mem (λ x. p x b) a xs ma kb)

pub any-any_comm {ℓ κ} :
    {A : Type ℓ} {B : Type κ} (p : A → B → Bool) (xs : List A) (ys : List B)
    → any (λ x. any (p x) ys) xs ≡ any (λ y. any (λ x. p x y) xs) ys
any-any_comm p xs ys =
    bool_ext (any (λ x. any (p x) ys) xs) (any (λ y. any (λ x. p x y) xs) ys) (any-any-le p xs ys)
      (any-any-le (λ y x. p x y) ys xs)
