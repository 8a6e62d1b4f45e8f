-- ===== src/Registry/View.antt =====
-- controllers/cds and controllers/eds: the configuration maps seen as a function from a node and a
-- name to the resource, and the steps of Reconcile on it.
use xds_controller.Prelude.{
  true, false, if◌then◌else◌, Option, none, some, Text, Map, insert, lookup-insert, ◌==◌, list_eq,
  nat_eq, List, [], ◌∷◌, ◌++◌, ◌≡◌, inl, inr, refl, arith, Bool-cases, eq_of_beq, beq_of_eq, keep,
  not,
}
use xds_controller.Snapshot.{items}
use xds_controller.Registry.{Configs, named, delete_first, replace_first}

pub items-insert :
    {A : Type 0} (k j : Text) (v : List A) (m : Map Text (List A))
    → items j (insert k v m) ≡ (if k == j then v else items j m)
items-insert k j v m = ground (arith, lookup-insert k j v m)

module _ {A : Type 0} (name_of : A → Text) where
  -- the first resource of the name
  abbrev pub find : Text → List A → Option A
  find name [] = none
  find name (r ∷ rest) = if name_of r == name then some r else find name rest

  -- What a node has under a name.
  abbrev pub view : Configs name_of → Text → Text → Option A
  view configs node name = find name (items node configs)

  -- No two resources of the list share a name.
  abbrev pub Distinct : List A → Type 0
  Distinct [] = Unit
  Distinct (r ∷ rest) = (find (name_of r) rest ≡ none) × Distinct rest

  -- Each node has a name at most once, and no two nodes share a name.
  pub record IsUnique (configs : Configs name_of) : Type 0 where
    pub distinct : (node : Text) → Distinct (items node configs)
    pub one_node :
        (m n name : Text) (a b : A)
        → view configs m name ≡ some a
        → view configs n name ≡ some b
        → m ≡ n

  pub named-eq-find :
      (name : Text) (rs : List A)
      → named name_of name rs ≡ (elim (find name rs) [ none ↦ false | some _ ↦ true ])
  named-eq-find name [] = refl
  named-eq-find name (r ∷ rs) = ground (arith, named-eq-find name rs)

  pub find-append :
      (name : Text) (rs : List A) (r : A)
      → find name (rs ++ r ∷ []) ≡ (elim (find name rs) [
        | some a ↦ some a
        | none ↦ if name_of r == name then some r else none
      ])
  find-append name [] r = refl
  find-append name (q ∷ rs) r = ground (arith, find-append name rs r)

  pub find-delete_first :
      (name n : Text) (rs : List A)
      → Distinct rs
      → find n (delete_first name_of name rs) ≡ (if name == n then none else find n rs)
  unfolding delete_first
  find-delete_first name n [] d = ground arith
  find-delete_first name n (r ∷ rs) d = ground (
    arith,
    find-delete_first name n rs d.1,
    eq_of_beq (name_of r) name,
    eq_of_beq name n,
    beq_of_eq (name_of r) n,
  )

  pub find-replace_first :
      (n : Text) (r : A) (rs : List A)
      → find n (replace_first name_of r rs) ≡ (
          if name_of r == n
          then (elim (find n rs) [ none ↦ none | some _ ↦ some r ])
          else find n rs)
  unfolding replace_first
  find-replace_first n r [] = ground arith
  find-replace_first n r (q ∷ rs) = ground (
    arith,
    find-replace_first n r rs,
    eq_of_beq (name_of q) (name_of r),
    eq_of_beq (name_of r) n,
    beq_of_eq (name_of q) n,
    eq_of_beq (name_of q) n,
    beq_of_eq (name_of q) (name_of r),
  )

  pub Distinct-append :
      (rs : List A) (r : A) → Distinct rs → find (name_of r) rs ≡ none → Distinct (rs ++ r ∷ [])
  Distinct-append [] r d h = (refl, tt)
  Distinct-append (q ∷ rs) r d h = (
    ground (
      arith,
      find-append (name_of q) rs r,
      eq_of_beq (name_of r) (name_of q),
      beq_of_eq (name_of q) (name_of r),
      d.0,
    ),
    Distinct-append rs r d.1 (ground arith),
  )

  pub Distinct-delete_first :
      (name : Text) (rs : List A) → Distinct rs → Distinct (delete_first name_of name rs)
  unfolding delete_first
  Distinct-delete_first name [] d = tt
  Distinct-delete_first name (r ∷ rs) d = elim (Bool-cases (name_of r == name)) [
    | inl e ↦ rw e d.1
    | inr e ↦ rw e (
      ground (arith, find-delete_first name (name_of r) rs d.1, d.0),
      Distinct-delete_first name rs d.1,
    )
  ]

  pub Distinct-replace_first :
      (r : A) (rs : List A) → Distinct rs → Distinct (replace_first name_of r rs)
  unfolding replace_first
  Distinct-replace_first r [] d = tt
  Distinct-replace_first r (q ∷ rs) d = elim (Bool-cases (name_of q == name_of r)) [
    | inl e ↦ rw e (ground (arith, d.0, eq_of_beq (name_of q) (name_of r)), d.1)
    | inr e ↦
        rw e (
          ground (arith, find-replace_first (name_of q) r rs, d.0),
          Distinct-replace_first r rs d.1,
        )
  ]

  -- The resources of any other name.
  abbrev pub others : Text → List A → List A
  others name rs = keep (λ r. not (name_of r == name)) rs

  pub find-others :
      (name n : Text) (rs : List A)
      → find n (others name rs) ≡ (if name == n then none else find n rs)
  find-others name n [] = ground arith
  find-others name n (r ∷ rs) = ground (
    arith,
    find-others name n rs,
    eq_of_beq (name_of r) name,
    eq_of_beq name n,
    beq_of_eq (name_of r) n,
    eq_of_beq (name_of r) n,
    beq_of_eq (name_of r) name,
  )

  pub Distinct-others : (name : Text) (rs : List A) → Distinct rs → Distinct (others name rs)
  Distinct-others name [] d = tt
  Distinct-others name (r ∷ rs) d = elim (Bool-cases (name_of r == name)) [
    | inl e ↦ rw e (Distinct-others name rs d.1)
    | inr e ↦
        rw e (ground (arith, find-others name (name_of r) rs, d.0), Distinct-others name rs d.1)
  ]
