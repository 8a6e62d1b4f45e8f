-- ===== src/Registry/Removal.antt =====
-- controllers/cds and controllers/eds: the loop that deletes from the slice it ranges over.
use xds_controller.Prelude.{
  false, ◌&&◌, if◌then◌else◌, none, some, Text, insert, ◌==◌, list_eq, nat_eq, List, [], ◌∷◌, ◌≡◌,
  refl, arith, Bool-cases, inl, inr, eq_of_beq, beq_of_eq, contains, ◌∙◌,
}
use xds_controller.Snapshot.{items}
use xds_controller.Registry.{Configs, named, last, range_delete, delete_first, remove_from}
use xds_controller.Registry.View.{
  view, Distinct, named-eq-find, items-insert, find-delete_first, Distinct-delete_first,
}

module _ {A : Type 0} (name_of : A → Text) where
  last-unnamed :
      (name : Text) (q : A) (rest : List A)
      → named name_of name (q ∷ rest) ≡ false
      → (name_of (last q rest) == name) ≡ false
  unfolding last
  last-unnamed name q [] h = ground arith
  last-unnamed name q (r ∷ rest) h = last-unnamed name r rest (ground arith)

  range_delete_absent :
      (name : Text) (rs stale : List A)
      → named name_of name rs ≡ false
      → named name_of name stale ≡ false
      → range_delete name_of name rs stale ≡ some rs
  unfolding range_delete
  range_delete_absent name [] stale h k = ground arith
  range_delete_absent name (r ∷ []) stale h k = ground arith
  range_delete_absent name (r ∷ q ∷ rest) stale h k =
      ground (arith, range_delete_absent name (q ∷ rest) stale)

  delete_first_absent :
      (name : Text) (rs : List A)
      → named name_of name rs ≡ false
      → delete_first name_of name rs ≡ rs
  unfolding delete_first
  delete_first_absent name [] h = refl
  delete_first_absent name (r ∷ rs) h = ground (arith, delete_first_absent name rs)

  -- Where the names of a slice differ, the loop does not panic, and it deletes the one match.
  range_delete-eq-delete_first :
      (name : Text) (rs stale : List A)
      → Distinct name_of rs
      → named name_of name stale ≡ false
      → range_delete name_of name rs stale ≡ some (delete_first name_of name rs)
  unfolding range_delete delete_first
  range_delete-eq-delete_first name [] stale d k = ground arith
  range_delete-eq-delete_first name (r ∷ []) stale d k = ground arith
  range_delete-eq-delete_first name (r ∷ q ∷ rest) stale d k =
      elim (Bool-cases (name_of r == name)) [
        | inr e ↦ ground (arith, range_delete-eq-delete_first name (q ∷ rest) stale d.1 k)
        | inl e ↦
            let unnamed : named name_of name (q ∷ rest) ≡ false =
              ground
                (arith, named-eq-find name_of name (q ∷ rest), d.0, eq_of_beq (name_of r) name) in
            ground (
              arith,
              range_delete_absent name rest (last q rest ∷ stale),
              unnamed,
              last-unnamed name q rest unnamed,
            )
      ]

  abbrev AllDistinct : Configs name_of → Type 0
  AllDistinct configs = (node : Text) → Distinct name_of (items node configs)

  -- The loop over the nodes: what it returns, and what the nodes then have.
  pub remove_from_lem :
      (name : Text) (ks : List Text) (configs : Configs name_of)
      → AllDistinct configs
      → (out : Configs name_of) × (remove_from name_of name ks configs ≡ some out)
        × AllDistinct out
        × ((m n : Text)
            → view name_of out m n
              ≡ (if name == n && contains ks m then none else view name_of configs m n))
  unfolding remove_from
  remove_from_lem name [] configs d = (configs, refl, d, λ m n. unfold contains in ground arith)
  remove_from_lem name (k ∷ ks) configs d =
      let kept = delete_first name_of name (items k configs) in
      let next = insert k kept configs in
      let (out, e, d', v) = remove_from_lem name ks next (λ node. ground (
        arith,
        items-insert k node kept configs,
        d node,
        Distinct-delete_first name_of name (items k configs) (d k),
      )) in
      (
        out,
        rw (range_delete-eq-delete_first name (items k configs) [] (d k) refl, remove_from) e,
        d',
        λ m n.
            v m n
            ∙ unfold contains in
              ground (
                arith,
                items-insert k m kept configs,
                eq_of_beq k m,
                beq_of_eq k m,
                eq_of_beq m k,
                beq_of_eq m k,
                find-delete_first name_of name n (items k configs) (d k),
              ),
      )
