-- ===== src/Registry/Refines.antt =====
-- controllers/cds and controllers/eds: any sequence of reconciles, on the configuration maps and on
-- the function that they stand for.
use xds_controller.Prelude.{
  true, false, if◌then◌else◌, Option, none, some, Text, Map, insert, lookup, ◌==◌, list_eq, nat_eq,
  List, [], ◌∷◌, ◌++◌, ◌≡◌, ◌⊎◌, inl, inr, refl, arith, Bool-cases, Option-cases, eq_of_beq,
  beq_of_eq, fun_ext, sym, ap, ◌∙◌, contains, subst,
}
use xds_controller.Snapshot.{items}
use xds_controller.Registry.{
  keys, Configs, named, delete_first, replace_first, holder, add_resource, place, remove,
}
use xds_controller.Registry.View.{
  view, Distinct, IsUnique, named-eq-find, items-insert, find-append, find-delete_first,
  find-replace_first, Distinct-append, Distinct-delete_first, Distinct-replace_first,
}
use xds_controller.Registry.Removal.{remove_from_lem}

pub items_absent :
    {A : Type 0} (n : Text) (m : Map Text (List A)) → contains (keys m) n ≡ false → items n m ≡ []
unfolding lookup contains
items_absent n [] h = refl
items_absent n ((k, v) ∷ m) h = ground (arith, items_absent n m, eq_of_beq k n, beq_of_eq n k)

module _ {A : Type 0} (name_of : A → Text) where
  holder-some :
      (name : Text) (ks : List Text) (configs : Configs name_of) (k : Text)
      → holder name_of name ks configs ≡ some k
      → named name_of name (items k configs) ≡ true
  unfolding holder
  holder-some name [] configs k h = cc
  holder-some name (j ∷ ks) configs k h = elim (Bool-cases (named name_of name (items j configs))) [
    | inl e ↦ subst (λ i. named name_of name (items i configs) ≡ true) (ground arith) e
    | inr e ↦ holder-some name ks configs k (ground arith)
  ]

  holder-none :
      (name : Text) (ks : List Text) (configs : Configs name_of) (n : Text)
      → holder name_of name ks configs ≡ none
      → contains ks n ≡ true
      → named name_of name (items n configs) ≡ false
  unfolding holder contains
  holder-none name [] configs n h c = cc
  holder-none name (j ∷ ks) configs n h c = elim (Bool-cases (n == j)) [
    | inl e ↦
        subst (λ i. named name_of name (items i configs) ≡ false) (sym (eq_of_beq n j e))
          (ground arith)
    | inr e ↦ holder-none name ks configs n (ground arith) (ground arith)
  ]

  -- The abstract step: the resource is at its node and nowhere else.
  abbrev pub put : Text → A → (Text → Text → Option A) → Text → Text → Option A
  put node r f m n = if name_of r == n then (if node == m then some r else none) else f m n

  abbrev pub drop : Text → (Text → Text → Option A) → Text → Text → Option A
  drop name f m n = if name == n then none else f m n

  -- Where a unique configuration has the name of a resource: nowhere, or at one node.
  abbrev Located : A → Configs name_of → Type 0
  Located r configs =
      ((holder name_of (name_of r) (keys configs) configs ≡ none)
        × ((m : Text) → view name_of configs m (name_of r) ≡ none))
      ⊎ ((k : Text) × (a : A) × (holder name_of (name_of r) (keys configs) configs ≡ some k)
          × (view name_of configs k (name_of r) ≡ some a)
          × ((m : Text) → (k == m) ≡ false → view name_of configs m (name_of r) ≡ none))

  located : (r : A) (configs : Configs name_of) → IsUnique name_of configs → Located r configs
  located r configs u =
      let name = name_of r in
      elim (Option-cases (holder name_of name (keys configs) configs)) [
        | inl e ↦ inl (
          e,
          λ m. elim (Bool-cases (contains (keys configs) m)) [
            | inl c ↦ ground (
              arith,
              holder-none name (keys configs) configs m e c,
              named-eq-find name_of name (items m configs),
            )
            | inr c ↦ rw (items_absent m configs c) refl
          ],
        )
        | inr (k, e) ↦ elim (Option-cases (view name_of configs k name)) [
          | inl f ↦ ground (
            arith,
            holder-some name (keys configs) configs k e,
            named-eq-find name_of name (items k configs),
          )
          | inr (a, f) ↦ inr (
            k,
            a,
            e,
            f,
            λ m ne. elim (Option-cases (view name_of configs m name)) [
              | inl g ↦ g
              | inr (b, g) ↦ ground (arith, u.one_node k m name a b f g, beq_of_eq k m)
            ],
          )
        ]
      ]

  -- Placing a resource is the abstract step, and the configuration stays unique.
  pub view-place :
      (node : Text) (r : A) (configs : Configs name_of)
      → IsUnique name_of configs
      → (m n : Text)
      → view name_of (place name_of node r configs) m n ≡ put node r (view name_of configs) m n
  unfolding place add_resource
  view-place node r configs u m n = elim (located r configs u) [
    | inl (e, absent) ↦
        rw (e, place)
          (ground (
            arith,
            items-insert node m (items node configs ++ r ∷ []) configs,
            find-append name_of n (items node configs) r,
            absent m,
            absent node,
            eq_of_beq node m,
            eq_of_beq (name_of r) n,
          ))
    | inr (k, a, e, f, away) ↦
        let left = delete_first name_of (name_of r) (items k configs) in
        let mid = insert k left configs in
        elim (Bool-cases (k == node)) [
          | inl q ↦
              rw (e, q, place)
                (ground (
                  arith,
                  items-insert k m (replace_first name_of r (items k configs)) configs,
                  find-replace_first name_of n r (items k configs),
                  away m,
                  eq_of_beq k m,
                  eq_of_beq k node,
                  eq_of_beq (name_of r) n,
                  f,
                ))
          | inr q ↦
              rw (e, q, place)
                (ground (
                  arith,
                  items-insert node m (items node mid ++ r ∷ []) mid,
                  items-insert k m left configs,
                  items-insert k node left configs,
                  find-append name_of n (items node mid) r,
                  find-delete_first name_of (name_of r) n (items k configs) (u.distinct k),
                  away m,
                  away node,
                  eq_of_beq node m,
                  eq_of_beq k m,
                  eq_of_beq (name_of r) n,
                ))
        ]
  ]

  place-Distinct :
      (node : Text) (r : A) (configs : Configs name_of)
      → IsUnique name_of configs
      → (m : Text) → Distinct name_of (items m (place name_of node r configs))
  unfolding place add_resource
  place-Distinct node r configs u m = elim (located r configs u) [
    | inl (e, absent) ↦
        rw (e, place)
          (ground (
            arith,
            items-insert node m (items node configs ++ r ∷ []) configs,
            absent node,
            u.distinct m,
            Distinct-append name_of (items node configs) r (u.distinct node),
          ))
    | inr (k, a, e, f, away) ↦
        let left = delete_first name_of (name_of r) (items k configs) in
        let mid = insert k left configs in
        elim (Bool-cases (k == node)) [
          | inl q ↦
              rw (e, q, place)
                (ground (
                  arith,
                  items-insert k m (replace_first name_of r (items k configs)) configs,
                  u.distinct m,
                  Distinct-replace_first name_of r (items k configs) (u.distinct k),
                ))
          | inr q ↦
              rw (e, q, place)
                (ground (
                  arith,
                  items-insert node m (items node mid ++ r ∷ []) mid,
                  items-insert k m left configs,
                  items-insert k node left configs,
                  u.distinct m,
                  u.distinct node,
                  away node,
                  Distinct-delete_first name_of (name_of r) (items k configs) (u.distinct k),
                  Distinct-append name_of (items node configs) r (u.distinct node),
                ))
        ]
  ]

  pub place-IsUnique :
      (node : Text) (r : A) (configs : Configs name_of)
      → IsUnique name_of configs
      → IsUnique name_of (place name_of node r configs)
  place-IsUnique node r configs u = record {
    distinct = place-Distinct node r configs u;
    one_node = λ m n name a b h k. ground (
      arith,
      view-place node r configs u m name,
      view-place node r configs u n name,
      eq_of_beq node m,
      eq_of_beq node n,
      u.one_node m n name a b,
    );
  }

  -- Deleting returns, without a panic, and is the abstract step.
  pub remove_lem :
      (name : Text) (configs : Configs name_of)
      → IsUnique name_of configs
      → (out : Configs name_of) × (remove name_of name configs ≡ some out)
        × IsUnique name_of out
        × ((m n : Text) → view name_of out m n ≡ drop name (view name_of configs) m n)
  unfolding remove
  remove_lem name configs u =
      let (out, e, d, v) = remove_from_lem name_of name (keys configs) configs u.distinct in
      let same : (m n : Text) → view name_of out m n ≡ drop name (view name_of configs) m n =
        λ m n. ground (arith, v m n, items_absent m configs) in
      (
        out,
        e,
        record {
          distinct = d;
          one_node =
              λ m n key a b h k. ground (arith, same m key, same n key, u.one_node m n key a b);
        },
        same,
      )

  -- The reconciles of the objects, in any order: one that converts is placed, one that is gone is
  -- deleted, and one that does not convert changes nothing.
  pub data Event : Type 0 where
    placed : Text → A → Event
    deleted : Text → Event
    failed : Event

  unfoldable pub run : List Event → Configs name_of → Option (Configs name_of)
  run [] configs = some configs
  run (placed node r ∷ es) configs = run es (place name_of node r configs)
  run (deleted name ∷ es) configs = elim (remove name_of name configs) [
    | none ↦ none
    | some out ↦ run es out
  ]
  run (failed ∷ es) configs = run es configs

  -- The same events on a function from a node and a name.
  abbrev pub replay : List Event → (Text → Text → Option A) → Text → Text → Option A
  replay [] f = f
  replay (placed node r ∷ es) f = replay es (put node r f)
  replay (deleted name ∷ es) f = replay es (drop name f)
  replay (failed ∷ es) f = replay es f

  -- From a configuration in which each name is on one node at most, any sequence of reconciles runs
  -- without a panic, keeps it so, and gives what the events give on the function from a node and a
  -- name: each resource at the node of its last placement, and nowhere else, until it is deleted.
  pub run_refines :
      (es : List Event) (configs : Configs name_of)
      → IsUnique name_of configs
      → (out : Configs name_of) × (run es configs ≡ some out)
        × IsUnique name_of out
        × (view name_of out ≡ replay es (view name_of configs))
  unfolding run
  run_refines [] configs u = (configs, refl, u, refl)
  run_refines (failed ∷ es) configs u = run_refines es configs u
  run_refines (placed node r ∷ es) configs u =
      let (out, e, w, v) =
        run_refines es (place name_of node r configs) (place-IsUnique node r configs u) in
      let same : view name_of (place name_of node r configs) ≡ put node r (view name_of configs) =
        fun_ext (λ m. fun_ext (λ n. view-place node r configs u m n)) in
      (out, e, w, v ∙ ap (replay es) same)
  run_refines (deleted name ∷ es) configs u =
      let (mid, d, k, step) = remove_lem name configs u in
      let (out, e, w, v) = run_refines es mid k in
      let same : view name_of mid ≡ drop name (view name_of configs) =
        fun_ext (λ m. fun_ext (λ n. step m n)) in
      (out, rw (d, run) e, w, v ∙ ap (replay es) same)
