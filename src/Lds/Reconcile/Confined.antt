-- ===== src/Lds/Reconcile/Confined.antt =====
-- controllers/lds/listener_controller.go: what Reconcile leaves on the nodes.
use xds_controller.Prelude.{
  ◌+◌, false, ◌&&◌, if◌then◌else◌, Option, none, some, Text, insert, ◌==◌, nat_eq, list_eq, List,
  [], ◌∷◌, ◌++◌, contains, keep, length, ◌≡◌, refl, arith, Bool-cases, inl, inr, eq_of_beq,
  beq_of_eq, ◌∙◌,
}
use xds_controller.Snapshot.{items}
use xds_controller.Registry.{named, replace_first}
use xds_controller.Registry.View.{
  find, Distinct, others, find-others, Distinct-others, items-insert, named-eq-find, find-append,
  find-replace_first, Distinct-append, Distinct-replace_first,
}
use xds_controller.Lds.{Listener}
use xds_controller.Lds.Reconcile.{
  ListenerState, listener_name, remove_listener_from_nodes, update_listener_config,
}

module _ {Filter : Type 0} where
  -- What a node serves under a name.
  abbrev pub serves : ListenerState Filter → Text → Text → Option (Listener Filter)
  serves s node name = find listener_name name (items node s.listener_configs)

  -- No node has two listeners of one name.
  abbrev pub AreDistinct : ListenerState Filter → Type 0
  AreDistinct s = (node : Text) → Distinct listener_name (items node s.listener_configs)

  -- The listeners of other names are as they were.
  pub record Confined (name : Text) (s t : ListenerState Filter) : Type 0 where
    pub others : (node n : Text) → (name == n) ≡ false → serves t node n ≡ serves s node n
    pub distinct : AreDistinct s → AreDistinct t

  Confined-trans :
      (name : Text) (s t u : ListenerState Filter)
      → Confined name s t
      → Confined name t u
      → Confined name s u
  Confined-trans name s t u a b = record {
    others = λ node n ne. b.others node n ne ∙ a.others node n ne;
    distinct = λ d. b.distinct (a.distinct d);
  }

  pub serves-remove :
      (name : Text) (nodes : List Text) (s : ListenerState Filter) (m n : Text)
      → serves (remove_listener_from_nodes name nodes s) m n
        ≡ (if contains nodes m && name == n then none else serves s m n)
  unfolding remove_listener_from_nodes contains
  serves-remove name [] s m n = refl
  serves-remove name (node ∷ nodes) s m n =
      let old = items node s.listener_configs in
      let kept = others listener_name name old in
      ground (
        arith,
        serves-remove name nodes
            (record s {
              listener_configs = insert node kept s.listener_configs;
              counter = s.counter + length (keep (λ (l : Listener Filter). l.name == name) old);
            })
            m n,
        items-insert node m kept s.listener_configs,
        find-others listener_name name n old,
        eq_of_beq m node,
        eq_of_beq node m,
        beq_of_eq node m,
      )

  remove-distinct :
      (name : Text) (nodes : List Text) (s : ListenerState Filter)
      → AreDistinct s
      → AreDistinct (remove_listener_from_nodes name nodes s)
  unfolding remove_listener_from_nodes
  remove-distinct name [] s d = d
  remove-distinct name (node ∷ nodes) s d =
      let old = items node s.listener_configs in
      let kept = others listener_name name old in
      remove-distinct name nodes _ (λ m. ground (
        arith,
        items-insert node m kept s.listener_configs,
        d m,
        Distinct-others listener_name name old (d node),
      ))

  pub remove-Confined :
      (name : Text) (nodes : List Text) (s : ListenerState Filter)
      → Confined name s (remove_listener_from_nodes name nodes s)
  remove-Confined name nodes s = record {
    others = λ node n ne. ground (arith, serves-remove name nodes s node n);
    distinct = λ d. remove-distinct name nodes s d;
  }

  pub serves-update :
      (node : Text) (lds : Listener Filter) (s : ListenerState Filter) (m n : Text)
      → serves (update_listener_config node lds s) m n
        ≡ (if node == m && lds.name == n then some lds else serves s m n)
  unfolding update_listener_config
  serves-update node lds s m n =
      let old = items node s.listener_configs in
      elim (Bool-cases (named listener_name lds.name old)) [
        | inl e ↦
            rw (e, update_listener_config)
              (ground (
                arith,
                items-insert node m (replace_first listener_name lds old) s.listener_configs,
                find-replace_first listener_name n lds old,
                named-eq-find listener_name lds.name old,
                eq_of_beq node m,
                eq_of_beq lds.name n,
              ))
        | inr e ↦
            rw (e, update_listener_config)
              (ground (
                arith,
                items-insert node m (old ++ lds ∷ []) s.listener_configs,
                find-append listener_name n old lds,
                named-eq-find listener_name lds.name old,
                eq_of_beq node m,
                eq_of_beq lds.name n,
              ))
      ]

  pub update-distinct :
      (node : Text) (lds : Listener Filter) (s : ListenerState Filter)
      → AreDistinct s
      → AreDistinct (update_listener_config node lds s)
  unfolding update_listener_config
  update-distinct node lds s d m =
      let old = items node s.listener_configs in
      elim (Bool-cases (named listener_name lds.name old)) [
        | inl e ↦
            rw (e, update_listener_config)
              (ground (
                arith,
                items-insert node m (replace_first listener_name lds old) s.listener_configs,
                d m,
                Distinct-replace_first listener_name lds old (d node),
              ))
        | inr e ↦
            let free : find listener_name lds.name old ≡ none =
              ground (arith, named-eq-find listener_name lds.name old) in
            rw (e, update_listener_config)
              (ground (
                arith,
                items-insert node m (old ++ lds ∷ []) s.listener_configs,
                d m,
                Distinct-append listener_name old lds (d node) free,
              ))
      ]
