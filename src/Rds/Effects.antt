-- ===== src/Rds/Effects.antt =====
-- controllers/rds/route_controller.go: what placing and removing do to the routes of a node, seen as
-- a function from a node and a name, and to the counter.
use xds_controller.Prelude.{
  true, false, ◌&&◌, if◌then◌else◌, Option, none, some, Text, ◌==◌, list_eq, nat_eq, List, [], ◌∷◌,
  ◌++◌, contains, ◌≡◌, inl, inr, refl, arith, Option-cases, eq_of_beq, beq_of_eq, ◌∙◌,
}
use xds_controller.Snapshot.{items}
use xds_controller.Registry.{keys, named, delete_first, replace_first}
use xds_controller.Registry.View.{
  find, Distinct, named-eq-find, items-insert, find-append, find-delete_first, find-replace_first,
  Distinct-append, Distinct-delete_first, Distinct-replace_first,
}
use xds_controller.Registry.Refines.{items_absent}
use xds_controller.Rds.{RouteConfig}
use xds_controller.Rds.Placement.{
  Config, route_name, remove_route_locked, remove_route_at, remove_route_from_nodes,
  remove_route_everywhere, update_route_config, update_route_configs,
}

-- The routes of the nodes.
abbrev pub Routes : Type 0
Routes = Text → Text → Option RouteConfig

abbrev pub serves : Config → Routes
serves config node name = find route_name name (items node config.route_configs)

-- No node has two routes of one name.
abbrev pub AreDistinct : Config → Type 0
AreDistinct config = (node : Text) → Distinct route_name (items node config.route_configs)

-- The configuration has distinct names and is the function.
pub record Is (config : Config) (f : Routes) : Type 0 where
  pub distinct : AreDistinct config
  pub view : (m n : Text) → serves config m n ≡ f m n

abbrev pub drop_at : List Text → Text → Routes → Routes
drop_at nodes name f m n = if contains nodes m && name == n then none else f m n

abbrev pub drop_all : Text → Routes → Routes
drop_all name f m n = if name == n then none else f m n

abbrev pub put_at : List Text → RouteConfig → Routes → Routes
put_at nodes rc f m n = if contains nodes m && route_name rc == n then some rc else f m n

remove_route_locked-Is :
    (node name : Text) (acc : List Text × Config) (f : Routes)
    → Is acc.1 f
    → Is (remove_route_locked node name acc).1 (drop_at (node ∷ []) name f)
unfolding remove_route_locked contains
remove_route_locked-Is node name (ls, config) f i =
    let rs = items node config.route_configs in
    elim (Option-cases (find route_name name rs)) [
      | inl e ↦
          rw (e, remove_route_locked)
            (record {
              distinct = i.distinct;
              view = λ m n. ground (arith, i.view m n, eq_of_beq m node, eq_of_beq name n);
            })
      | inr (rc, e) ↦
          rw (e, remove_route_locked)
            (record {
              distinct = λ m. ground (
                arith,
                items-insert node m (delete_first route_name name rs) config.route_configs,
                i.distinct m,
                Distinct-delete_first route_name name rs (i.distinct node),
              );
              view = λ m n. ground (
                arith,
                items-insert node m (delete_first route_name name rs) config.route_configs,
                i.view m n,
                i.view node n,
                find-delete_first route_name name n rs (i.distinct node),
                eq_of_beq m node,
                eq_of_beq node m,
                beq_of_eq node m,
              );
            })
    ]

pub Is-ext :
    (config : Config) (f g : Routes) → Is config f → ((m n : Text) → f m n ≡ g m n) → Is config g
Is-ext config f g i e = record { distinct = i.distinct; view = λ m n. i.view m n ∙ e m n }

remove_route_at-Is :
    (name : Text) (nodes : List Text) (acc : List Text × Config) (f : Routes)
    → Is acc.1 f
    → Is (remove_route_at name nodes acc).1 (drop_at nodes name f)
unfolding remove_route_at contains
remove_route_at-Is name [] acc f i = Is-ext acc.1 f (drop_at [] name f) i (λ m n. refl)
remove_route_at-Is name (node ∷ nodes) acc f i =
    let swept = remove_route_locked node name acc in
    let g = drop_at (node ∷ []) name f in
    Is-ext (remove_route_at name nodes swept).1 (drop_at nodes name g)
      (drop_at (node ∷ nodes) name f)
      (remove_route_at-Is name nodes swept g (remove_route_locked-Is node name acc f i))
      (λ m n. ground arith)

pub remove_route_from_nodes-Is :
    (name : Text) (nodes : List Text) (config : Config) (f : Routes)
    → Is config f
    → Is (remove_route_from_nodes name nodes config).1 (drop_at nodes name f)
unfolding remove_route_from_nodes
remove_route_from_nodes-Is name nodes config f i = remove_route_at-Is name nodes ([], config) f i

-- A node outside the keys has no routes.
absent :
    (config : Config) (m n : Text)
    → contains (keys config.route_configs) m ≡ false
    → serves config m n ≡ none
absent config m n h = rw (items_absent m config.route_configs h) refl

pub remove_route_everywhere-Is :
    (name : Text) (config : Config) (f : Routes)
    → Is config f
    → Is (remove_route_everywhere name config).1 (drop_all name f)
unfolding remove_route_everywhere
remove_route_everywhere-Is name config f i =
    let ks = keys config.route_configs in
    Is-ext (remove_route_at name ks ([], config)).1 (drop_at ks name f) (drop_all name f)
      (remove_route_at-Is name ks ([], config) f i)
      (λ m n. ground (arith, absent config m n, i.view m n))

update_route_config-Is :
    (node : Text) (rc : RouteConfig) (config : Config) (f : Routes)
    → Is config f
    → Is (update_route_config node rc config) (put_at (node ∷ []) rc f)
unfolding update_route_config contains
update_route_config-Is node rc config f i =
    let name = route_name rc in
    let rs = items node config.route_configs in
    elim (Option-cases (find route_name name rs)) [
      | inl e ↦
          let q : named route_name name rs ≡ false =
            ground (arith, named-eq-find route_name name rs) in
          rw (q, update_route_config)
            (record {
              distinct = λ m. ground (
                arith,
                items-insert node m (rs ++ rc ∷ []) config.route_configs,
                i.distinct m,
                Distinct-append route_name rs rc (i.distinct node),
              );
              view = λ m n. ground (
                arith,
                items-insert node m (rs ++ rc ∷ []) config.route_configs,
                i.view m n,
                find-append route_name n rs rc,
                eq_of_beq m node,
                eq_of_beq node m,
                beq_of_eq node m,
                eq_of_beq name n,
              );
            })
      | inr (old, e) ↦
          let q : named route_name name rs ≡ true =
            ground (arith, named-eq-find route_name name rs) in
          rw (q, update_route_config)
            (record {
              distinct = λ m. ground (
                arith,
                items-insert node m (replace_first route_name rc rs) config.route_configs,
                i.distinct m,
                Distinct-replace_first route_name rc rs (i.distinct node),
              );
              view = λ m n. ground (
                arith,
                items-insert node m (replace_first route_name rc rs) config.route_configs,
                i.view m n,
                find-replace_first route_name n rc rs,
                eq_of_beq m node,
                eq_of_beq node m,
                beq_of_eq node m,
                eq_of_beq name n,
              );
            })
    ]

pub update_route_configs-Is :
    (nodes : List Text) (rc : RouteConfig) (config : Config) (f : Routes)
    → Is config f
    → Is (update_route_configs nodes rc config) (put_at nodes rc f)
unfolding update_route_configs contains
update_route_configs-Is [] rc config f i = Is-ext config f (put_at [] rc f) i (λ m n. refl)
update_route_configs-Is (node ∷ nodes) rc config f i =
    let placed = update_route_config node rc config in
    let g = put_at (node ∷ []) rc f in
    Is-ext (update_route_configs nodes rc placed) (put_at nodes rc g) (put_at (node ∷ nodes) rc f)
      (update_route_configs-Is nodes rc placed g (update_route_config-Is node rc config f i))
      (λ m n. ground arith)
