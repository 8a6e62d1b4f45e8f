-- ===== src/Rds/Served.antt =====
-- controllers/rds/route_controller.go: the lists of routes behind the view of a configuration, and
-- where a route was before its reconcile.
use xds_controller.Prelude.{
  true, ◌||◌, none, some, Text, Map, lookup, ◌==◌, list_eq, nat_eq, List, [], ◌∷◌, ◌++◌, any-append,
  contains, All, ◌≡◌, inl, inr, refl, arith, Bool-cases, Option-cases, eq_of_beq, beq_of_eq, subst,
}
use xds_controller.Snapshot.{items}
use xds_controller.Registry.{named}
use xds_controller.Registry.View.{find, Distinct, named-eq-find}
use xds_controller.Rds.{RouteConfig}
use xds_controller.Rds.Placement.{
  Config, Placement, route_name, routes_on, node_set, add_node, merge_names, placement_in, unplaced,
  route_placement,
}
use xds_controller.Rds.Effects.{serves, AreDistinct}
use xds_controller.Rds.Coherence.{Coherent, Alone}

pub find-named :
    (name : Text) (rs : List RouteConfig) (a : RouteConfig)
    → find route_name name rs ≡ some a
    → route_name a ≡ name
find-named name [] a h = cc
find-named name (r ∷ rs) a h = elim (Bool-cases (route_name r == name)) [
  | inl e ↦
      let eq : r ≡ a = ground arith in
      subst (λ (q : RouteConfig). route_name q ≡ name) eq (eq_of_beq (route_name r) name e)
  | inr e ↦ find-named name rs a (ground arith)
]

All-map :
    {P Q : RouteConfig → Type 0} (rs : List RouteConfig)
    → ((a : RouteConfig) → P a → Q a)
    → All P rs
    → All Q rs
All-map [] f h = tt
All-map (r ∷ rs) f h = (f r h.0, All-map rs f h.1)

All-append :
    (P : RouteConfig → Type 0) (rs qs : List RouteConfig) → All P rs → All P qs → All P (rs ++ qs)
All-append P [] qs h k = k
All-append P (r ∷ rs) qs h k = (h.0, All-append P rs qs h.1 k)

-- Each route of a list with distinct names is what its name finds.
Distinct-found :
    (rs : List RouteConfig)
    → Distinct route_name rs
    → All (λ (q : RouteConfig). find route_name (route_name q) rs ≡ some q) rs
Distinct-found [] d = tt
Distinct-found (r ∷ rs) d = (
  ground (arith, beq_of_eq (route_name r) (route_name r) refl),
  All-map rs
      (λ q h. elim (Bool-cases (route_name r == route_name q)) [
        | inl e ↦
            let eq : route_name r ≡ route_name q = eq_of_beq (route_name r) (route_name q) e in
            let lost : find route_name (route_name q) rs ≡ none =
              subst (λ n. find route_name n rs ≡ none) eq d.0 in
            ground arith
        | inr e ↦ ground arith
      ])
      (Distinct-found rs d.1),
)

pub routes_on-Alone :
    (config : Config) (a : RouteConfig) (k : Text) (nodes : List Text)
    → AreDistinct config
    → Coherent (serves config)
    → serves config k (route_name a) ≡ some a
    → Alone a (routes_on nodes config)
unfolding routes_on
routes_on-Alone config a k [] d c h = tt
routes_on-Alone config a k (node ∷ nodes) d c h =
    let rs = items node config.route_configs in
    All-append (λ (q : RouteConfig). (route_name q == route_name a) ≡ true → q ≡ a) rs
      (routes_on nodes config)
      (All-map rs
        (λ q e same.
          let eq : route_name q ≡ route_name a = eq_of_beq (route_name q) (route_name a) same in
          c.uniform node k (route_name a) q a (subst (λ n. find route_name n rs ≡ some q) eq e) h)
        (Distinct-found rs (d node)))
      (routes_on-Alone config a k nodes d c h)

pub routes_on-named :
    (config : Config) (a : RouteConfig) (k n : Text) (nodes : List Text)
    → contains nodes k ≡ true
    → serves config k n ≡ some a
    → named route_name n (routes_on nodes config) ≡ true
unfolding routes_on contains
routes_on-named config a k n [] i h = cc
routes_on-named config a k n (node ∷ nodes) i h =
    let rs = items node config.route_configs in
    elim (Bool-cases (k == node)) [
      | inl e ↦
          let here : find route_name n rs ≡ some a =
            subst (λ j. serves config j n ≡ some a) (eq_of_beq k node e) h in
          ground (
            arith,
            any-append (λ r. route_name r == n) rs (routes_on nodes config),
            named-eq-find route_name n rs,
          )
      | inr e ↦ ground (
        arith,
        any-append (λ r. route_name r == n) rs (routes_on nodes config),
        routes_on-named config a k n nodes,
      )
    ]

pub contains-node_set :
    (m : Text) (nodes : List Text) → contains (node_set nodes) m ≡ contains nodes m
unfolding node_set contains
contains-node_set m [] = refl
contains-node_set m (node ∷ nodes) =
    ground (arith, contains-node_set m nodes, eq_of_beq m node, contains-node_set node nodes)

placement_in-nodes :
    (name m : Text) (entries : Map Text (List RouteConfig)) (p : Placement)
    → (contains p.nodes m || named route_name name (items m entries)) ≡ true
    → contains (placement_in name entries p).nodes m ≡ true
unfolding placement_in contains lookup
placement_in-nodes name m [] p h = ground arith
placement_in-nodes name m ((node, rs) ∷ rest) p h = elim (Option-cases (find route_name name rs)) [
  | inl e ↦
      rw (e, placement_in)
        (placement_in-nodes name m rest p (ground (arith, named-eq-find route_name name rs)))
  | inr (rc, e) ↦
      rw (e, placement_in)
        (placement_in-nodes name m rest
          (record {
            nodes = add_node node p.nodes;
            listeners = merge_names p.listeners rc.listener_names;
            generation = rc.route.generation;
          })
          (ground (arith, eq_of_beq node m, beq_of_eq m node)))
]

-- A node that serves the route is among those of its placement.
pub route_placement-nodes :
    (name m : Text) (config : Config) (a : RouteConfig)
    → serves config m name ≡ some a
    → contains (route_placement name config).nodes m ≡ true
unfolding route_placement contains
route_placement-nodes name m config a h =
    placement_in-nodes name m config.route_configs unplaced
      (ground (arith, named-eq-find route_name name (items m config.route_configs)))
