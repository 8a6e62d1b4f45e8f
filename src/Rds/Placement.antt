-- ===== src/Rds/Placement.antt =====
-- controllers/rds/route_controller.go: where a route is served, and the calls that place it on a node
-- or remove it, each of which moves the counter of configuration changes. A set of nodes is the list
-- of its members.
use xds_controller.Prelude.{
  ℕ, ◌+◌, Bool, not, ◌&&◌, if◌then◌else◌, none, some, Text, Map, insert, ◌==◌, list_eq, nat_eq,
  List, [], ◌∷◌, ◌++◌, any, contains, length, sort_strings, keep,
}
use xds_controller.Rds.{RouteConfig}
use xds_controller.Snapshot.{items}
use xds_controller.Registry.{keys, named, delete_first, replace_first}
use xds_controller.Registry.View.{find}

-- xds.Config, as far as the controller of the routes writes it
pub record Config : Type 0 where
  pub route_configs : Map Text (List RouteConfig)
  pub counter : ℕ

abbrev pub route_name : RouteConfig → Text
route_name rc = rc.route.name

-- slices.Compact
unfoldable pub compact : List Text → List Text
compact [] = []
compact (a ∷ []) = a ∷ []
compact (a ∷ b ∷ rest) = let kept = compact (b ∷ rest) in if a == b then kept else a ∷ kept

-- mergeNames
unfoldable pub merge_names : List Text → List Text → List Text
unfolding compact
merge_names a b = compact (sort_strings (a ++ b))

-- set[node] = struct{}{}
abbrev pub add_node : Text → List Text → List Text
add_node node set = if contains set node then set else node ∷ set

unfoldable pub node_set : List Text → List Text
node_set [] = []
node_set (node ∷ nodes) = add_node node (node_set nodes)

-- placement
pub record Placement : Type 0 where
  pub nodes : List Text
  pub listeners : List Text
  pub generation : ℕ

abbrev pub unplaced : Placement
unplaced = record { nodes = []; listeners = []; generation = 0 }

-- placement.same
unfoldable pub same : Placement → List Text → List Text → ℕ → Bool
unfolding merge_names
same p nodes listeners generation =
    p.generation == generation
    && length p.nodes == length nodes
    && p.listeners == merge_names listeners []
    && not (any (λ n. not (contains p.nodes n)) nodes)

-- the loop of routePlacement
unfoldable pub placement_in : Text → Map Text (List RouteConfig) → Placement → Placement
unfolding merge_names
placement_in name [] p = p
placement_in name ((node, routes) ∷ rest) p = elim (find route_name name routes) [
  | none ↦ placement_in name rest p
  | some rc ↦ placement_in name rest (record {
    nodes = add_node node p.nodes;
    listeners = merge_names p.listeners rc.listener_names;
    generation = rc.route.generation;
  })
]

-- routePlacement
unfoldable pub route_placement : Text → Config → Placement
unfolding placement_in
route_placement name config = placement_in name config.route_configs unplaced

-- removeRouteLocked: the listeners so far, and the configuration
unfoldable pub remove_route_locked : Text → Text → List Text × Config → List Text × Config
unfolding merge_names delete_first
remove_route_locked node name (listeners, config) =
    let routes = items node config.route_configs in
    elim (find route_name name routes) [
      | none ↦ (listeners, config)
      | some rc ↦ (
        merge_names listeners rc.listener_names,
        record {
          route_configs = insert node (delete_first route_name name routes) config.route_configs;
          counter = config.counter + 1;
        },
      )
    ]

unfoldable pub remove_route_at : Text → List Text → List Text × Config → List Text × Config
unfolding remove_route_locked
remove_route_at name [] acc = acc
remove_route_at name (node ∷ nodes) acc =
    remove_route_at name nodes (remove_route_locked node name acc)

-- removeRouteFromNodes
unfoldable pub remove_route_from_nodes : Text → List Text → Config → List Text × Config
unfolding remove_route_at
remove_route_from_nodes name nodes config = remove_route_at name nodes ([], config)

-- removeRouteEverywhere
unfoldable pub remove_route_everywhere : Text → Config → List Text × Config
unfolding remove_route_at
remove_route_everywhere name config = remove_route_at name (keys config.route_configs) ([], config)

-- updateRouteConfig
unfoldable pub update_route_config : Text → RouteConfig → Config → Config
unfolding replace_first
update_route_config node rc config =
    let routes = items node config.route_configs in
    record {
      route_configs =
          insert node
            (if named route_name rc.route.name routes
              then replace_first route_name rc routes
              else routes ++ rc ∷ [])
            config.route_configs;
      counter = config.counter + 1;
    }

-- the loop of Reconcile that places the route
unfoldable pub update_route_configs : List Text → RouteConfig → Config → Config
unfolding update_route_config
update_route_configs [] rc config = config
update_route_configs (node ∷ nodes) rc config =
    update_route_configs nodes rc (update_route_config node rc config)

-- nodesToRemove
abbrev pub nodes_to_remove : Placement → List Text → List Text
nodes_to_remove previous current = keep (λ n. not (contains current n)) previous.nodes

-- the routes that findConflicts looks at
unfoldable pub routes_on : List Text → Config → List RouteConfig
routes_on [] config = []
routes_on (node ∷ nodes) config = items node config.route_configs ++ routes_on nodes config
