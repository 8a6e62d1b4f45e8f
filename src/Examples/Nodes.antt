-- ===== src/Examples/Nodes.antt =====
-- pkg/xds/xds.go at a concrete configuration of one node.
use xds_controller.Prelude.{
  ℕ, true, if◌then◌else◌, Option, none, some, Text, Map, lookup, ◌==◌, List, [], ◌∷◌, codes,
  contains, ◌≡◌, ◌↔◌, Memᴰ, list_eq, nat_eq,
}
use xds_controller.Util.{get_node_id, pair}
use xds_controller.Examples.Ids.{plain, edge, main_cluster}
use xds_controller.Snapshot.{
  Config, XListener, Resource, ResourceType, listener_resource, route_resource, listener_type,
  route_type, endpoint_type, type_eq, items, resource_name, all_resources,
}
use xds_controller.Snapshot.Memo.{PassMemo, IsFresh}
use xds_controller.Snapshot.Nodes.{at, expected, all_resources_exact}
use xds_controller.Snapshot.Routes.{Hcm, hcm_names, route_references, prune_unreferenced_routes}
use xds_controller.Snapshot.Pruning.{listener_names, pruned_exact}

abbrev id : Text
id = get_node_id plain (pair main_cluster edge)

abbrev listener : XListener
listener = record {
  name = codes "l";
  filter_chains = (record { typed_config = some 1 } ∷ []) ∷ [];
  default_filter_chain = none;
}

abbrev config : Config
config = record {
  secret_configs = (id, codes "cert" ∷ []) ∷ [];
  listener_configs = (id, listener ∷ []) ∷ [];
  cluster_configs =
      (id, record { name = codes "c"; is_eds = true; eds_service_name = [] } ∷ []) ∷ [];
  route_configs = (id, codes "r1" ∷ codes "r2" ∷ []) ∷ [];
  endpoint_configs = (id, codes "c" ∷ codes "unused" ∷ []) ∷ [];
  node_id = edge;
  cluster = main_cluster;
}

all_resources_exact_example :
    at id endpoint_type (all_resources plain config) ≡ expected plain config id endpoint_type
all_resources_exact_example = all_resources_exact plain config id endpoint_type

abbrev hcms : ℕ → Option Hcm
hcms _ = some (record { rds_route_config_name = codes "r1"; scoped_routes = [] })

abbrev empty_memo : PassMemo (List Text)
empty_memo = record { cur = []; prev = [] }

empty_memo-IsFresh : IsFresh (λ tc. hcm_names (hcms tc)) empty_memo
unfolding lookup
empty_memo-IsFresh = record { cur_fresh = λ m v h. cc; prev_fresh = λ m v h. cc }

abbrev resources : Map ResourceType (List Resource)
resources =
    (listener_type, listener_resource listener ∷ [])
    ∷ (route_type, route_resource (codes "r1") ∷ route_resource (codes "r2") ∷ [])
    ∷ []

pruned_exact_example :
    let out =
      prune_unreferenced_routes
        (route_references hcms (items listener_type resources) empty_memo).0
        resources in
    ((r : Resource)
      → Memᴰ r (items route_type out) ↔ (
          Memᴰ r (items route_type resources)
          × (contains (listener_names hcms (items listener_type resources)) (resource_name r)
              ≡ true)))
    × ((t : ResourceType)
        → items t out ≡ (if t == route_type then items route_type out else items t resources))
pruned_exact_example = pruned_exact hcms resources empty_memo empty_memo-IsFresh
