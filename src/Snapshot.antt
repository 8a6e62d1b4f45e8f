-- ===== src/Snapshot.antt =====
-- pkg/xds/xds.go and the memo of pkg/xds/hash.go: the resources of each node, gathered from the
-- configuration maps. Resources are reduced to what this code reads of them; the decoding of HTTP
-- connection managers and the node ID coding are parameters. A Go map is visited in the order of
-- its list.
pub mod Memo
pub mod Nodes
pub mod Routes
pub mod Pruning
use xds_controller.Prelude.{
  ℕ, Bool, true, false, not, ◌&&◌, ◌||◌, if◌then◌else◌, Option, none, some, Text, Map, lookup,
  insert, ◌==◌, nat_eq, list_eq, List, [], ◌∷◌, ◌++◌, map, is_empty, contains, EqOps, ◌≡◌, ◌↔◌,
  arith, keep, length,
}
use xds_controller.Util.{NodeInfo, Codec, pair, get_node_id, get_node_info}

-- a filter, by the address of its typed config, which is absent if nil
pub record Filter : Type 0 where
  pub typed_config : Option ℕ

-- listenerv3.Listener, by the filters of its chains
pub record XListener : Type 0 where
  pub name : Text
  pub filter_chains : List (List Filter)
  pub default_filter_chain : Option (List Filter)

-- clusterv3.Cluster; the service name is empty without an EDS configuration
pub record XCluster : Type 0 where
  pub name : Text
  pub is_eds : Bool
  pub eds_service_name : Text

pub data Resource : Type 0 where
  secret_resource : Text → Resource
  listener_resource : XListener → Resource
  cluster_resource : XCluster → Resource
  route_resource : Text → Resource
  endpoint_resource : Text → Resource

pub data ResourceType : Type 0 where
  secret_type listener_type cluster_type route_type endpoint_type : ResourceType

abbrev pub type_beq : ResourceType → ResourceType → Bool
type_beq secret_type secret_type = true
type_beq listener_type listener_type = true
type_beq cluster_type cluster_type = true
type_beq route_type route_type = true
type_beq endpoint_type endpoint_type = true
type_beq _ _ = false

pub type_beq_iff : (a b : ResourceType) → (type_beq a b ≡ true) ↔ (a ≡ b)
type_beq_iff secret_type b = (λ h. ground arith, λ h. ground arith)
type_beq_iff listener_type b = (λ h. ground arith, λ h. ground arith)
type_beq_iff _ b = (λ h. ground arith, λ h. ground arith)

instance abbrev pub type_eq : EqOps ResourceType
type_eq = record { beq = type_beq; beq_iff = type_beq_iff }

-- map[string]map[string][]types.Resource
abbrev pub Resources : Type 0
Resources = Map Text (Map ResourceType (List Resource))

-- the maps and the defaults of Config that the snapshots are made of
pub record Config : Type 0 where
  pub secret_configs : Map Text (List Text)
  pub listener_configs : Map Text (List XListener)
  pub cluster_configs : Map Text (List XCluster)
  pub route_configs : Map Text (List Text)
  pub endpoint_configs : Map Text (List Text)
  pub node_id : Text
  pub cluster : Text

-- cache.GetResourceName
abbrev pub resource_name : Resource → Text
resource_name (secret_resource n) = n
resource_name (listener_resource l) = l.name
resource_name (cluster_resource c) = c.name
resource_name (route_resource n) = n
resource_name (endpoint_resource n) = n

-- m[k] of a map of lists
abbrev pub items : {K : Type 0} ⦃e : EqOps K⦄ {A : Type 0} → K → Map K (List A) → List A
items k m = elim (lookup k m) [ none ↦ [] | some v ↦ v ]

-- resources[node], which is empty if nil
abbrev pub of_node : Text → Resources → Map ResourceType (List Resource)
of_node node rs = elim (lookup node rs) [ none ↦ [] | some m ↦ m ]

-- addResource
unfoldable pub add_resource : List Text → Resource → ResourceType → Resources → Resources
add_resource [] res t rs = rs
add_resource (node ∷ targets) res t rs =
    let old = of_node node rs in
    add_resource targets res t (insert node (insert t (items t old ++ res ∷ []) old) rs)

-- getNodes
unfoldable pub get_nodes : NodeInfo → Config → List Text
get_nodes info x = if is_empty info.nodes then x.node_id ∷ [] else info.nodes

-- the inner loop over the resources of one key
unfoldable pub add_all_resources : List Text → List Resource → ResourceType → Resources → Resources
unfolding add_resource
add_all_resources targets [] t rs = rs
add_all_resources targets (r ∷ rest) t rs =
    add_all_resources targets rest t (add_resource targets r t rs)

-- the name under which an EDS cluster asks for its endpoints
abbrev pub service_name : XCluster → Text
service_name c = if is_empty c.eds_service_name then c.name else c.eds_service_name

unfoldable pub eds_names : List XCluster → List Text
eds_names [] = []
eds_names (c ∷ cs) = if c.is_eds then service_name c ∷ eds_names cs else eds_names cs

-- the set edsEndpointNames
unfoldable pub eds_endpoint_names : Map Text (List XCluster) → List Text
unfolding eds_names
eds_endpoint_names [] = []
eds_endpoint_names ((k, cs) ∷ rest) = eds_names cs ++ eds_endpoint_names rest

module _ (c : Codec) (x : Config) where
  unfoldable pub ids_in : List Text → Text → List Text
  unfolding get_node_id
  ids_in [] cluster = []
  ids_in (n ∷ ns) cluster = get_node_id c (pair cluster n) ∷ ids_in ns cluster

  unfoldable pub ids_in_all : List Text → List Text → List Text
  unfolding ids_in
  ids_in_all [] ns = []
  ids_in_all (cluster ∷ cs) ns = ids_in ns cluster ++ ids_in_all cs ns

  -- targetNodes
  unfoldable pub target_nodes : Text → List Text
  unfolding ids_in_all get_nodes get_node_info
  target_nodes s = elim (get_node_info c s) [
    | none ↦ []
    | some info ↦
        if is_empty info.clusters && is_empty info.nodes
        then get_node_id c (pair x.cluster x.node_id) ∷ []
        else ids_in_all info.clusters (get_nodes info x)
  ]

  -- the loop that the functions getResourcesFrom... share: over the keys of a configuration map
  unfoldable pub gather :
      {A : Type 0} → (A → Resource) → ResourceType → Map Text (List A) → Resources → Resources
  unfolding target_nodes add_all_resources
  gather wrap t [] rs = rs
  gather wrap t ((s, v) ∷ configs) rs =
      gather wrap t configs (add_all_resources (target_nodes s) (map wrap v) t rs)

  -- getResourcesFromEndpointConfigs: only what an EDS cluster refers to
  unfoldable pub gather_endpoints : List Text → Map Text (List Text) → Resources → Resources
  unfolding target_nodes add_all_resources
  gather_endpoints names [] rs = rs
  gather_endpoints names ((s, v) ∷ configs) rs = gather_endpoints names configs (
      add_all_resources (target_nodes s) (map endpoint_resource (keep (contains names) v))
        endpoint_type rs)

  -- the calls at the head of GenerateSnapshotsV2
  unfoldable pub all_resources : Resources
  unfolding gather gather_endpoints eds_endpoint_names
  all_resources =
      let secrets = gather secret_resource secret_type x.secret_configs [] in
      let listeners = gather listener_resource listener_type x.listener_configs secrets in
      let clusters = gather cluster_resource cluster_type x.cluster_configs listeners in
      let routes = gather route_resource route_type x.route_configs clusters in
      gather_endpoints (eds_endpoint_names x.cluster_configs) x.endpoint_configs routes
