-- ===== src/Snapshot/Routes.antt =====
-- pkg/xds/xds.go: the routes that the listeners of a node use, the pruning of the others, and the
-- snapshots of a pass. The version is the hash of pkg/xds/hash.go, which is a parameter here, as the
-- snapshots of the control plane library are.
use xds_controller.Prelude.{
  ℕ, not, if◌then◌else◌, Option, none, some, Text, Map, insert, ◌==◌, nat_eq, list_eq, List, [],
  ◌∷◌, ◌++◌, is_empty, contains, keep, length,
}
use xds_controller.Snapshot.{
  Filter, XListener, Resource, ResourceType, listener_resource, route_type, listener_type,
  endpoint_type, type_eq, items, resource_name, Resources,
}
use xds_controller.Snapshot.Memo.{PassMemo, get}

-- hcm.HttpConnectionManager, by the route names it refers to
pub record Hcm : Type 0 where
  pub rds_route_config_name : Text
  pub scoped_routes : List Text

-- used[name] = true for each name
unfoldable pub use_names : List Text → List Text → List Text
use_names used [] = used
use_names used (n ∷ ns) = use_names (if contains used n then used else used ++ n ∷ []) ns

-- the function that routeReferences memoizes
abbrev pub hcm_names : Option Hcm → List Text
hcm_names none = []
hcm_names (some h) =
    if is_empty h.rds_route_config_name
    then h.scoped_routes
    else h.rds_route_config_name ∷ h.scoped_routes

-- pruneUnreferencedRoutes
unfoldable pub prune_unreferenced_routes :
    List Text → Map ResourceType (List Resource) → Map ResourceType (List Resource)
prune_unreferenced_routes used res =
    insert route_type (keep (λ r. contains used (resource_name r)) (items route_type res)) res

-- resource.GetHTTPConnectionManager, by the address of the typed config
module _ (hcms : ℕ → Option Hcm) where
  -- the function `add` of routeReferences, over the filters of one chain
  unfoldable pub use_filters :
      List Filter → List Text → PassMemo (List Text) → List Text × PassMemo (List Text)
  unfolding use_names
  use_filters [] used memo = (used, memo)
  use_filters (f ∷ fs) used memo = elim f.typed_config [
    | none ↦ use_filters fs used memo
    | some tc ↦
        let got = get tc (hcm_names (hcms tc)) memo in use_filters fs (use_names used got.0) got.1
  ]

  unfoldable pub use_chains :
      List (List Filter) → List Text → PassMemo (List Text) → List Text × PassMemo (List Text)
  unfolding use_filters
  use_chains [] used memo = (used, memo)
  use_chains (fc ∷ fcs) used memo =
      let done = use_filters fc used memo in use_chains fcs done.0 done.1

  -- the chains of a listener, the default one last
  abbrev pub chains_of : XListener → List (List Filter)
  chains_of l = l.filter_chains ++ (elim l.default_filter_chain [ none ↦ [] | some fc ↦ fc ∷ [] ])

  -- the loop of routeReferences; a resource that is no listener is skipped
  unfoldable pub use_listeners :
      List Resource → List Text → PassMemo (List Text) → List Text × PassMemo (List Text)
  unfolding use_chains
  use_listeners [] used memo = (used, memo)
  use_listeners (listener_resource l ∷ rs) used memo =
      let done = use_chains (chains_of l) used memo in use_listeners rs done.0 done.1
  use_listeners (r ∷ rs) used memo = use_listeners rs used memo

  -- routeReferences
  unfoldable pub route_references :
      List Resource → PassMemo (List Text) → List Text × PassMemo (List Text)
  unfolding use_listeners
  route_references rs memo = use_listeners rs [] memo

-- the library's snapshots: `items_of` are the names of a type, without repetition, and
-- `eds_references` the names of endpoints that the clusters refer to, likewise
pub record Snapshots : Type 1 where
  pub Snapshot : Type 0
  pub hash : Map ResourceType (List Resource) → Text
  pub new_snapshot : Text → Map ResourceType (List Resource) → Option Snapshot
  pub items_of : ResourceType → Snapshot → List Text
  pub eds_references : Snapshot → List Text

pub data Inconsistency : Type 0 where
  lengths_differ : ResourceType → Inconsistency
  not_listed : ResourceType → Text → Inconsistency

-- the inner loop of `consistent`: a name that is not among the references
unfoldable pub find_unlisted : ResourceType → List Text → List Text → Option Inconsistency
find_unlisted t refs [] = none
find_unlisted t refs (n ∷ ns) =
    let rest = find_unlisted t refs ns in if contains refs n then rest else some (not_listed t n)

unfoldable pub check_type : ResourceType → List Text → List Text → Option Inconsistency
unfolding find_unlisted
check_type t refs names =
    if not (length refs == length names)
    then some (lengths_differ t)
    else find_unlisted t refs names

pub record NodeSnapshot (x : Snapshots) : Type 0 where
  pub node_id : Text
  pub version : Text
  pub snapshot : x.Snapshot
  pub inconsistent : Option Inconsistency

module _ (x : Snapshots) (hcms : ℕ → Option Hcm) where
  -- consistent
  unfoldable pub consistent : x.Snapshot → List Text → Option Inconsistency
  unfolding check_type
  consistent snap routes =
      elim (check_type endpoint_type (x.eds_references snap) (x.items_of endpoint_type snap)) [
        | some e ↦ some e
        | none ↦ check_type route_type routes (x.items_of route_type snap)
      ]

  -- the loop of GenerateSnapshotsV2; `none` is an error of NewSnapshot
  unfoldable pub generate_snapshots :
      Resources → PassMemo (List Text) → Option (List (NodeSnapshot x)) × PassMemo (List Text)
  generate_snapshots [] memo = (some [], memo)
  generate_snapshots ((node, res) ∷ nodes) memo =
      let found = route_references hcms (items listener_type res) memo in
      let pruned = prune_unreferenced_routes found.0 res in
      let version = x.hash pruned in
      let rest = generate_snapshots nodes found.1 in
      elim (x.new_snapshot version pruned) [
        | none ↦ (none, found.1)
        | some snap ↦ elim rest.0 [
          | none ↦ (none, rest.1)
          | some confs ↦ (
            some (
                record {
                  node_id = node;
                  version = version;
                  snapshot = snap;
                  inconsistent = consistent snap found.0;
                }
                ∷ confs),
            rest.1,
          )
        ]
      ]
