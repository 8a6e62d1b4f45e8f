-- ===== src/Objects.antt =====
-- controllers/rds/route_controller.go, controllers/cds/cluster_controller.go,
-- controllers/eds/endpoint_controller.go and controllers/lds/listener_controller.go: what
-- updateRouteStatus, updateClusterStatus, updateEndpointStatus and updateListenerStatus write into the
-- status of an object. They share the code but for the message of
-- the Ready condition and the comparison with the stored status. Formatting by fmt.Sprintf and the
-- time are parameters.
pub mod Writes
use xds_controller.Prelude.{
  ℕ, Bool, true, false, not, ◌&&◌, ◌||◌, if◌then◌else◌, Option, none, some, Text, ◌==◌, list_eq,
  nat_eq, bool_eq, List, [], ◌∷◌, ◌++◌, codes, is_empty, length, contains, join, sort_strings, ltb,
}
use xds_controller.Util.{Codec, NodeInfo, get_node_info, empty_info}
use xds_controller.Sds.Conditions.{Condition, update_condition}

-- SnapshotInfo
pub record SnapshotInfo : Type 0 where
  pub node_id : Text
  pub cluster : Text
  pub active : Bool
  pub last_updated : ℕ

-- RouteStatus, ClusterStatus, EndpointStatus and ListenerStatus: `count` is VirtualHostCount,
-- EndpointCount or FilterChainCount, and `names` is Listeners or ReferencedEndpoints, which endpoints
-- and listeners do not have
pub record ObjectStatus : Type 0 where
  pub active : Bool
  pub count : ℕ
  pub names : Text
  pub snapshots : List SnapshotInfo
  pub nodes : Text
  pub clusters : Text
  pub last_reconciled : ℕ
  pub observed_generation : ℕ
  pub conditions : List Condition
  pub message : Text

pub data ObjectKind : Type 0 where
  route cluster endpoint listener : ObjectKind

-- the arguments of the update, with the object's generation
pub record Update : Type 0 where
  pub generation : ℕ
  pub active : Bool
  pub active_nodes : List Text
  pub count : ℕ
  pub names : List Text
  pub message : Text

abbrev pub ready_type : Text
ready_type = codes "Ready"

abbrev pub reconciled_type : Text
reconciled_type = codes "Reconciled"

abbrev pub error_type : Text
error_type = codes "Error"

abbrev pub condition_true : Text
condition_true = codes "True"

abbrev pub condition_false : Text
condition_false = codes "False"

-- set[n] = struct{}{} for all names
unfoldable pub add_names : List Text → List Text → List Text
add_names [] set = set
add_names (n ∷ ns) set = add_names ns (if contains set n then set else n ∷ set)

-- The comparison: routeStatusEqual, clusterStatusEqual and the like. Only routes compare the
-- messages.
unfoldable pub status_equal : ObjectKind → ObjectStatus → ObjectStatus → Bool
status_equal kind a b =
    a.active == b.active
    && a.count == b.count
    && a.names == b.names
    && a.nodes == b.nodes
    && a.clusters == b.clusters
    && a.observed_generation == b.observed_generation
    && (elim kind [
      | route ↦ a.message == b.message
      | cluster ↦ true
      | endpoint ↦ true
      | listener ↦ true
    ])
    && length a.snapshots == length b.snapshots

module _ (codec : Codec) (sprintf : Text → List ℕ → Text) where
  -- GetNodeInfo, whose error is ignored
  abbrev pub node_info : Text → NodeInfo
  node_info id = elim (get_node_info codec id) [ none ↦ empty_info | some info ↦ info ]

  unfoldable pub snapshot_infos : ℕ → List Text → List SnapshotInfo
  unfolding get_node_info join
  snapshot_infos now [] = []
  snapshot_infos now (id ∷ ids) =
      let info = node_info id in
      record {
        node_id = join (codes ",") info.nodes;
        cluster = join (codes ",") info.clusters;
        active = true;
        last_updated = now;
      }
      ∷ snapshot_infos now ids

  -- the sets of the nodes and of the clusters
  unfoldable pub all_names : (NodeInfo → List Text) → List Text → List Text → List Text
  unfolding get_node_info add_names
  all_names field [] set = set
  all_names field (id ∷ ids) set = all_names field ids (add_names (field (node_info id)) set)

  abbrev pub joined : (NodeInfo → List Text) → List Text → Text
  joined field ids = join (codes ",") (sort_strings (all_names field ids []))

  abbrev pub ready_message : ObjectKind → ℕ → ℕ → Text
  ready_message route n count = sprintf (codes "Route is active in %d snapshots") (n ∷ [])
  ready_message cluster n count =
      if ltb 0 count
      then sprintf (codes "Cluster is active in %d snapshots with %d endpoints") (n ∷ count ∷ [])
      else sprintf (codes "Cluster is active in %d snapshots") (n ∷ [])
  ready_message listener n count = sprintf (codes "Listener is active in %d snapshots") (n ∷ [])
  ready_message endpoint n count =
      sprintf (codes "Endpoint is active in %d snapshots with %d endpoints") (n ∷ count ∷ [])

  abbrev pub ready_condition : ObjectKind → ℕ → Update → Condition
  ready_condition kind now u = record {
    type = ready_type;
    status = if u.active then condition_true else condition_false;
    last_transition_time = now;
    reason = if u.active then codes "Active" else codes "Inactive";
    message = if u.active then ready_message kind (length u.active_nodes) u.count else u.message;
    observed_generation = u.generation;
  }

  abbrev pub reconciled_condition : ℕ → Update → Condition
  reconciled_condition now u = record {
    type = reconciled_type;
    status = condition_true;
    last_transition_time = now;
    reason = codes "Reconciled";
    message = codes "Successfully reconciled";
    observed_generation = u.generation;
  }

  -- message != "" && !active
  abbrev pub is_failure : Update → Bool
  is_failure u = not (is_empty u.message) && not u.active

  abbrev pub error_condition : ℕ → Update → Condition
  error_condition now u = record {
    type = error_type;
    status = if is_failure u then condition_true else condition_false;
    last_transition_time = now;
    reason = if is_failure u then codes "Error" else codes "NoError";
    message = if is_failure u then u.message else [];
    observed_generation = u.generation;
  }

  unfoldable pub new_conditions : ObjectKind → ℕ → Update → List Condition → List Condition
  unfolding update_condition
  new_conditions kind now u old =
      update_condition
        (update_condition (update_condition old (ready_condition kind now u))
          (reconciled_condition now u))
        (error_condition now u)

  -- newStatus
  unfoldable pub new_status : ObjectKind → ℕ → Update → ObjectStatus → ObjectStatus
  unfolding snapshot_infos all_names new_conditions join sort_strings
  new_status kind now u latest = record {
    active = u.active;
    count = u.count;
    names = join (codes ",") u.names;
    snapshots = snapshot_infos now u.active_nodes;
    nodes = joined (λ (i : NodeInfo). i.nodes) u.active_nodes;
    clusters = joined (λ (i : NodeInfo). i.clusters) u.active_nodes;
    last_reconciled = now;
    observed_generation = u.generation;
    conditions = new_conditions kind now u latest.conditions;
    message = u.message;
  }

  -- One attempt of the update on the status that is stored: what it writes, if it writes.
  unfoldable pub update_status : ObjectKind → ℕ → Update → ObjectStatus → Option ObjectStatus
  update_status kind now u latest =
      let new = new_status kind now u latest in
      if status_equal kind latest new then none else some new
