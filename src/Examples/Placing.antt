-- ===== src/Examples/Placing.antt =====
-- controllers/cds/cluster_controller.go and controllers/eds/endpoint_controller.go at concrete
-- objects.
use xds_controller.Prelude.{
  true, Option, none, some, Text, lookup, insert, list_beq, list_eq, nat_eq, List, [], ◌∷◌, codes,
  if◌then◌else◌, ◌==◌, ◌≡◌, refl, arith,
}
use xds_controller.Status.{new, clusters, set_has}
use xds_controller.Registry.{Configs, place, remove}
use xds_controller.Registry.View.{view, IsUnique}
use xds_controller.Registry.Refines.{Event, placed, deleted, failed, run, replay, run_refines}
use xds_controller.Registry.Endpoints.{
  Assignment, Endpoint, Answer, found, missing, Defaults, home, assignment_name, EndpointState,
  reconcile_endpoint, renamed_endpoint_stays,
}
use xds_controller.Registry.Clusters.{
  Cluster, ClusterObject, ClusterState, cluster_name, reconcile_cluster,
}
use xds_controller.Registry.Waiting.{cluster_effect, reconcile_cluster_refines}
use xds_controller.Examples.Ids.{plain, edge, main_cluster}

abbrev same : Text → Text
same n = n

empty-IsUnique : {A : Type 0} (name_of : A → Text) → IsUnique name_of []
unfolding lookup
empty-IsUnique name_of = record { distinct = λ node. tt; one_node = λ m n name a b h k. cc }

-- a resource that is its name moves from one node to another and is deleted
abbrev moves : List (Event same)
moves =
    placed edge main_cluster
    ∷ placed main_cluster edge
    ∷ failed
    ∷ placed main_cluster main_cluster
    ∷ deleted edge
    ∷ []

run_refines_example :
    (out : Configs same) × (run same moves [] ≡ some out)
    × IsUnique same out
    × (view same out ≡ replay same moves (view same []))
run_refines_example = run_refines same moves [] (empty-IsUnique same)

moved : run same moves [] ≡ some ((edge, []) ∷ (main_cluster, main_cluster ∷ []) ∷ [])
unfolding run place remove lookup insert list_beq
moved = refl

abbrev defaults : Defaults
defaults = record { codec = plain; node_id = edge; cluster = main_cluster }

abbrev backend : Assignment
backend = record {
  cluster_name = codes "backend";
  endpoints = some (codes "10.0.0.1" ∷ []) ∷ [];
  named_endpoints = [];
  policy = none;
}

abbrev renamed : Endpoint
renamed = record { name = codes "ep"; annotations = []; recast = some backend }

abbrev no_endpoints : EndpointState
no_endpoints = record { endpoint_configs = []; counter = 0; status = new }

renamed_endpoint_stays_example :
    (placed after : EndpointState) × (reconcile_endpoint defaults
        (found renamed)
        renamed.name
        no_endpoints
      ≡ some placed)
    × (reconcile_endpoint defaults missing renamed.name placed ≡ some after)
    × (view assignment_name after.endpoint_configs (home defaults []) (codes "backend")
        ≡ some backend)
renamed_endpoint_stays_example =
    renamed_endpoint_stays defaults renamed backend no_endpoints (empty-IsUnique assignment_name)
      refl refl (λ h. ground arith)

-- the one Endpoint object that there is
abbrev endpoint_of : Text → Answer (Option Assignment)
endpoint_of name = if name == codes "ep" then found (some backend) else missing

abbrev waits : ClusterObject
waits = record {
  name = codes "backend";
  annotations = [];
  endpoint_refs = codes "ep" ∷ codes "gone" ∷ [];
  recast = some (record { name = []; load_assignment = none });
}

abbrev no_clusters : ClusterState
no_clusters = record { cluster_configs = []; counter = 0; status = new }

reconcile_cluster_refines_example :
    (out : ClusterState) × (reconcile_cluster defaults endpoint_of
        (found waits)
        (codes "backend")
        no_clusters
      ≡ some out)
    × IsUnique cluster_name out.cluster_configs
    × ((node n : Text)
        → view cluster_name out.cluster_configs node n
          ≡ cluster_effect defaults endpoint_of
              (found waits)
              (codes "backend")
              (view cluster_name [])
              node
              n)
reconcile_cluster_refines_example =
    reconcile_cluster_refines defaults endpoint_of (found waits) (codes "backend") no_clusters
      (empty-IsUnique cluster_name)

abbrev filled : Cluster
filled = record { name = codes "backend"; load_assignment = some backend }

-- The cluster gets the endpoints that it refers to.
cluster_filled :
    reconcile_cluster defaults endpoint_of (found waits) (codes "backend") no_clusters
    ≡ some (record {
      cluster_configs = (home defaults [], filled ∷ []) ∷ [];
      counter = 1;
      status = set_has clusters true new;
    })
unfolding reconcile_cluster lookup insert list_beq
cluster_filled = refl
