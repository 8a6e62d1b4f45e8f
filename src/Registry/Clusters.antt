-- ===== src/Registry/Clusters.antt =====
-- controllers/cds/cluster_controller.go: Reconcile, with the endpoints that a cluster refers to. The
-- conversions and the answers of the API server are inputs; the status of the object is left out.
use xds_controller.Prelude.{
  ℕ, ◌+◌, Bool, true, false, not, ◌&&◌, ◌||◌, if◌then◌else◌, Option, none, some, Text, Map, insert,
  ◌==◌, list_eq, nat_eq, List, [], ◌∷◌, ◌++◌, is_empty, keep,
}
use xds_controller.Status.{ReconciliationStatus, clusters, set_has}
use xds_controller.Snapshot.{items}
use xds_controller.Registry.{Configs, keys, place, remove, deletions_in}
use xds_controller.Registry.Endpoints.{
  Assignment, Answer, found, missing, unreadable, Defaults, home, count_endpoints,
}

-- cluster.Cluster, as far as the reconciler reads it
pub record Cluster : Type 0 where
  pub name : Text
  pub load_assignment : Option Assignment

-- A Cluster object; `recast` is what ClusterRecast gives for it, `none` on an error.
pub record ClusterObject : Type 0 where
  pub name : Text
  pub annotations : Map Text Text
  pub endpoint_refs : List Text
  pub recast : Option Cluster

abbrev pub cluster_name : Cluster → Text
cluster_name c = c.name

pub record ClusterState : Type 0 where
  pub cluster_configs : Configs cluster_name
  pub counter : ℕ
  pub status : ReconciliationStatus

-- SetHasClusters(true), at the start
abbrev pub begin_cluster : ClusterState → ClusterState
begin_cluster s = record s { status = set_has clusters true s.status }

-- maps: every entry of the second is set in the first
unfoldable pub set_all : Map Text Text → Map Text Text → Map Text Text
set_all m [] = m
set_all m ((k, v) ∷ rest) = set_all (insert k v m) rest

abbrev pub or_else : Option Text → Option Text → Option Text
or_else none old = old
or_else (some p) old = some p

-- one round of mergeEndpointRefs for an endpoint that converts
unfoldable pub merge_endpoint : Assignment → Assignment → Assignment
unfolding set_all
merge_endpoint eds la = record la {
  endpoints = la.endpoints ++ eds.endpoints;
  named_endpoints = set_all la.named_endpoints eds.named_endpoints;
  policy = or_else eds.policy la.policy;
}

-- the rounds, with the count so far; `none` is an error. The endpoint is answered by what
-- EndpointRecast gives for it.
unfoldable pub merge_refs :
    (Text → Answer (Option Assignment)) → List Text → Assignment × ℕ → Option (Assignment × ℕ)
unfolding merge_endpoint count_endpoints
merge_refs get [] acc = some acc
merge_refs get (ref ∷ refs) (la, count) =
    let skipped = merge_refs get refs (la, count) in
    elim (get ref) [
      | unreadable ↦ none
      | missing ↦ skipped
      | found o ↦ elim o [
        | none ↦ skipped
        | some eds ↦
            merge_refs get refs (merge_endpoint eds la, count + count_endpoints eds.endpoints)
      ]
    ]

-- the load assignment that mergeEndpointRefs starts from
abbrev pub base : Text → Cluster → Assignment
base name cds = elim cds.load_assignment [
  | none ↦ record { cluster_name = name; endpoints = []; named_endpoints = []; policy = none }
  | some la ↦ if is_empty la.cluster_name then record la { cluster_name = name } else la
]

abbrev pub is_some : Option Assignment → Bool
is_some none = false
is_some (some la) = true

-- mergeEndpointRefs and the assignment of its result, when there are references. The merge changes
-- the cluster's own load assignment in place.
unfoldable pub merge_endpoint_refs :
    (Text → Answer (Option Assignment)) → ClusterObject → Cluster → Option (Cluster × ℕ)
unfolding merge_refs
merge_endpoint_refs get cl cds = elim (merge_refs get cl.endpoint_refs (base cl.name cds, 0)) [
  | none ↦ none
  | some (la, count) ↦
      let merged =
        if is_some cds.load_assignment || not (is_empty la.endpoints)
        then record cds { load_assignment = some la }
        else cds in
      some (merged, if is_empty la.endpoints && is_empty la.named_endpoints then 0 else count)
]

-- cds.LoadAssignment != nil && len(cds.LoadAssignment.Endpoints) > 0
abbrev pub has_inline : Cluster → Bool
has_inline cds = elim cds.load_assignment [ none ↦ false | some la ↦ not (is_empty la.endpoints) ]

-- removeClusterFromAllNodes, over the keys left to visit: the backward loop deletes every match
unfoldable pub remove_cluster_at : Text → List Text → Configs cluster_name → Configs cluster_name
remove_cluster_at name [] configs = configs
remove_cluster_at name (k ∷ ks) configs =
    remove_cluster_at name ks
      (insert k (keep (λ (c : Cluster). not (c.name == name)) (items k configs)) configs)

-- removeClusterFromAllNodes
unfoldable pub remove_cluster_from_all_nodes : Text → ClusterState → ClusterState
unfolding remove_cluster_at deletions_in
remove_cluster_from_all_nodes name s = record s {
  cluster_configs = remove_cluster_at name (keys s.cluster_configs) s.cluster_configs;
  counter = s.counter + deletions_in cluster_name name s.cluster_configs;
}

-- What becomes of a cluster that is found.
pub data Standing : Type 0 where
  placed : Cluster → Standing
  waiting failed : Standing

-- Reconcile from ClusterRecast to the decision whether the cluster is served
unfoldable pub judge : (Text → Answer (Option Assignment)) → ClusterObject → Standing
unfolding merge_endpoint_refs
judge get cl = elim cl.recast [
  | none ↦ failed
  | some recast ↦
      let cds = record recast { name = cl.name } in
      if is_empty cl.endpoint_refs then placed cds else elim (merge_endpoint_refs get cl cds) [
        | none ↦ failed
        | some (merged, count) ↦
            if not (has_inline cds) && count == 0 then waiting else placed merged
      ]
]

module _ (x : Defaults) (get : Text → Answer (Option Assignment)) where
  unfoldable pub serve_cluster : ClusterObject → Standing → ClusterState → ClusterState
  unfolding place remove_cluster_from_all_nodes
  serve_cluster cl failed s = s
  serve_cluster cl waiting s = remove_cluster_from_all_nodes cl.name s
  serve_cluster cl (placed cds) s = record s {
    cluster_configs = place cluster_name (home x cl.annotations) cds s.cluster_configs;
    counter = s.counter + 1;
  }

  -- Reconcile; `none` is a panic
  unfoldable pub reconcile_cluster :
      Answer ClusterObject → Text → ClusterState → Option ClusterState
  unfolding judge serve_cluster remove deletions_in set_has
  reconcile_cluster unreadable name s = some (begin_cluster s)
  reconcile_cluster (found cl) name s = some (serve_cluster cl (judge get cl) (begin_cluster s))
  reconcile_cluster missing name s = elim (remove cluster_name name s.cluster_configs) [
    | none ↦ none
    | some kept ↦ some (record (begin_cluster s) {
      cluster_configs = kept;
      counter = s.counter + deletions_in cluster_name name s.cluster_configs;
    })
  ]
