-- ===== src/Registry/Waiting.antt =====
-- controllers/cds/cluster_controller.go: what Reconcile does to the clusters of the nodes, also for a
-- cluster that waits for endpoints.
use xds_controller.Prelude.{
  ◌+◌, ◌&&◌, if◌then◌else◌, Option, none, some, Text, insert, ◌==◌, list_eq, nat_eq, List, [], ◌∷◌,
  contains, ◌≡◌, refl, ap, ◌∙◌, arith, eq_of_beq, beq_of_eq,
}
use xds_controller.Snapshot.{items}
use xds_controller.Registry.{Configs, keys, deletions_in}
use xds_controller.Registry.View.{
  others, find-others, Distinct-others, view, Distinct, IsUnique, items-insert,
}
use xds_controller.Registry.Refines.{
  put, drop, view-place, place-IsUnique, remove_lem, items_absent,
}
use xds_controller.Registry.Endpoints.{
  Assignment, Answer, found, missing, unreadable, Defaults, home,
}
use xds_controller.Registry.Clusters.{
  Cluster, ClusterObject, ClusterState, begin_cluster, cluster_name, Standing, placed, waiting,
  failed, judge, remove_cluster_at, remove_cluster_from_all_nodes, serve_cluster, reconcile_cluster,
}
use xds_controller.Registry.Ruling.{ruling, judge-eq-ruling}

remove_cluster_at-Distinct :
    (name : Text) (ks : List Text) (configs : Configs cluster_name)
    → ((node : Text) → Distinct cluster_name (items node configs))
    → (node : Text) → Distinct cluster_name (items node (remove_cluster_at name ks configs))
unfolding remove_cluster_at
remove_cluster_at-Distinct name [] configs d = d
remove_cluster_at-Distinct name (k ∷ ks) configs d =
    remove_cluster_at-Distinct name ks
      (insert k (others cluster_name name (items k configs)) configs)
      (λ node. ground (
        arith,
        items-insert k node (others cluster_name name (items k configs)) configs,
        d node,
        Distinct-others cluster_name name (items k configs) (d k),
      ))

view-remove_cluster_at :
    (name : Text) (ks : List Text) (configs : Configs cluster_name) (node n : Text)
    → view cluster_name (remove_cluster_at name ks configs) node n
      ≡ (if contains ks node && name == n then none else view cluster_name configs node n)
unfolding remove_cluster_at contains
view-remove_cluster_at name [] configs node n = refl
view-remove_cluster_at name (k ∷ ks) configs node n =
    let rs = others cluster_name name (items k configs) in
    ground (
      arith,
      view-remove_cluster_at name ks (insert k rs configs) node n,
      items-insert k node rs configs,
      find-others cluster_name name n (items k configs),
      eq_of_beq node k,
      eq_of_beq k node,
      beq_of_eq k node,
    )

-- What a cluster that is found does to the clusters of the nodes.
abbrev pub standing_effect :
    Defaults
    → ClusterObject
    → Standing
    → (Text → Text → Option Cluster)
    → Text
    → Text
    → Option Cluster
standing_effect x cl failed f = f
standing_effect x cl waiting f = drop cluster_name cl.name f
standing_effect x cl (placed cds) f = put cluster_name (home x cl.annotations) cds f

-- What the cluster does to the clusters of the nodes.
abbrev pub cluster_effect :
    Defaults
    → (Text → Answer (Option Assignment))
    → Answer ClusterObject
    → Text
    → (Text → Text → Option Cluster)
    → Text
    → Text
    → Option Cluster
cluster_effect x get unreadable name f = f
cluster_effect x get missing name f = drop cluster_name name f
cluster_effect x get (found cl) name f = standing_effect x cl (ruling get cl) f

module _ (x : Defaults) (get : Text → Answer (Option Assignment)) where
  -- The state serves the function.
  record Serves (s : ClusterState) (f : Text → Text → Option Cluster) : Type 0 where
    is_unique : IsUnique cluster_name s.cluster_configs
    is_view : (node n : Text) → view cluster_name s.cluster_configs node n ≡ f node n

  remove_cluster_from_all_nodes-Serves :
      (name : Text) (s : ClusterState)
      → IsUnique cluster_name s.cluster_configs
      → Serves
          (remove_cluster_from_all_nodes name s)
          (drop cluster_name name (view cluster_name s.cluster_configs))
  unfolding remove_cluster_from_all_nodes
  remove_cluster_from_all_nodes-Serves name s u =
      let configs = s.cluster_configs in
      let after = remove_cluster_at name (keys configs) configs in
      let same : (m n : Text)
          → view cluster_name after m n ≡ drop cluster_name name (view cluster_name configs) m n =
        λ m n.
          ground (
            arith,
            view-remove_cluster_at name (keys configs) configs m n,
            items_absent m configs,
          ) in
      record {
        is_unique = record {
          distinct = remove_cluster_at-Distinct name (keys configs) configs u.distinct;
          one_node = λ m n k a b h g. ground (arith, same m k, same n k, u.one_node m n k a b);
        };
        is_view = same;
      }

  serve_cluster-Serves :
      (cl : ClusterObject) (v : Standing) (s : ClusterState)
      → IsUnique cluster_name s.cluster_configs
      → Serves
          (serve_cluster x get cl v s)
          (standing_effect x cl v (view cluster_name s.cluster_configs))
  unfolding serve_cluster
  serve_cluster-Serves cl failed s u = record { is_unique = u; is_view = λ m n. refl }
  serve_cluster-Serves cl waiting s u = remove_cluster_from_all_nodes-Serves cl.name s u
  serve_cluster-Serves cl (placed cds) s u =
      let node = home x cl.annotations in
      record {
        is_unique = place-IsUnique cluster_name node cds s.cluster_configs u;
        is_view = λ m n. view-place cluster_name node cds s.cluster_configs u m n;
      }

  -- If each cluster is on one node at most, a reconcile returns without a panic, keeps it so, and acts
  -- on the nodes' clusters as follows. A cluster that converts is served at its node and nowhere else;
  -- if it has endpoint references, then with its own load assignment, to which the endpoints and named
  -- endpoints of all the referred assignments that exist and convert are added in order, with the last
  -- of their policies, if any has one. One that refers to endpoints, has none of its own and is led to
  -- none waits, and is on no node; neither is one whose object is gone. One that does not convert, or
  -- with a reference that cannot be read, stays as it was, and so does all else.
  pub reconcile_cluster_refines :
      (answer : Answer ClusterObject) (name : Text) (s : ClusterState)
      → IsUnique cluster_name s.cluster_configs
      → (out : ClusterState) × (reconcile_cluster x get answer name s ≡ some out)
        × IsUnique cluster_name out.cluster_configs
        × ((node n : Text)
            → view cluster_name out.cluster_configs node n
              ≡ cluster_effect x get answer name (view cluster_name s.cluster_configs) node n)
  unfolding reconcile_cluster
  reconcile_cluster_refines unreadable name s u = (begin_cluster s, refl, u, λ m n. refl)
  reconcile_cluster_refines missing name s u =
      let (kept, e, w, v) = remove_lem cluster_name name s.cluster_configs u in
      (
        record (begin_cluster s) {
          cluster_configs = kept;
          counter = s.counter + deletions_in cluster_name name s.cluster_configs;
        },
        rw (e, reconcile_cluster) refl,
        w,
        v,
      )
  reconcile_cluster_refines (found cl) name s u =
      let r = serve_cluster-Serves cl (judge get cl) (begin_cluster s) u in
      let effect = λ (v : Standing). standing_effect x cl v (view cluster_name s.cluster_configs) in
      (
        serve_cluster x get cl (judge get cl) (begin_cluster s),
        refl,
        r.is_unique,
        λ node n.
            r.is_view node n ∙ ap (λ (v : Standing). effect v node n) (judge-eq-ruling get cl),
      )
