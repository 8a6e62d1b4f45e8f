-- ===== src/Snapshot/Nodes.antt =====
-- pkg/xds/xds.go: which nodes get a resource.
use xds_controller.Prelude.{
  ◌&&◌, if◌then◌else◌, Text, Map, lookup, insert, lookup-insert, ◌==◌, nat_eq, list_eq, List, [],
  ◌∷◌, ◌++◌, map, contains, ◌≡◌, refl, arith, keep, eq_of_beq, ◌∙◌,
}
use mathlib.Core.List.{append-nil, append_assoc}
use xds_controller.Util.{Codec, pair, get_node_id, get_node_info}
use xds_controller.Util.Ids.{decode_pair}
use xds_controller.Util.Csv.{IsClean}
use xds_controller.Snapshot.{
  Resource, ResourceType, Resources, Config, secret_type, listener_type, cluster_type, route_type,
  endpoint_type, type_eq, items, of_node, add_resource, add_all_resources, ids_in, ids_in_all,
  get_nodes, target_nodes, gather, gather_endpoints, all_resources, eds_endpoint_names,
  endpoint_resource, route_resource, secret_resource, listener_resource, cluster_resource,
}

-- resources[node][type]
abbrev pub at : Text → ResourceType → Resources → List Resource
at node t rs = items t (of_node node rs)

at-insert :
    (node n : Text) (t u : ResourceType) (rs : Resources) (v : List Resource)
    → at node t (insert n (insert u v (of_node n rs)) rs)
      ≡ (if n == node && u == t then v else at node t rs)
at-insert node n t u rs v = ground (
  arith,
  lookup-insert n node (insert u v (of_node n rs)) rs,
  lookup-insert u t v (of_node n rs),
  eq_of_beq n node,
)

-- One copy of the resource for each time that the node is among the targets.
abbrev pub copies : Text → List Text → Resource → List Resource
copies node [] r = []
copies node (n ∷ ts) r = if n == node then r ∷ copies node ts r else copies node ts r

at-add_resource :
    (node : Text) (t u : ResourceType) (r : Resource) (targets : List Text) (rs : Resources)
    → at node t (add_resource targets r u rs)
      ≡ at node t rs ++ (if u == t then copies node targets r else [])
unfolding add_resource
at-add_resource node t u r [] rs = ground (arith, append-nil (at node t rs))
at-add_resource node t u r (n ∷ targets) rs =
    let v = items u (of_node n rs) ++ r ∷ [] in
    at-add_resource node t u r targets (insert n (insert u v (of_node n rs)) rs)
    ∙ ground (
      arith,
      at-insert node n t u rs v,
      eq_of_beq n node,
      eq_of_beq u t,
      append_assoc (at node t rs) (r ∷ []) (copies node targets r),
    )

-- What the resources of one key add for the node.
abbrev pub all_copies : Text → List Text → List Resource → List Resource
all_copies node ts [] = []
all_copies node ts (r ∷ v) = copies node ts r ++ all_copies node ts v

at-add_all :
    (node : Text) (t u : ResourceType) (targets : List Text) (v : List Resource) (rs : Resources)
    → at node t (add_all_resources targets v u rs)
      ≡ at node t rs ++ (if u == t then all_copies node targets v else [])
unfolding add_all_resources
at-add_all node t u targets [] rs = ground (arith, append-nil (at node t rs))
at-add_all node t u targets (r ∷ v) rs =
    at-add_all node t u targets v (add_resource targets r u rs)
    ∙ ground (
      arith,
      at-add_resource node t u r targets rs,
      append-nil (at node t rs),
      append_assoc (at node t rs) (copies node targets r) (all_copies node targets v),
    )

module _ (c : Codec) (x : Config) where
  -- What a configuration map holds for the node: the resources of each key that targets it.
  abbrev pub placed : {A : Type 0} → (A → Resource) → Text → Map Text (List A) → List Resource
  placed wrap node [] = []
  placed wrap node ((s, v) ∷ configs) =
      all_copies node (target_nodes c x s) (map wrap v) ++ placed wrap node configs

  at-gather :
      {A : Type 0} (wrap : A → Resource) (node : Text) (t u : ResourceType)
      (configs : Map Text (List A)) (rs : Resources)
      → at node t (gather c x wrap u configs rs)
        ≡ at node t rs ++ (if u == t then placed wrap node configs else [])
  unfolding gather
  at-gather wrap node t u [] rs = ground (arith, append-nil (at node t rs))
  at-gather wrap node t u ((s, v) ∷ configs) rs =
      let here = all_copies node (target_nodes c x s) (map wrap v) in
      at-gather wrap node t u configs (add_all_resources (target_nodes c x s) (map wrap v) u rs)
      ∙ ground (
        arith,
        at-add_all node t u (target_nodes c x s) (map wrap v) rs,
        append-nil (at node t rs),
        append_assoc (at node t rs) here (placed wrap node configs),
      )

  -- The endpoints that some EDS cluster asks for, key by key.
  abbrev pub referenced : List Text → Map Text (List Text) → Map Text (List Text)
  referenced names [] = []
  referenced names ((s, v) ∷ configs) = (s, keep (contains names) v) ∷ referenced names configs

  gather_endpoints-eq :
      (names : List Text) (configs : Map Text (List Text)) (rs : Resources)
      → gather_endpoints c x names configs rs
        ≡ gather c x endpoint_resource endpoint_type (referenced names configs) rs
  unfolding gather gather_endpoints
  gather_endpoints-eq names [] rs = refl
  gather_endpoints-eq names ((s, v) ∷ configs) rs = gather_endpoints-eq names configs _

  -- The part of the configuration that makes the resources of a type.
  abbrev pub expected : Text → ResourceType → List Resource
  expected node secret_type = placed secret_resource node x.secret_configs
  expected node listener_type = placed listener_resource node x.listener_configs
  expected node cluster_type = placed cluster_resource node x.cluster_configs
  expected node route_type = placed route_resource node x.route_configs
  expected node endpoint_type =
      placed endpoint_resource node
        (referenced (eds_endpoint_names x.cluster_configs) x.endpoint_configs)

  at-empty : (node : Text) (t : ResourceType) → at node t [] ≡ []
  unfolding lookup
  at-empty node t = refl

  -- What one of the five loops adds to the resources of a type.
  abbrev added :
      {A : Type 0}
      → (A → Resource)
      → Text
      → ResourceType
      → ResourceType
      → Map Text (List A)
      → List Resource
  added wrap node t u configs = if u == t then placed wrap node configs else []

  at-all :
      (node : Text) (t : ResourceType)
      → at node t (all_resources c x)
        ≡ (((added secret_resource node t secret_type x.secret_configs
                ++ added listener_resource node t listener_type x.listener_configs)
              ++ added cluster_resource node t cluster_type x.cluster_configs)
            ++ added route_resource node t route_type x.route_configs)
          ++ added endpoint_resource node t endpoint_type
              (referenced (eds_endpoint_names x.cluster_configs) x.endpoint_configs)
  unfolding all_resources
  at-all node t =
      let s₁ = gather c x secret_resource secret_type x.secret_configs [] in
      let s₂ = gather c x listener_resource listener_type x.listener_configs s₁ in
      let s₃ = gather c x cluster_resource cluster_type x.cluster_configs s₂ in
      let s₄ = gather c x route_resource route_type x.route_configs s₃ in
      rw
        (
          gather_endpoints-eq (eds_endpoint_names x.cluster_configs) x.endpoint_configs s₄,
          at-gather endpoint_resource node t endpoint_type
              (referenced (eds_endpoint_names x.cluster_configs) x.endpoint_configs) s₄,
          at-gather route_resource node t route_type x.route_configs s₃,
          at-gather cluster_resource node t cluster_type x.cluster_configs s₂,
          at-gather listener_resource node t listener_type x.listener_configs s₁,
          at-gather secret_resource node t secret_type x.secret_configs [],
          at-empty node t,
        )
        refl

  -- A node gets of each type exactly the resources of the keys whose targets it is among, in the
  -- order of the configuration map, once for each time it is among the targets; of the endpoints
  -- only those that some EDS cluster names.
  pub all_resources_exact :
      (node : Text) (t : ResourceType) → at node t (all_resources c x) ≡ expected node t
  all_resources_exact node t = at-all node t ∙ only_own t
    where
      only_own :
          (u : ResourceType)
          → (((added secret_resource node u secret_type x.secret_configs
                    ++ added listener_resource node u listener_type x.listener_configs)
                  ++ added cluster_resource node u cluster_type x.cluster_configs)
                ++ added route_resource node u route_type x.route_configs)
              ++ added endpoint_resource node u endpoint_type
                  (referenced (eds_endpoint_names x.cluster_configs) x.endpoint_configs)
            ≡ expected node u
      only_own secret_type = simp (append-nil)
      only_own listener_type = simp (append-nil)
      only_own cluster_type = simp (append-nil)
      only_own route_type = simp (append-nil)
      only_own endpoint_type = refl

  -- An ID that NodeIDs makes of a clean node name and a clean cluster name is its own only target.
  target_nodes_single :
      (node cluster : Text)
      → IsClean node
      → IsClean cluster
      → let id = get_node_id c (pair cluster node) in target_nodes c x id ≡ id ∷ []
  unfolding target_nodes get_node_info
  target_nodes_single node cluster hn hc =
      rw (decode_pair c node cluster hn hc, target_nodes)
        (unfold ids_in_all ids_in get_nodes in refl)
