-- ===== src/Registry/Endpoints.antt =====
-- controllers/eds/endpoint_controller.go: Reconcile. The conversion of an endpoint, the answer of the
-- API server and the node ID coding are inputs; the status of the object is left out.
use xds_controller.Prelude.{
  ℕ, ◌+◌, true, false, if◌then◌else◌, Option, none, some, Text, Map, list_eq, nat_eq, List, [], ◌∷◌,
  is_empty, length, ◌≡◌, refl, arith, ◌∙◌, sym, beq_of_eq, beq_of_ne, ◌≢◌,
}
use xds_controller.Util.{Codec, get_node_id, with_defaults}
use xds_controller.Status.{ReconciliationStatus, endpoints, set_has}
use xds_controller.Registry.{Configs, place, remove, deletions_in}
use xds_controller.Registry.View.{view, IsUnique}
use xds_controller.Registry.Refines.{put, drop, view-place, place-IsUnique, remove_lem}

-- endpoint.ClusterLoadAssignment: a locality is its endpoints, `none` if it is nil
pub record Assignment : Type 0 where
  pub cluster_name : Text
  pub endpoints : List (Option (List Text))
  pub named_endpoints : Map Text Text
  pub policy : Option Text

-- An Endpoint object; `recast` is what EndpointRecast gives for it, `none` on an error.
pub record Endpoint : Type 0 where
  pub name : Text
  pub annotations : Map Text Text
  pub recast : Option Assignment

pub data Answer (A : Type 0) : Type 0 where
  found : A → Answer A
  missing unreadable : Answer A

-- the node ID coding, and Config.NodeID and Config.Cluster
pub record Defaults : Type 0 where
  pub codec : Codec
  pub node_id : Text
  pub cluster : Text

-- the node ID that a reconciler files an object under
abbrev pub home : Defaults → Map Text Text → Text
home x an = get_node_id x.codec (with_defaults x.node_id x.cluster an)

-- countEndpoints
unfoldable pub count_endpoints : List (Option (List Text)) → ℕ
count_endpoints [] = 0
count_endpoints (none ∷ ls) = count_endpoints ls
count_endpoints (some eps ∷ ls) = length eps + count_endpoints ls

abbrev pub assignment_name : Assignment → Text
assignment_name a = a.cluster_name

-- the configuration map, the counter of configuration changes, and the flags
pub record EndpointState : Type 0 where
  pub endpoint_configs : Configs assignment_name
  pub counter : ℕ
  pub status : ReconciliationStatus

-- SetHasEndpoints(true), at the start
abbrev pub begin_endpoint : EndpointState → EndpointState
begin_endpoint s = record s { status = set_has endpoints true s.status }

abbrev pub named_assignment : Text → Assignment → Assignment
named_assignment name a = if is_empty a.cluster_name then record a { cluster_name = name } else a

module _ (x : Defaults) where
  -- Reconcile of a name; `none` is a panic
  unfoldable pub reconcile_endpoint : Answer Endpoint → Text → EndpointState → Option EndpointState
  unfolding place remove deletions_in set_has
  reconcile_endpoint unreadable name s = some (begin_endpoint s)
  reconcile_endpoint missing name s = elim (remove assignment_name name s.endpoint_configs) [
    | none ↦ none
    | some kept ↦ some (record (begin_endpoint s) {
      endpoint_configs = kept;
      counter = s.counter + deletions_in assignment_name name s.endpoint_configs;
    })
  ]
  reconcile_endpoint (found ep) name s = elim ep.recast [
    | none ↦ some (begin_endpoint s)
    | some eds ↦ some (record (begin_endpoint s) {
      endpoint_configs =
          place assignment_name (home x ep.annotations) (named_assignment ep.name eds)
            s.endpoint_configs;
      counter = s.counter + 1;
    })
  ]

  -- What the endpoint does to the assignments of the nodes.
  abbrev pub endpoint_effect :
      Answer Endpoint → Text → (Text → Text → Option Assignment) → Text → Text → Option Assignment
  endpoint_effect unreadable name f = f
  endpoint_effect missing name f = drop assignment_name name f
  endpoint_effect (found ep) name f = elim ep.recast [
    | none ↦ f
    | some eds ↦ put assignment_name (home x ep.annotations) (named_assignment ep.name eds) f
  ]

  -- If each cluster name is on one node at most, a reconcile returns without a panic, keeps it so, and
  -- acts on the nodes' assignments as follows: one that converts is at its node and nowhere else, the
  -- one with the name of an object that is gone is on no node, and all else is as it was.
  reconcile_endpoint_refines :
      (answer : Answer Endpoint) (name : Text) (s : EndpointState)
      → IsUnique assignment_name s.endpoint_configs
      → (out : EndpointState) × (reconcile_endpoint answer name s ≡ some out)
        × IsUnique assignment_name out.endpoint_configs
        × ((node n : Text)
            → view assignment_name out.endpoint_configs node n
              ≡ endpoint_effect answer name (view assignment_name s.endpoint_configs) node n)
  unfolding reconcile_endpoint
  reconcile_endpoint_refines unreadable name s u = (begin_endpoint s, refl, u, λ m n. refl)
  reconcile_endpoint_refines missing name s u =
      let (kept, e, w, v) = remove_lem assignment_name name s.endpoint_configs u in
      (
        record (begin_endpoint s) {
          endpoint_configs = kept;
          counter = s.counter + deletions_in assignment_name name s.endpoint_configs;
        },
        rw (e, reconcile_endpoint) refl,
        w,
        v,
      )
  reconcile_endpoint_refines (found ep) name s u = go ep.recast refl
    where
      go :
          (o : Option Assignment)
          → ep.recast ≡ o
          → (out : EndpointState) × (reconcile_endpoint (found ep) name s ≡ some out)
            × IsUnique assignment_name out.endpoint_configs
            × ((node n : Text)
                → view assignment_name out.endpoint_configs node n
                  ≡ endpoint_effect
                      (found ep)
                      name
                      (view assignment_name s.endpoint_configs)
                      node
                      n)
      go none e = (begin_endpoint s, rw (e, reconcile_endpoint) refl, u, λ m n. rw e refl)
      go (some eds) e =
          let r = named_assignment ep.name eds in
          let node = home x ep.annotations in
          (
            record (begin_endpoint s) {
              endpoint_configs = place assignment_name node r s.endpoint_configs;
              counter = s.counter + 1;
            },
            rw (e, reconcile_endpoint) refl,
            place-IsUnique assignment_name node r s.endpoint_configs u,
            λ m n. rw e (view-place assignment_name node r s.endpoint_configs u m n),
          )

  -- An Endpoint object whose assignment has a cluster name of its own, other than the object's name,
  -- is still served at its node after the object has been deleted.
  pub renamed_endpoint_stays :
      (ep : Endpoint) (eds : Assignment) (s : EndpointState)
      → IsUnique assignment_name s.endpoint_configs
      → ep.recast ≡ some eds
      → is_empty eds.cluster_name ≡ false
      → eds.cluster_name ≢ ep.name
      → (placed after : EndpointState) × (reconcile_endpoint (found ep) ep.name s ≡ some placed)
        × (reconcile_endpoint missing ep.name placed ≡ some after)
        × (view assignment_name after.endpoint_configs (home x ep.annotations) eds.cluster_name
            ≡ some eds)
  renamed_endpoint_stays ep eds s u e own ne =
      let (placed, p, w, v) = reconcile_endpoint_refines (found ep) ep.name s u in
      let (after, q, w2, v2) = reconcile_endpoint_refines missing ep.name placed w in
      let node = home x ep.annotations in
      let here : view assignment_name placed.endpoint_configs node eds.cluster_name ≡ some eds =
        v node eds.cluster_name
        ∙ rw (e, own)
            (ground (
              arith,
              beq_of_eq eds.cluster_name eds.cluster_name refl,
              beq_of_eq node node refl,
            )) in
      (
        placed,
        after,
        p,
        q,
        v2 node eds.cluster_name ∙ rw (beq_of_ne ep.name eds.cluster_name (λ r. ne (sym r))) here,
      )
