-- ===== src/Lds/Reconcile.antt =====
-- controllers/lds/listener_controller.go: Reconcile and what it calls. The answers of the API server,
-- the conversions and the node ID coding are inputs. The status of the object, the flag of the
-- listeners that a timer sets, metrics and log lines are left out.
pub mod Confined
pub mod Rebuild
pub mod Settling
pub mod Marks
use xds_controller.Prelude.{
  ℕ, ◌+◌, Bool, true, false, not, ◌&&◌, ◌||◌, if◌then◌else◌, Option, none, some, Text, Map, insert,
  ◌==◌, nat_eq, list_eq, List, [], ◌∷◌, ◌++◌, any, contains, is_empty, keep, length, Result, ok,
  err,
}
use xds_controller.Util.{
  Codec, NodeInfo, get_node_info, find_node_and_cluster, node_ids, with_defaults, older_route,
  empty_info,
}
use xds_controller.Api.{Route}
use xds_controller.Fcm.{Externs}
use xds_controller.Snapshot.{items}
use xds_controller.Registry.{named, replace_first}
use xds_controller.Status.{
  ReconciliationStatus, listeners, routes, domain_configs, set_has, listener_pending_seq,
  clear_listener_pending,
}
use xds_controller.Lds.{Listener, Conversions, ChainCache, prune, listener_recast}

-- xds.RouteConfig, by the address of its route
pub record PlacedRoute : Type 0 where
  pub address : ℕ
  pub listener_names : List Text

-- A Listener object: `converted` is its spec as an Envoy listener, `none` if it does not convert.
pub record ListenerObject (Filter : Type 0) : Type 0 where
  pub name : Text
  pub annotations : Map Text Text
  pub has_filter_chains : Bool
  pub converted : Option (Listener Filter)

pub data Fetched (Filter : Type 0) : Type 0 where
  found : ListenerObject Filter → Fetched Filter
  missing unreadable : Fetched Filter

-- what Reconcile writes: the listeners of the nodes, the counter, the flags, and the built chains
pub record ListenerState (Filter : Type 0) : Type 0 where
  pub listener_configs : Map Text (List (Listener Filter))
  pub counter : ℕ
  pub status : ReconciliationStatus
  pub chains : ChainCache Filter

abbrev pub listener_name : {Filter : Type 0} → Listener Filter → Text
listener_name l = l.name

-- removeListenerFromNodes
unfoldable pub remove_listener_from_nodes :
    {Filter : Type 0} → Text → List Text → ListenerState Filter → ListenerState Filter
remove_listener_from_nodes name [] s = s
remove_listener_from_nodes {Filter} name (node ∷ nodes) s =
    let old = items node s.listener_configs in
    let kept = keep (λ (l : Listener Filter). not (l.name == name)) old in
    let gone = keep (λ (l : Listener Filter). l.name == name) old in
    remove_listener_from_nodes name nodes (record s {
      listener_configs = insert node kept s.listener_configs;
      counter = s.counter + length gone;
    })

-- updateListenerConfig
unfoldable pub update_listener_config :
    {Filter : Type 0} → Text → Listener Filter → ListenerState Filter → ListenerState Filter
unfolding replace_first
update_listener_config node lds s =
    let old = items node s.listener_configs in
    record s {
      listener_configs =
          insert node
            (if named listener_name lds.name old
              then replace_first listener_name lds old
              else old ++ lds ∷ [])
            s.listener_configs;
      counter = s.counter + 1;
    }

-- previousNodeSet
unfoldable pub previous_nodes :
    {Filter : Type 0} → Text → Map Text (List (Listener Filter)) → List Text
previous_nodes name [] = []
previous_nodes name ((node, ls) ∷ rest) =
    let more = previous_nodes name rest in if named listener_name name ls then node ∷ more else more

-- slices.SortFunc by OlderRoute
unfoldable pub insert_older : (ℕ → Route) → ℕ → List ℕ → List ℕ
insert_older heap a [] = a ∷ []
insert_older heap a (b ∷ bs) =
    let rest = insert_older heap a bs in
    if older_route (heap b).age (heap a).age then b ∷ rest else a ∷ b ∷ bs

unfoldable pub sort_by_age : (ℕ → Route) → List ℕ → List ℕ
unfolding insert_older
sort_by_age heap [] = []
sort_by_age heap (a ∷ rest) = insert_older heap a (sort_by_age heap rest)

-- the answers and settings that Reconcile reads
pub record Setting (Filter : Type 0) : Type 0 where
  pub codec : Codec
  pub node_id : Text
  pub cluster : Text
  pub externs : Externs
  pub conversions : Conversions Filter
  pub heap : ℕ → Route
  pub route_configs : Map Text (List PlacedRoute)

module _ {Filter : Type 0} (x : Setting Filter) where
  abbrev pub info_of : Text → NodeInfo
  info_of id = elim (get_node_info x.codec id) [ none ↦ empty_info | some info ↦ info ]

  unfoldable pub attached : Text → List PlacedRoute → List ℕ
  attached name [] = []
  attached name (rc ∷ rcs) =
      let more = attached name rcs in
      if contains (x.heap rc.address).listener_refs name then rc.address ∷ more else more

  unfoldable pub routes_of : Text → NodeInfo → Map Text (List PlacedRoute) → List ℕ
  unfolding attached find_node_and_cluster
  routes_of name info [] = []
  routes_of name info ((node, rcs) ∷ rest) =
      let more = routes_of name info rest in
      if find_node_and_cluster x.codec info node then attached name rcs ++ more else more

  -- getRoutesForNode
  unfoldable pub get_routes_for_node : Text → Text → List ℕ
  unfolding routes_of sort_by_age get_node_info
  get_routes_for_node name node = sort_by_age x.heap (routes_of name (info_of node) x.route_configs)

  -- hasRoutesFor
  unfoldable pub has_routes_for : Text → List Text → Bool
  unfolding find_node_and_cluster get_node_info
  has_routes_for name nodes =
      any
        (λ node.
          any
            (λ (e : Text × List PlacedRoute).
              find_node_and_cluster x.codec (info_of node) e.0
              && any (λ (rc : PlacedRoute). contains rc.listener_names name) e.1)
            x.route_configs)
        nodes

  unfoldable pub live_routes : Map Text (List PlacedRoute) → List ℕ
  live_routes [] = []
  live_routes ((node, []) ∷ rest) = live_routes rest
  live_routes ((node, rc ∷ rcs) ∷ rest) = rc.address ∷ live_routes ((node, rcs) ∷ rest)

  -- pruneChains
  unfoldable pub prune_chains : ListenerState Filter → ListenerState Filter
  unfolding prune live_routes
  prune_chains s = record s { chains = prune (live_routes x.route_configs) s.chains }

  -- listenerRecast
  unfoldable pub recast :
      ListenerObject Filter
      → List ℕ
      → ChainCache Filter
      → Option (Listener Filter × ChainCache Filter)
  unfolding listener_recast
  recast l rs cache = elim l.converted [
    | none ↦ none
    | some lds ↦ elim (listener_recast x.externs x.conversions x.heap l.name rs lds cache) [
      | err e ↦ none
      | ok p ↦ some p
    ]
  ]

  -- one round of the loop over the current nodes
  unfoldable pub rebuild :
      ListenerObject Filter → Text → ListenerState Filter → ListenerState Filter
  unfolding recast remove_listener_from_nodes update_listener_config get_routes_for_node
  rebuild l node s =
      let rs = get_routes_for_node l.name node in
      if not l.has_filter_chains && is_empty rs
      then remove_listener_from_nodes l.name (node ∷ []) s
      else elim (recast l rs s.chains) [
        | none ↦ s
        | some (lds, chains) ↦ update_listener_config node lds (record s { chains = chains })
      ]

  unfoldable pub rebuild_all :
      ListenerObject Filter → List Text → ListenerState Filter → ListenerState Filter
  unfolding rebuild
  rebuild_all l [] s = s
  rebuild_all l (node ∷ nodes) s = rebuild_all l nodes (rebuild l node s)

  -- getNodesForListener
  unfoldable pub get_nodes_for_listener : ListenerObject Filter → List Text
  unfolding with_defaults node_ids
  get_nodes_for_listener l =
      node_ids x.codec (with_defaults x.node_id x.cluster l.annotations) x.node_id x.cluster

  -- Reconcile for a listener that is found
  unfoldable pub serve : ListenerObject Filter → ListenerState Filter → ListenerState Filter
  unfolding rebuild_all remove_listener_from_nodes previous_nodes get_nodes_for_listener
      has_routes_for
  serve l s =
      let previous = previous_nodes l.name s.listener_configs in
      let current = get_nodes_for_listener l in
      if not l.has_filter_chains && not (has_routes_for l.name current)
      then remove_listener_from_nodes l.name previous s
      else rebuild_all l current
          (remove_listener_from_nodes l.name (keep (λ n. not (contains current n)) previous) s)

  -- whether the routes are placed, so that a listener can be built
  abbrev pub is_due : ReconciliationStatus → Bool
  is_due s = s.initialized routes && s.reconciled routes && s.reconciled domain_configs

  -- the end of Reconcile: the chains are pruned, and a reconcile without an error clears the mark
  abbrev pub finish : Text → ℕ → ListenerState Filter → ListenerState Filter
  finish key seq s =
      let t = prune_chains s in record t { status = clear_listener_pending key seq t.status }

  -- Reconcile of a name, with the key of its mark
  unfoldable pub reconcile_listener :
      Fetched Filter → Text → Text → ListenerState Filter → ListenerState Filter
  unfolding serve prune_chains remove_listener_from_nodes previous_nodes set_has
      listener_pending_seq clear_listener_pending
  reconcile_listener fetched name key s =
      let t = record s { status = set_has listeners true s.status } in
      let seq = listener_pending_seq key t.status in
      if not (is_due t.status) then t else elim fetched [
        | unreadable ↦ t
        | missing ↦
            finish key seq
              (remove_listener_from_nodes name (previous_nodes name t.listener_configs) t)
        | found l ↦ finish key seq (serve l t)
      ]
