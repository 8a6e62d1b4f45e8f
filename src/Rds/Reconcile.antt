-- ===== src/Rds/Reconcile.antt =====
-- controllers/rds/route_controller.go: Reconcile and what it calls. The reconciles of routes run one
-- after the other. The channels are read, and the call's context does not end early, so that every
-- send succeeds; a call of updateRouteStatus is recorded by its arguments. The flag of the routes,
-- which a timer sets a second after the last reconcile, metrics and log lines are left out.
use xds_controller.Prelude.{
  ℕ, Bool, true, false, not, ◌||◌, if◌then◌else◌, Option, none, some, Text, Map, insert, delete,
  list_eq, nat_eq, pair_eq, List, [], ◌∷◌, ◌++◌, contains, is_empty, length, codes,
}
use xds_controller.Util.{older_route}
use xds_controller.Fcm.{Verdict, Matcher}
use xds_controller.Api.{Route}
use xds_controller.Status.{
  ReconciliationStatus, listeners, routes, set_has, set_reconciled, mark_listener_pending,
}
use xds_controller.Rds.{RouteConfig, RouteConflict, find_conflicts}
use xds_controller.Snapshot.{items}
use xds_controller.Rds.Placement.{
  Config, Placement, merge_names, node_set, same, route_placement, remove_route_from_nodes,
  remove_route_everywhere, update_route_configs, nodes_to_remove, routes_on,
}
use xds_controller.Rds.Targets.{Context, get_nodes_for_route, default_route, static_chain_conflict}

-- types.NamespacedName: namespace and name
abbrev pub Key : Type 0
Key = Text × Text

-- key.String()
abbrev pub key_text : Key → Text
key_text (namespace, name) = namespace ++ codes "/" ++ name

abbrev pub key_of : Route → Key
key_of route = (route.namespace, route.age.name)

-- the message of a status
pub data Reason : Type 0 where
  served no_listener_refs not_recast bad_matcher no_listener : Reason
  static_duplicate : Text → Reason
  older_conflict : Text → Verdict → Reason

-- the arguments of updateRouteStatus
pub record Report : Type 0 where
  pub key : Key
  pub active : Bool
  pub nodes : List Text
  pub listener_names : List Text
  pub virtual_host_count : ℕ
  pub reason : Reason

-- What Reconcile writes: the configuration, the flags, the channels to the controllers of the
-- listeners and of the routes, and the losers.
pub record RouterState : Type 0 where
  pub config : Config
  pub status : ReconciliationStatus
  pub listener_events : List Key
  pub losers : Map Key (List Key)
  pub requeued : List Key
  pub reports : List Report

-- What the reconciler is set up with: whether the channels are there, whether RouteRecast succeeds,
-- and fcm.Compile of a route's match.
pub record Env : Type 0 where
  pub context : Context
  pub notifies : Bool
  pub requeues : Bool
  pub recasts : Route → Bool
  pub compile : Route → Option Matcher

-- r.Get of the route
pub data Fetched : Type 0 where
  found : Route → Fetched
  missing unreadable : Fetched

unfoldable pub notify_each : Text → List Text → RouterState → RouterState
unfolding mark_listener_pending
notify_each namespace [] s = s
notify_each namespace (name ∷ names) s =
    let key : Key = (namespace, name) in
    notify_each namespace names (record s {
      status = mark_listener_pending (key_text key) s.status;
      listener_events = s.listener_events ++ key ∷ [];
    })

-- addLoser
unfoldable pub add_loser : Key → Key → RouterState → RouterState
add_loser winner loser s =
    let known = items winner s.losers in
    record s {
      losers = insert winner (if contains known loser then known else known ++ loser ∷ []) s.losers;
    }

-- the loop of Reconcile that records the loser
unfoldable pub add_losers : Route → Key → List RouteConflict → RouterState → RouterState
unfolding add_loser
add_losers rd key [] s = s
add_losers rd key (c ∷ cs) s =
    if older_route c.route.age rd.age
    then add_losers rd key cs (add_loser (key_of c.route) key s)
    else add_losers rd key cs s

abbrev pub report : Route → Bool → List Text → ℕ → Reason → RouterState → RouterState
report rd active nodes hosts reason s = record s {
  reports =
      s.reports
      ++ record {
        key = key_of rd;
        active = active;
        nodes = nodes;
        listener_names = rd.listener_refs;
        virtual_host_count = hosts;
        reason = reason;
      }
        ∷ [];
}

abbrev pub host_count : Route → ℕ
host_count rd = elim rd.virtual_hosts [ none ↦ 0 | some hosts ↦ length hosts ]

module _ (env : Env) where
  -- notifyListeners
  unfoldable pub notify_listeners : Text → List Text → RouterState → RouterState
  unfolding notify_each set_reconciled
  notify_listeners namespace names s =
      if not env.notifies || is_empty names
      then s
      else notify_each namespace names
          (record s { status = set_reconciled listeners false s.status })

  -- enqueueRoute
  unfoldable pub enqueue_route : Key → RouterState → RouterState
  enqueue_route key s = if env.requeues then record s { requeued = s.requeued ++ key ∷ [] } else s

  unfoldable pub enqueue_routes : List Key → RouterState → RouterState
  unfolding enqueue_route
  enqueue_routes [] s = s
  enqueue_routes (key ∷ keys) s = enqueue_routes keys (enqueue_route key s)

  -- requeueLosers
  unfoldable pub requeue_losers : Key → RouterState → RouterState
  unfolding enqueue_routes
  requeue_losers winner s =
      enqueue_routes (items winner s.losers) (record s { losers = delete winner s.losers })

  -- a removal, and the notification of the listeners that it returns
  unfoldable pub remove_and_notify : Text → List Text × Config → RouterState → RouterState
  unfolding notify_listeners
  remove_and_notify namespace removed s =
      notify_listeners namespace removed.0 (record s { config = removed.1 })

  -- unplace
  unfoldable pub unplace : Route → Placement → Reason → RouterState → RouterState
  unfolding remove_and_notify remove_route_from_nodes
  unplace rd previous reason s = report rd false [] 0 reason (
      remove_and_notify rd.namespace (remove_route_from_nodes rd.age.name previous.nodes s.config)
        s)

  -- reject
  unfoldable pub reject : Route → Placement → Reason → RouterState → RouterState
  unfolding remove_and_notify remove_route_everywhere merge_names
  reject rd previous reason s =
      let removed = remove_route_everywhere rd.age.name s.config in
      report rd false [] 0 reason
        (remove_and_notify rd.namespace (merge_names previous.listeners removed.0, removed.1) s)

  -- the loop of Reconcile that removes the routes that lose
  unfoldable pub evict : List RouteConflict → RouterState → RouterState
  unfolding remove_and_notify remove_route_everywhere enqueue_route
  evict [] s = s
  evict (c ∷ cs) s =
      let swept =
        remove_and_notify c.route.namespace (remove_route_everywhere c.route.age.name s.config) s in
      evict cs (enqueue_route (key_of c.route) swept)

  -- the end of Reconcile: the conflicts are evicted, and the route is placed
  unfoldable pub install :
      Route → Matcher → List Text → Placement → List RouteConflict → RouterState → RouterState
  unfolding evict update_route_configs notify_listeners same merge_names node_set
  install rd m nodes previous conflicts s =
      let rc : RouteConfig = record {
        listener_names = rd.listener_refs;
        route = rd;
        matcher = some m;
      } in
      let cleared = evict conflicts s in
      let placed = record cleared { config = update_route_configs nodes rc cleared.config } in
      let told =
        if same previous (node_set nodes) rd.listener_refs rd.generation
        then placed
        else notify_listeners rd.namespace (merge_names previous.listeners rd.listener_refs)
            placed in
      report rd true nodes (host_count rd) served told

  -- the route against its conflicts, the oldest first
  unfoldable pub settle :
      Route → Matcher → Key → List Text → Placement → List RouteConflict → RouterState → RouterState
  unfolding install reject add_losers
  settle rd m key nodes previous [] s = install rd m nodes previous [] s
  settle rd m key nodes previous (c ∷ cs) s =
      if older_route c.route.age rd.age
      then reject rd previous (older_conflict c.route.age.name c.verdict)
          (add_losers rd key (c ∷ cs) s)
      else install rd m nodes previous (c ∷ cs) s

  -- Reconcile from getNodesForRoute on, for a route with its defaults
  unfoldable pub assign : Route → Matcher → Key → Placement → RouterState → RouterState
  unfolding unplace reject settle get_nodes_for_route static_chain_conflict node_set routes_on
      remove_and_notify remove_route_from_nodes find_conflicts
  assign rd m key previous s =
      let nodes = get_nodes_for_route env.context rd rd.listener_refs key.0 in
      let current = node_set nodes in
      let swept =
        remove_and_notify key.0
          (remove_route_from_nodes key.1 (nodes_to_remove previous current) s.config) s in
      if is_empty nodes
      then unplace rd previous no_listener s
      else elim (static_chain_conflict env.context rd m current) [
        | some name ↦ reject rd previous (static_duplicate name) swept
        | none ↦
            settle rd m key nodes previous
              (find_conflicts env.compile rd m (routes_on current swept.config)) swept
      ]

  unfoldable pub serve : Route → Key → Placement → RouterState → RouterState
  unfolding unplace assign default_route
  serve rd key previous s =
      if is_empty rd.listener_refs
      then unplace rd previous no_listener_refs s
      else if not (env.recasts rd)
      then report rd false [] 0 not_recast s
      else elim (env.compile rd) [
        | none ↦ report rd false [] 0 bad_matcher s
        | some m ↦ assign (default_route env.context rd) m key previous s
      ]

  -- Reconcile
  unfoldable pub reconcile : Fetched → Key → RouterState → RouterState
  unfolding serve requeue_losers remove_and_notify remove_route_from_nodes route_placement set_has
  reconcile unreadable key s = record s { status = set_has routes true s.status }
  reconcile missing key s =
      let t = record s { status = set_has routes true s.status } in
      let previous = route_placement key.1 t.config in
      requeue_losers key
        (remove_and_notify key.0 (remove_route_from_nodes key.1 previous.nodes t.config) t)
  reconcile (found rd) key s =
      let t = record s { status = set_has routes true s.status } in
      requeue_losers key (serve rd key (route_placement key.1 t.config) t)
