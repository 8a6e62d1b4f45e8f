-- ===== src/Rds/Closure.antt =====
-- controllers/rds/route_controller.go: relations that hold between the states before and after each
-- call of Reconcile hold before and after the whole of it.
use xds_controller.Prelude.{
  false, not, ◌||◌, if_cases, none, some, Text, list_eq, nat_eq, List, [], ◌∷◌, ◌++◌, is_empty,
}
use xds_controller.Api.{Route}
use xds_controller.Fcm.{Matcher}
use xds_controller.Util.{older_route}
use xds_controller.Status.{ReconciliationStatus, listeners, set_reconciled, mark_listener_pending}
use xds_controller.Rds.{RouteConfig, RouteConflict, find_conflicts}
use xds_controller.Registry.{keys}
use xds_controller.Rds.Placement.{
  Placement, node_set, same, merge_names, remove_route_at, remove_route_from_nodes,
  remove_route_everywhere, update_route_configs, nodes_to_remove, routes_on,
}
use xds_controller.Rds.Targets.{get_nodes_for_route, default_route, static_chain_conflict}
use xds_controller.Rds.Reconcile.{
  Key, Env, Reason, Report, RouterState, notify_each, notify_listeners, enqueue_route, add_loser,
  add_losers, remove_and_notify, unplace, reject, evict, install, settle, assign, serve, key_of,
  report, no_listener, no_listener_refs, bad_matcher, static_duplicate, older_conflict, key_text,
}

-- A relation that the elementary steps satisfy.
pub record Closed (R : RouterState → RouterState → Type 0) : Type 0 where
  pub stay : (s : RouterState) → R s s
  pub then : (s t u : RouterState) → R s t → R t u → R s u
  pub signal :
      (s : RouterState) (status : ReconciliationStatus) (events : List Key)
      → R s (record s { status = status; listener_events = events })
  pub enqueue : (s : RouterState) (key : Key) → R s (record s { requeued = s.requeued ++ key ∷ [] })
  pub lose : (s : RouterState) (winner loser : Key) → R s (add_loser winner loser s)
  pub tell : (s : RouterState) (reports : List Report) → R s (record s { reports = reports })
  pub remove :
      (s : RouterState) (name : Text) (nodes : List Text)
      → R s (record s { config = (remove_route_at name nodes ([], s.config)).1 })
  pub place :
      (s : RouterState) (nodes : List Text) (rc : RouteConfig)
      → R s (record s { config = update_route_configs nodes rc s.config })

module _ (R : RouterState → RouterState → Type 0) (k : Closed R) where
  notify_each-Closed :
      (namespace : Text) (names : List Text) (s : RouterState) → R s (notify_each namespace names s)
  unfolding notify_each
  notify_each-Closed namespace [] s = k.stay s
  notify_each-Closed namespace (name ∷ names) s =
      let key : Key = (namespace, name) in
      k.then s _ _
        (k.signal s (mark_listener_pending (key_text key) s.status) (s.listener_events ++ key ∷ []))
        (notify_each-Closed namespace names _)

  pub add_losers-Closed :
      (rd : Route) (key : Key) (cs : List RouteConflict) (s : RouterState)
      → R s (add_losers rd key cs s)
  unfolding add_losers
  add_losers-Closed rd key [] s = k.stay s
  add_losers-Closed rd key (c ∷ cs) s =
      if_cases (R s) (older_route c.route.age rd.age)
        (λ e.
          k.then s (add_loser (key_of c.route) key s) _ (k.lose s (key_of c.route) key)
            (add_losers-Closed rd key cs _))
        (λ e. add_losers-Closed rd key cs s)

  module _ (env : Env) where
    pub notify_listeners-Closed :
        (namespace : Text) (names : List Text) (s : RouterState)
        → R s (notify_listeners env namespace names s)
    unfolding notify_listeners
    notify_listeners-Closed namespace names s =
        if_cases (R s) (not env.notifies || is_empty names) (λ e. k.stay s)
          (λ e.
            k.then s _ _ (k.signal s (set_reconciled listeners false s.status) s.listener_events)
              (notify_each-Closed namespace names _))

    enqueue_route-Closed : (key : Key) (s : RouterState) → R s (enqueue_route env key s)
    unfolding enqueue_route
    enqueue_route-Closed key s = if_cases (R s) env.requeues (λ e. k.enqueue s key) (λ e. k.stay s)

    pub remove_and_notify-Closed :
        (namespace name : Text) (nodes names : List Text) (s : RouterState)
        → R s (
            remove_and_notify env namespace
              (names, (remove_route_at name nodes ([], s.config)).1)
              s)
    unfolding remove_and_notify
    remove_and_notify-Closed namespace name nodes names s =
        k.then s _ _ (k.remove s name nodes) (notify_listeners-Closed namespace names _)

    unplace-Closed :
        (rd : Route) (previous : Placement) (reason : Reason) (s : RouterState)
        → R s (unplace env rd previous reason s)
    unfolding unplace remove_route_from_nodes
    unplace-Closed rd previous reason s =
        k.then s _ _
          (remove_and_notify-Closed rd.namespace rd.age.name previous.nodes
            (remove_route_from_nodes rd.age.name previous.nodes s.config).0 s)
          (k.tell _ _)

    pub reject-Closed :
        (rd : Route) (previous : Placement) (reason : Reason) (s : RouterState)
        → R s (reject env rd previous reason s)
    unfolding reject remove_route_everywhere
    reject-Closed rd previous reason s =
        k.then s _ _
          (remove_and_notify-Closed rd.namespace rd.age.name (keys s.config.route_configs)
            (merge_names previous.listeners (remove_route_everywhere rd.age.name s.config).0) s)
          (k.tell _ _)

    pub evict-Closed : (cs : List RouteConflict) (s : RouterState) → R s (evict env cs s)
    unfolding evict remove_route_everywhere
    evict-Closed [] s = k.stay s
    evict-Closed (c ∷ cs) s =
        let removed = remove_route_everywhere c.route.age.name s.config in
        let swept = remove_and_notify env c.route.namespace removed s in
        k.then s swept _
          (remove_and_notify-Closed c.route.namespace c.route.age.name (keys s.config.route_configs)
            removed.0 s)
          (k.then swept (enqueue_route env (key_of c.route) swept) _
            (enqueue_route-Closed (key_of c.route) swept) (evict-Closed cs _))

    install-Closed :
        (rd : Route) (m : Matcher) (nodes : List Text) (previous : Placement)
        (cs : List RouteConflict) (s : RouterState)
        → R s (install env rd m nodes previous cs s)
    unfolding install
    install-Closed rd m nodes previous cs s =
        let rc : RouteConfig = record {
          listener_names = rd.listener_refs;
          route = rd;
          matcher = some m;
        } in
        let cleared = evict env cs s in
        let placed = record cleared { config = update_route_configs nodes rc cleared.config } in
        k.then s cleared _ (evict-Closed cs s) (
          k.then cleared placed _ (k.place cleared nodes rc) (
            k.then placed _ _
              (if_cases (R placed) (same previous (node_set nodes) rd.listener_refs rd.generation)
                (λ e. k.stay placed)
                (λ e.
                  notify_listeners-Closed rd.namespace
                    (merge_names previous.listeners rd.listener_refs) placed))
              (k.tell _ _)))

    settle-Closed :
        (rd : Route) (m : Matcher) (key : Key) (nodes : List Text) (previous : Placement)
        (cs : List RouteConflict) (s : RouterState)
        → R s (settle env rd m key nodes previous cs s)
    unfolding settle
    settle-Closed rd m key nodes previous [] s = install-Closed rd m nodes previous [] s
    settle-Closed rd m key nodes previous (c ∷ cs) s =
        if_cases (R s) (older_route c.route.age rd.age)
          (λ e.
            k.then s (add_losers rd key (c ∷ cs) s) _ (add_losers-Closed rd key (c ∷ cs) s)
              (reject-Closed rd previous (older_conflict c.route.age.name c.verdict) _))
          (λ e. install-Closed rd m nodes previous (c ∷ cs) s)

    assign-Closed :
        (rd : Route) (m : Matcher) (key : Key) (previous : Placement) (s : RouterState)
        → R s (assign env rd m key previous s)
    unfolding assign remove_route_from_nodes
    assign-Closed rd m key previous s =
        let nodes = get_nodes_for_route env.context rd rd.listener_refs key.0 in
        let current = node_set nodes in
        let gone = nodes_to_remove previous current in
        let removed = remove_route_from_nodes key.1 gone s.config in
        let swept = remove_and_notify env key.0 removed s in
        let cs = find_conflicts env.compile rd m (routes_on current swept.config) in
        let first : R s swept = remove_and_notify-Closed key.0 key.1 gone removed.0 s in
        if_cases (R s) (is_empty nodes) (λ e. unplace-Closed rd previous no_listener s)
          (λ e.
            elim (static_chain_conflict env.context rd m current)
              as (λ o. R s (elim o [
                | some name ↦ reject env rd previous (static_duplicate name) swept
                | none ↦ settle env rd m key nodes previous cs swept
              ])) [
                | some name ↦
                    k.then s swept _ first (reject-Closed rd previous (static_duplicate name) swept)
                | none ↦ k.then s swept _ first (settle-Closed rd m key nodes previous cs swept)
              ])

    -- The part of Reconcile for a route that is found.
    pub serve-Closed :
        (rd : Route) (key : Key) (previous : Placement) (s : RouterState)
        → R s (serve env rd key previous s)
    unfolding serve
    serve-Closed rd key previous s =
        if_cases (R s) (is_empty rd.listener_refs)
          (λ e. unplace-Closed rd previous no_listener_refs s)
          (λ e.
            if_cases (R s) (not (env.recasts rd)) (λ f. k.tell s _)
              (λ f.
                elim (env.compile rd)
                  as (λ o. R s (elim o [
                    | none ↦ report rd false [] 0 bad_matcher s
                    | some m ↦ assign env (default_route env.context rd) m key previous s
                  ])) [
                    | none ↦ k.tell s _
                    | some m ↦ assign-Closed (default_route env.context rd) m key previous s
                  ]))
