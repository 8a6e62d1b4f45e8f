-- ===== src/Rds/Invariant.antt =====
-- controllers/rds/route_controller.go: Reconcile keeps the routes of every node apart.
use xds_controller.Prelude.{
  contains-keep, true, not, some, Text, list_eq, nat_eq, List, ◌∷◌, contains, is_empty, ◌≡◌, refl,
  arith, Bool-cases, Option-cases, inl, inr, beq_of_eq, subst, sym, ap, ◌∙◌,
}
use xds_controller.Api.{Route}
use xds_controller.Fcm.{Matcher}
use xds_controller.Status.{routes, set_has}
use xds_controller.Rds.{RouteConfig, find_conflicts}
use xds_controller.Rds.Placement.{
  Config, node_set, nodes_to_remove, routes_on, route_placement, remove_route_from_nodes,
}
use xds_controller.Rds.Targets.{get_nodes_for_route, default_route, static_chain_conflict}
use xds_controller.Rds.Reconcile.{
  Key, Env, RouterState, Fetched, found, missing, unreadable, key_of, static_duplicate,
  older_conflict, no_listener, no_listener_refs, add_losers, remove_and_notify, assign, serve,
  reconcile,
}
use xds_controller.Rds.Effects.{serves, drop_at, remove_route_from_nodes-Is}
use xds_controller.Rds.Served.{contains-node_set, route_placement-nodes}
use xds_controller.Rds.Steps.{add_losers-config, remove_and_notify-config, requeue_losers-config}
use xds_controller.Rds.Install.{
  IsServed, Answers, IsServed-of, self-Is, drop_at-Coherent, unplace-IsServed, reject-IsServed,
  install-IsServed, settle-cases,
}

module _ (env : Env) where
  remove-IsServed :
      (namespace name : Text) (nodes : List Text) (s : RouterState)
      → IsServed s.config
      → IsServed
          (remove_and_notify env namespace (remove_route_from_nodes name nodes s.config) s).config
  remove-IsServed namespace name nodes s v =
      let removed = remove_route_from_nodes name nodes s.config in
      subst IsServed (sym (remove_and_notify-config env namespace removed s)) (
        IsServed-of removed.1 (drop_at nodes name (serves s.config))
          (remove_route_from_nodes-Is name nodes s.config (serves s.config)
            (self-Is s.config v.distinct))
          (drop_at-Coherent nodes name (serves s.config) v.coherent))

  -- After the first removal the route is on its current nodes only.
  swept-only :
      (name : Text) (nodes : List Text) (config : Config)
      → IsServed config
      → let removed =
          remove_route_from_nodes name
            (nodes_to_remove (route_placement name config) (node_set nodes))
            config in
        (k : Text) (a : RouteConfig) → serves removed.1 k name ≡ some a → contains nodes k ≡ true
  swept-only name nodes config v k a h =
      let previous = route_placement name config in
      let current = node_set nodes in
      let gone = nodes_to_remove previous current in
      let i =
        remove_route_from_nodes-Is name gone config (serves config) (self-Is config v.distinct) in
      ground (
        arith,
        i.view k name,
        route_placement-nodes name k config a,
        contains-node_set k nodes,
        contains-keep (λ n. not (contains current n)) k previous.nodes,
        beq_of_eq name name refl,
      )

  assign-IsServed :
      (rd : Route) (m : Matcher) (key : Key) (s : RouterState)
      → key_of rd ≡ key
      → IsServed s.config
      → IsServed (assign env rd m key (route_placement key.1 s.config) s).config
  unfolding assign
  assign-IsServed rd m key s named v =
      let previous = route_placement key.1 s.config in
      let nodes = get_nodes_for_route env.context rd rd.listener_refs key.0 in
      let current = node_set nodes in
      let gone = nodes_to_remove previous current in
      let removed = remove_route_from_nodes key.1 gone s.config in
      let swept = remove_and_notify env key.0 removed s in
      let w : IsServed swept.config = remove-IsServed key.0 key.1 gone s v in
      let cs = find_conflicts env.compile rd m (routes_on current swept.config) in
      let name : key.1 ≡ rd.age.name = sym (ap (λ (k : Key). k.1) named) in
      let only : (k : Text) (a : RouteConfig)
          → serves swept.config k rd.age.name ≡ some a
          → contains nodes k ≡ true =
        λ k a h. swept-only key.1 nodes s.config v k a (
          subst (λ n. serves removed.1 k n ≡ some a) (sym name)
            (subst (λ config. serves config k rd.age.name ≡ some a)
              (remove_and_notify-config env key.0 removed s) h)) in
      elim (Bool-cases (is_empty nodes)) [
        | inl e ↦ rw (e, assign) (unplace-IsServed env rd previous no_listener s v)
        | inr e ↦ elim (Option-cases (static_chain_conflict env.context rd m current)) [
          | inr (l, q) ↦
              rw (e, q, assign) (reject-IsServed env rd previous (static_duplicate l) swept w)
          | inl q ↦
              rw (e, q, assign)
                (settle-cases env (λ t. IsServed t.config) rd m key nodes previous cs swept
                  (install-IsServed env rd m nodes previous swept w only)
                  (λ c rest eq older.
                    reject-IsServed env rd previous (older_conflict c.route.age.name c.verdict)
                      (add_losers rd key (c ∷ rest) swept)
                      (subst IsServed (sym (add_losers-config rd key (c ∷ rest) swept)) w)))
        ]
      ]

  default_route-key : (rd : Route) → key_of (default_route env.context rd) ≡ key_of rd
  unfolding default_route
  default_route-key rd = refl

  serve-IsServed :
      (rd : Route) (key : Key) (s : RouterState)
      → key_of rd ≡ key
      → IsServed s.config
      → IsServed (serve env rd key (route_placement key.1 s.config) s).config
  unfolding serve
  serve-IsServed rd key s named v =
      let previous = route_placement key.1 s.config in
      elim (Bool-cases (is_empty rd.listener_refs)) [
        | inl e ↦ rw (e, serve) (unplace-IsServed env rd previous no_listener_refs s v)
        | inr e ↦ elim (Bool-cases (env.recasts rd)) [
          | inr r ↦ rw (e, r, serve) v
          | inl r ↦ elim (Option-cases (env.compile rd)) [
            | inl c ↦ rw (e, r, c, serve) v
            | inr (m, c) ↦
                rw (e, r, c, serve)
                  (assign-IsServed (default_route env.context rd) m key s
                    (default_route-key rd ∙ named) v)
          ]
        ]
      ]

  -- Reconcile keeps the configuration such that no node has two routes of one name, a route is the
  -- same on all of its nodes and has its matcher there, and the filter chains of any two routes of a
  -- node do not collide. The route read is the one of the request.
  pub reconcile-IsServed :
      (fetched : Fetched) (key : Key) (s : RouterState)
      → Answers fetched key
      → IsServed s.config
      → IsServed (reconcile env fetched key s).config
  unfolding reconcile
  reconcile-IsServed unreadable key s a v = v
  reconcile-IsServed missing key s a v =
      let t = record s { status = set_has routes true s.status } in
      let previous = route_placement key.1 s.config in
      subst IsServed (sym (requeue_losers-config env key _))
        (remove-IsServed key.0 key.1 previous.nodes t v)
  reconcile-IsServed (found rd) key s a v =
      let t = record s { status = set_has routes true s.status } in
      subst IsServed (sym (requeue_losers-config env key _)) (serve-IsServed rd key t a v)
