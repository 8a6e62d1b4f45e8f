-- ===== src/Rds/Steps.antt =====
-- controllers/rds/route_controller.go: what the calls of Reconcile do to the configuration.
use xds_controller.Prelude.{
  not, ◌||◌, if◌then◌else◌, none, Text, list_eq, nat_eq, List, [], ◌∷◌, ◌≡◌, refl, arith,
  Bool-cases, is_empty, pair_eq, inl, inr, subst, sym,
}
use xds_controller.Api.{Route}
use xds_controller.Util.{older_route}
use xds_controller.Snapshot.{items}
use xds_controller.Rds.{RouteConflict}
use xds_controller.Rds.Placement.{
  Config, Placement, merge_names, remove_route_from_nodes, remove_route_everywhere,
}
use xds_controller.Rds.Effects.{
  Routes, Is, Is-ext, drop_all, drop_at, remove_route_everywhere-Is, remove_route_from_nodes-Is,
}
use xds_controller.Rds.Coherence.{hits}
use xds_controller.Rds.Reconcile.{
  Key, Env, Reason, RouterState, notify_each, notify_listeners, enqueue_route, enqueue_routes,
  requeue_losers, add_loser, add_losers, remove_and_notify, unplace, reject, evict, key_of,
}

notify_each-config :
    (namespace : Text) (names : List Text) (s : RouterState)
    → (notify_each namespace names s).config ≡ s.config
unfolding notify_each
notify_each-config namespace [] s = refl
notify_each-config namespace (name ∷ names) s = notify_each-config namespace names _

pub add_losers-config :
    (rd : Route) (key : Key) (cs : List RouteConflict) (s : RouterState)
    → (add_losers rd key cs s).config ≡ s.config
unfolding add_losers add_loser
add_losers-config rd key [] s = refl
add_losers-config rd key (c ∷ cs) s = elim (Bool-cases (older_route c.route.age rd.age)) [
  | inl e ↦ rw e (add_losers-config rd key cs (add_loser (key_of c.route) key s))
  | inr e ↦ rw e (add_losers-config rd key cs s)
]

module _ (env : Env) where
  pub notify_listeners-config :
      (namespace : Text) (names : List Text) (s : RouterState)
      → (notify_listeners env namespace names s).config ≡ s.config
  unfolding notify_listeners
  notify_listeners-config namespace names s =
      elim (Bool-cases (not env.notifies || is_empty names)) [
        | inl e ↦ rw (e, notify_listeners) refl
        | inr e ↦ rw (e, notify_listeners) (notify_each-config namespace names _)
      ]

  enqueue_routes-config :
      (keys : List Key) (s : RouterState) → (enqueue_routes env keys s).config ≡ s.config
  unfolding enqueue_routes enqueue_route
  enqueue_routes-config [] s = refl
  enqueue_routes-config (key ∷ keys) s =
      ground (arith, enqueue_routes-config keys (enqueue_route env key s))

  pub requeue_losers-config :
      (winner : Key) (s : RouterState) → (requeue_losers env winner s).config ≡ s.config
  unfolding requeue_losers
  requeue_losers-config winner s = enqueue_routes-config (items winner s.losers) _

  pub remove_and_notify-config :
      (namespace : Text) (removed : List Text × Config) (s : RouterState)
      → (remove_and_notify env namespace removed s).config ≡ removed.1
  unfolding remove_and_notify
  remove_and_notify-config namespace removed s =
      notify_listeners-config namespace removed.0 (record s { config = removed.1 })

  pub unplace-Is :
      (rd : Route) (previous : Placement) (reason : Reason) (s : RouterState) (f : Routes)
      → Is s.config f
      → Is (unplace env rd previous reason s).config (drop_at previous.nodes rd.age.name f)
  unfolding unplace
  unplace-Is rd previous reason s f i =
      let removed = remove_route_from_nodes rd.age.name previous.nodes s.config in
      subst (λ config. Is config (drop_at previous.nodes rd.age.name f))
        (sym (remove_and_notify-config rd.namespace removed s))
        (remove_route_from_nodes-Is rd.age.name previous.nodes s.config f i)

  pub reject-Is :
      (rd : Route) (previous : Placement) (reason : Reason) (s : RouterState) (f : Routes)
      → Is s.config f
      → Is (reject env rd previous reason s).config (drop_all rd.age.name f)
  unfolding reject
  reject-Is rd previous reason s f i =
      let removed = remove_route_everywhere rd.age.name s.config in
      subst (λ config. Is config (drop_all rd.age.name f))
        (sym (
          remove_and_notify-config rd.namespace
            (merge_names previous.listeners removed.0, removed.1) s))
        (remove_route_everywhere-Is rd.age.name s.config f i)

  abbrev pub drop_conflicts : List RouteConflict → Routes → Routes
  drop_conflicts cs f m n = if hits n cs then none else f m n

  pub evict-Is :
      (cs : List RouteConflict) (s : RouterState) (f : Routes)
      → Is s.config f
      → Is (evict env cs s).config (drop_conflicts cs f)
  unfolding evict enqueue_route
  evict-Is [] s f i = Is-ext s.config f (drop_conflicts [] f) i (λ m n. refl)
  evict-Is (c ∷ cs) s f i =
      let name = c.route.age.name in
      let removed = remove_route_everywhere name s.config in
      let swept = remove_and_notify env c.route.namespace removed s in
      let next = enqueue_route env (key_of c.route) swept in
      let kept : next.config ≡ removed.1 =
        ground (arith, remove_and_notify-config c.route.namespace removed s) in
      Is-ext (evict env cs next).config (drop_conflicts cs (drop_all name f))
        (drop_conflicts (c ∷ cs) f)
        (evict-Is cs next (drop_all name f) (
          subst (λ config. Is config (drop_all name f)) (sym kept)
            (remove_route_everywhere-Is name s.config f i)))
        (λ m n. ground arith)
