-- ===== src/Rds/Counter.antt =====
-- controllers/rds/route_controller.go: the counter of configuration changes, by which the server
-- notices that there is something new to serve.
use xds_controller.Prelude.{
  ◌<◌, true, Text, list_eq, nat_eq, List, [], ◌∷◌, ◌≡◌, ◌⊎◌, inl, inr, refl, arith, Option-cases,
  subst, sym, ◌∙◌,
}
use xds_controller.Status.{routes, set_has}
use xds_controller.Snapshot.{items}
use xds_controller.Registry.View.{find}
use xds_controller.Rds.{RouteConfig}
use xds_controller.Rds.Placement.{
  Config, route_name, remove_route_locked, remove_route_at, remove_route_from_nodes,
  update_route_config, update_route_configs, route_placement,
}
use xds_controller.Rds.Reconcile.{
  Key, Env, RouterState, Fetched, found, missing, unreadable, add_loser, reconcile,
}
use xds_controller.Rds.Steps.{requeue_losers-config, remove_and_notify-config}
use xds_controller.Rds.Closure.{Closed, serve-Closed}

-- Nothing changed, or the counter grew.
abbrev pub Moved : Config → Config → Type 0
Moved a b = (b ≡ a) ⊎ (a.counter < b.counter)

Moved-trans : (a b c : Config) → Moved a b → Moved b c → Moved a c
Moved-trans a b c (inl p) (inl q) = inl (q ∙ p)
Moved-trans a b c (inl p) (inr q) = inr (subst (λ (x : Config). x.counter < c.counter) p q)
Moved-trans a b c (inr p) (inl q) = inr (subst (λ (x : Config). a.counter < x.counter) (sym q) p)
Moved-trans a b c (inr p) (inr q) = inr (omega arith)

remove_route_locked-Moved :
    (node name : Text) (acc : List Text × Config)
    → Moved acc.1 (remove_route_locked node name acc).1
unfolding remove_route_locked
remove_route_locked-Moved node name (ls, config) =
    elim (Option-cases (find route_name name (items node config.route_configs))) [
      | inl e ↦ rw (e, remove_route_locked) (inl refl)
      | inr (rc, e) ↦ rw (e, remove_route_locked) (inr (omega arith))
    ]

remove_route_at-Moved :
    (name : Text) (nodes : List Text) (acc : List Text × Config)
    → Moved acc.1 (remove_route_at name nodes acc).1
unfolding remove_route_at
remove_route_at-Moved name [] acc = inl refl
remove_route_at-Moved name (node ∷ nodes) acc =
    Moved-trans acc.1 (remove_route_locked node name acc).1 _
      (remove_route_locked-Moved node name acc)
      (remove_route_at-Moved name nodes (remove_route_locked node name acc))

update_route_configs-Moved :
    (nodes : List Text) (rc : RouteConfig) (config : Config)
    → Moved config (update_route_configs nodes rc config)
unfolding update_route_configs update_route_config
update_route_configs-Moved [] rc config = inl refl
update_route_configs-Moved (node ∷ nodes) rc config =
    Moved-trans config (update_route_config node rc config) _ (inr (omega arith))
      (update_route_configs-Moved nodes rc (update_route_config node rc config))

Moved-Closed : Closed (λ s t. Moved s.config t.config)
unfolding add_loser
Moved-Closed = record {
  stay = λ s. inl refl;
  then = λ s t u a b. Moved-trans s.config t.config u.config a b;
  signal = λ s status events. inl refl;
  enqueue = λ s key. inl refl;
  lose = λ s winner loser. inl refl;
  tell = λ s reports. inl refl;
  remove = λ s name nodes. remove_route_at-Moved name nodes ([], s.config);
  place = λ s nodes rc. update_route_configs-Moved nodes rc s.config;
}

-- A reconcile that leaves the counter of configuration changes as it was has left the configuration
-- as it was, whatever the API server answered.
reconcile-counted :
    (env : Env) (fetched : Fetched) (key : Key) (s : RouterState)
    → Moved s.config (reconcile env fetched key s).config
unfolding reconcile
reconcile-counted env unreadable key s = inl refl
reconcile-counted env missing key s =
    let t = record s { status = set_has routes true s.status } in
    let removed = remove_route_from_nodes key.1 (route_placement key.1 s.config).nodes s.config in
    subst (Moved s.config)
      (sym (requeue_losers-config env key _ ∙ remove_and_notify-config env key.0 removed t))
      (remove_route_at-Moved key.1 (route_placement key.1 s.config).nodes ([], s.config))
reconcile-counted env (found rd) key s =
    let t = record s { status = set_has routes true s.status } in
    subst (Moved s.config) (sym (requeue_losers-config env key _)) (
      serve-Closed (λ a b. Moved a.config b.config) Moved-Closed env rd key
        (route_placement key.1 s.config) t)
