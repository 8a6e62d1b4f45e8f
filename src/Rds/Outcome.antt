-- ===== src/Rds/Outcome.antt =====
-- controllers/rds/route_controller.go: who is served after a route has met its conflicts.
use xds_controller.Prelude.{
  true, false, none, Text, list_eq, nat_eq, pair_eq, List, [], ◌∷◌, contains, contains-append, All,
  ◌≡◌, ◌⊎◌, inl, inr, refl, arith, Bool-cases, if_cases, beq_of_eq, subst, sym, ◌∙◌,
}
use xds_controller.Api.{Route}
use xds_controller.Fcm.{Matcher}
use xds_controller.Util.{older_route}
use xds_controller.Rds.{RouteConflict, find_conflicts}
use xds_controller.Rds.Conflicts.{OldestFirst, find_conflicts-OldestFirst, not_older_trans}
use xds_controller.Rds.Placement.{
  Config, Placement, node_set, routes_on, remove_route_everywhere, update_route_configs, same,
  merge_names,
}
use xds_controller.Rds.Reconcile.{
  Key, Env, RouterState, key_of, add_losers, enqueue_route, remove_and_notify, notify_listeners,
  reject, evict, install, settle, older_conflict,
}
use xds_controller.Rds.Effects.{serves, AreDistinct, Is, put_at}
use xds_controller.Rds.Steps.{add_losers-config, reject-Is, drop_conflicts}
use xds_controller.Rds.Install.{entry, install-Is, self-Is}
use xds_controller.Rds.Closure.{evict-Closed, notify_listeners-Closed}
use xds_controller.Rds.Contest.{Keeps, Keeps-Closed, enqueue_route-queue}
use xds_controller.Rds.Retry.{has_older}

none_older :
    (rd : Route) (c : RouteConflict) (cs : List RouteConflict)
    → older_route c.route.age rd.age ≡ false
    → All (λ (d : RouteConflict). older_route d.route.age c.route.age ≡ false) cs
    → has_older rd cs ≡ false
none_older rd c [] h a = refl
none_older rd c (d ∷ cs) h a =
    ground (arith, not_older_trans rd.age c.route.age d.route.age a.0 h, none_older rd c cs h a.1)

-- Of conflicts in order, the first tells whether any is with an older route.
has_older-first :
    (rd : Route) (c : RouteConflict) (cs : List RouteConflict)
    → OldestFirst (c ∷ cs)
    → has_older rd (c ∷ cs) ≡ older_route c.route.age rd.age
has_older-first rd c cs o = ground (arith, none_older rd c cs, o.0)

-- Each conflict's route is in the queue.
abbrev pub AllQueued : List RouteConflict → RouterState → Type 0
AllQueued cs s = All (λ (c : RouteConflict). contains s.requeued (key_of c.route) ≡ true) cs

AllQueued-Keeps :
    (cs : List RouteConflict) (s t : RouterState) → Keeps s t → AllQueued cs s → AllQueued cs t
AllQueued-Keeps [] s t k h = tt
AllQueued-Keeps (c ∷ cs) s t k h = (k.queue (key_of c.route) h.0, AllQueued-Keeps cs s t k h.1)

module _ (env : Env) where
  evict-AllQueued :
      (cs : List RouteConflict) (s : RouterState)
      → env.requeues ≡ true
      → AllQueued cs (evict env cs s)
  unfolding evict contains
  evict-AllQueued [] s r = tt
  evict-AllQueued (c ∷ cs) s r =
      let swept =
        remove_and_notify env c.route.namespace (remove_route_everywhere c.route.age.name s.config)
          s in
      let next = enqueue_route env (key_of c.route) swept in
      let now : contains next.requeued (key_of c.route) ≡ true = ground (
        arith,
        enqueue_route-queue env r (key_of c.route) swept,
        contains-append (key_of c.route) swept.requeued (key_of c.route ∷ []),
        beq_of_eq (key_of c.route) (key_of c.route) refl,
      ) in
      (
        (evict-Closed Keeps Keeps-Closed env cs next).queue (key_of c.route) now,
        evict-AllQueued cs next r,
      )

  install-AllQueued :
      (rd : Route) (m : Matcher) (nodes : List Text) (previous : Placement)
      (cs : List RouteConflict) (s : RouterState)
      → env.requeues ≡ true
      → AllQueued cs (install env rd m nodes previous cs s)
  unfolding install
  install-AllQueued rd m nodes previous cs s r =
      let cleared = evict env cs s in
      let placed = record cleared {
        config = update_route_configs nodes (entry env rd m) cleared.config;
      } in
      let here : AllQueued cs placed = evict-AllQueued cs s r in
      elim (Bool-cases (same previous (node_set nodes) rd.listener_refs rd.generation)) [
        | inl e ↦ rw (e, install) here
        | inr e ↦
            let k =
              notify_listeners-Closed Keeps Keeps-Closed env rd.namespace
                (merge_names previous.listeners rd.listener_refs) placed in
            let told =
              notify_listeners env rd.namespace (merge_names previous.listeners rd.listener_refs)
                placed in
            rw (e, install)
              (AllQueued-Keeps cs placed told (record { losers = k.losers; queue = k.queue }) here)
      ]

  -- The route is served nowhere.
  abbrev pub Unserved : Text → Config → Type 0
  Unserved name config = (node : Text) → serves config node name ≡ none

  -- The nodes serve the route, and none of them, nor any other node, serves a route of the conflicts;
  -- all else is as it was.
  abbrev pub Supersedes :
      Route → Matcher → List Text → List RouteConflict → Config → Config → Type 0
  Supersedes rd m nodes cs before after =
      (node name : Text)
      → serves after node name
        ≡ put_at nodes (entry env rd m) (drop_conflicts env cs (serves before)) node name

  settle-older :
      (rd : Route) (m : Matcher) (key : Key) (nodes : List Text) (previous : Placement)
      (c : RouteConflict) (cs : List RouteConflict) (s : RouterState)
      → older_route c.route.age rd.age ≡ true
      → settle env rd m key nodes previous (c ∷ cs) s
        ≡ reject env rd previous
            (older_conflict c.route.age.name c.verdict)
            (add_losers rd key (c ∷ cs) s)
  unfolding settle
  settle-older rd m key nodes previous c cs s e =
      if_cases
        (λ t.
          t
          ≡ reject env rd previous (older_conflict c.route.age.name c.verdict)
              (add_losers rd key (c ∷ cs) s))
        (older_route c.route.age rd.age) (λ _. refl) (λ f. ground arith)

  settle-younger :
      (rd : Route) (m : Matcher) (key : Key) (nodes : List Text) (previous : Placement)
      (c : RouteConflict) (cs : List RouteConflict) (s : RouterState)
      → older_route c.route.age rd.age ≡ false
      → settle env rd m key nodes previous (c ∷ cs) s ≡ install env rd m nodes previous (c ∷ cs) s
  unfolding settle
  settle-younger rd m key nodes previous c cs s e =
      if_cases (λ t. t ≡ install env rd m nodes previous (c ∷ cs) s)
        (older_route c.route.age rd.age) (λ f. ground arith) (λ _. refl)

  settle_first :
      (rd : Route) (m : Matcher) (key : Key) (nodes : List Text) (previous : Placement)
      (cs : List RouteConflict) (s : RouterState)
      → OldestFirst cs
      → AreDistinct s.config
      → env.requeues ≡ true
      → ((has_older rd cs ≡ true)
          × Unserved rd.age.name (settle env rd m key nodes previous cs s).config)
        ⊎ ((has_older rd cs ≡ false)
            × Supersedes rd m nodes cs s.config (settle env rd m key nodes previous cs s).config
            × AllQueued cs (settle env rd m key nodes previous cs s))
  unfolding settle
  settle_first rd m key nodes previous [] s o d r = inr (
    refl,
    (install-Is env rd m nodes previous [] s (serves s.config) (self-Is s.config d)).view,
    tt,
  )
  settle_first rd m key nodes previous (c ∷ cs) s o d r =
      elim (Bool-cases (older_route c.route.age rd.age)) [
        | inl e ↦
            let t = add_losers rd key (c ∷ cs) s in
            let i =
              reject-Is env rd previous (older_conflict c.route.age.name c.verdict) t
                (serves s.config)
                (subst (λ config. Is config (serves s.config))
                  (sym (add_losers-config rd key (c ∷ cs) s)) (self-Is s.config d)) in
            inl (
              has_older-first rd c cs o ∙ e,
              subst (λ (u : RouterState). Unserved rd.age.name u.config)
                  (sym (settle-older rd m key nodes previous c cs s e))
                  (λ node.
                    ground
                      (arith, i.view node rd.age.name, beq_of_eq rd.age.name rd.age.name refl)),
            )
        | inr e ↦
            let i =
              install-Is env rd m nodes previous (c ∷ cs) s (serves s.config)
                (self-Is s.config d) in
            let eq = sym (settle-younger rd m key nodes previous c cs s e) in
            inr (
              has_older-first rd c cs o ∙ e,
              subst (λ (u : RouterState). Supersedes rd m nodes (c ∷ cs) s.config u.config) eq
                  i.view,
              subst (AllQueued (c ∷ cs)) eq (install-AllQueued rd m nodes previous (c ∷ cs) s r),
            )
      ]

  -- A route with its matcher meets the routes that it conflicts with on its nodes. If one of them is
  -- older, the route is served nowhere afterwards. Otherwise its nodes serve it, no node serves one
  -- of the others, every one of them is in the queue, and all else is served as before. No node had
  -- two routes of one name, and the queue exists.
  pub settle_outcome :
      (rd : Route) (m : Matcher) (key : Key) (nodes : List Text) (previous : Placement)
      (s : RouterState)
      → AreDistinct s.config
      → env.requeues ≡ true
      → let cs = find_conflicts env.compile rd m (routes_on (node_set nodes) s.config) in
        let out = settle env rd m key nodes previous cs s in
        ((has_older rd cs ≡ true) × Unserved rd.age.name out.config)
        ⊎ ((has_older rd cs ≡ false)
            × Supersedes rd m nodes cs s.config out.config
            × AllQueued cs out)
  settle_outcome rd m key nodes previous s d r =
      let rcs = routes_on (node_set nodes) s.config in
      settle_first rd m key nodes previous (find_conflicts env.compile rd m rcs) s
        (find_conflicts-OldestFirst env.compile rd m rcs) d r
