-- ===== src/Rds/Install.antt =====
-- controllers/rds/route_controller.go: the ways in which Reconcile ends, and the routes they leave on
-- each node.
use xds_controller.Prelude.{
  true, false, some, Text, list_eq, nat_eq, List, [], ◌∷◌, contains, ◌≡◌, refl, arith, Bool-cases,
  if_cases, inl, inr, eq_of_beq, beq_of_eq, subst, sym, ◌∙◌,
}
use xds_controller.Api.{Route}
use xds_controller.Fcm.{Matcher}
use xds_controller.Util.{older_route}
use xds_controller.Rds.{RouteConfig, RouteConflict, find_conflicts}
use xds_controller.Rds.Placement.{
  Config, Placement, route_name, node_set, routes_on, update_route_configs, same, merge_names,
}
use xds_controller.Rds.Reconcile.{
  Key, Env, Reason, RouterState, Fetched, found, missing, unreadable, key_of, older_conflict,
  add_losers, unplace, reject, evict, install, settle,
}
use xds_controller.Rds.Effects.{
  Routes, serves, AreDistinct, Is, drop_all, drop_at, put_at, update_route_configs-Is,
}
use xds_controller.Rds.Coherence.{
  Coherent, Coherent-fewer, Coherent-put, Fits, hits, find_conflicts-hits,
}
use xds_controller.Rds.Served.{find-named, contains-node_set, routes_on-Alone, routes_on-named}
use xds_controller.Rds.Steps.{
  notify_listeners-config, unplace-Is, reject-Is, evict-Is, drop_conflicts,
}

-- The names on a node differ, a route is the same wherever it is served, with a matcher, and no two
-- routes of a node collide.
pub record IsServed (config : Config) : Type 0 where
  pub distinct : AreDistinct config
  pub coherent : Coherent (serves config)

-- The API server answers with the object that was asked for.
abbrev pub Answers : Fetched → Key → Type 0
Answers (found rd) key = key_of rd ≡ key
Answers missing key = Unit
Answers unreadable key = Unit

pub IsServed-of : (config : Config) (f : Routes) → Is config f → Coherent f → IsServed config
IsServed-of config f i c = record {
  distinct = i.distinct;
  coherent = Coherent-fewer f (serves config) (λ m n a h. sym (i.view m n) ∙ h) c;
}

pub self-Is : (config : Config) → AreDistinct config → Is config (serves config)
self-Is config d = record { distinct = d; view = λ m n. refl }

drop_all-Coherent : (name : Text) (f : Routes) → Coherent f → Coherent (drop_all name f)
drop_all-Coherent name f c = Coherent-fewer f (drop_all name f) (λ m n a h. ground arith) c

pub drop_at-Coherent :
    (ms : List Text) (name : Text) (f : Routes) → Coherent f → Coherent (drop_at ms name f)
drop_at-Coherent ms name f c = Coherent-fewer f (drop_at ms name f) (λ m n a h. ground arith) c

module _ (env : Env) where
  pub reject-IsServed :
      (rd : Route) (previous : Placement) (reason : Reason) (s : RouterState)
      → IsServed s.config
      → IsServed (reject env rd previous reason s).config
  reject-IsServed rd previous reason s v =
      let f = serves s.config in
      IsServed-of (reject env rd previous reason s).config (drop_all rd.age.name f)
        (reject-Is env rd previous reason s f (self-Is s.config v.distinct))
        (drop_all-Coherent rd.age.name f v.coherent)

  pub unplace-IsServed :
      (rd : Route) (previous : Placement) (reason : Reason) (s : RouterState)
      → IsServed s.config
      → IsServed (unplace env rd previous reason s).config
  unplace-IsServed rd previous reason s v =
      let f = serves s.config in
      IsServed-of (unplace env rd previous reason s).config (drop_at previous.nodes rd.age.name f)
        (unplace-Is env rd previous reason s f (self-Is s.config v.distinct))
        (drop_at-Coherent previous.nodes rd.age.name f v.coherent)

  -- The route's entry.
  abbrev pub entry : Route → Matcher → RouteConfig
  entry rd m = record { listener_names = rd.listener_refs; route = rd; matcher = some m }

  pub install-Is :
      (rd : Route) (m : Matcher) (nodes : List Text) (previous : Placement)
      (cs : List RouteConflict) (s : RouterState) (f : Routes)
      → Is s.config f
      → Is
          (install env rd m nodes previous cs s).config
          (put_at nodes (entry rd m) (drop_conflicts env cs f))
  unfolding install
  install-Is rd m nodes previous cs s f i =
      let cleared = evict env cs s in
      let placed = record cleared {
        config = update_route_configs nodes (entry rd m) cleared.config;
      } in
      let result =
        update_route_configs-Is nodes (entry rd m) cleared.config (drop_conflicts env cs f)
          (evict-Is env cs s f i) in
      elim (Bool-cases (same previous (node_set nodes) rd.listener_refs rd.generation)) [
        | inl e ↦ rw (e, install) result
        | inr e ↦
            rw (e, install)
              (subst (λ config. Is config (put_at nodes (entry rd m) (drop_conflicts env cs f)))
                (sym (
                  notify_listeners-config env rd.namespace
                    (merge_names previous.listeners rd.listener_refs) placed))
                result)
      ]

  -- The route collides with none that the eviction leaves on its nodes.
  conflicts-Fits :
      (rd : Route) (m : Matcher) (nodes : List Text) (config : Config)
      → IsServed config
      → Fits nodes (entry rd m) m (
          drop_conflicts env
            (find_conflicts env.compile rd m (routes_on (node_set nodes) config))
            (serves config))
  conflicts-Fits rd m nodes config v node n a l i h ne ml =
      let current = node_set nodes in
      let rcs = routes_on current config in
      let cs = find_conflicts env.compile rd m rcs in
      let there : serves config node n ≡ some a = ground arith in
      let named : route_name a ≡ n = find-named n _ a there in
      let at : serves config node (route_name a) ≡ some a =
        subst (λ k. serves config node k ≡ some a) (sym named) there in
      let miss : hits (route_name a) cs ≡ false =
        subst (λ k. hits k cs ≡ false) (sym named) (ground arith) in
      find_conflicts-hits env.compile rd m a l rcs
        (routes_on-Alone config a node current v.distinct v.coherent at)
        (routes_on-named config a node (route_name a) current (contains-node_set node nodes ∙ i) at)
        (ground (arith, eq_of_beq (route_name a) rd.age.name, beq_of_eq rd.age.name n)) ml miss

  pub install-IsServed :
      (rd : Route) (m : Matcher) (nodes : List Text) (previous : Placement) (s : RouterState)
      → IsServed s.config
      → ((k : Text) (a : RouteConfig)
          → serves s.config k rd.age.name ≡ some a
          → contains nodes k ≡ true)
      → IsServed
          (install env rd m nodes previous
            (find_conflicts env.compile rd m (routes_on (node_set nodes) s.config))
            s).config
  install-IsServed rd m nodes previous s v only =
      let f = serves s.config in
      let cs = find_conflicts env.compile rd m (routes_on (node_set nodes) s.config) in
      let g = drop_conflicts env cs f in
      IsServed-of (install env rd m nodes previous cs s).config (put_at nodes (entry rd m) g)
        (install-Is rd m nodes previous cs s f (self-Is s.config v.distinct))
        (Coherent-put nodes (entry rd m) m g
          (Coherent-fewer f g (λ p n a h. ground arith) v.coherent) refl
          (λ k a h. only k a (ground arith)) (conflicts-Fits rd m nodes s.config v))

  pub settle-cases :
      (P : RouterState → Type 0) (rd : Route) (m : Matcher) (key : Key) (nodes : List Text)
      (previous : Placement) (cs : List RouteConflict) (s : RouterState)
      → P (install env rd m nodes previous cs s)
      → ((c : RouteConflict) (rest : List RouteConflict)
          → cs ≡ c ∷ rest
          → older_route c.route.age rd.age ≡ true
          → P (
              reject env rd previous
                (older_conflict c.route.age.name c.verdict)
                (add_losers rd key (c ∷ rest) s)))
      → P (settle env rd m key nodes previous cs s)
  unfolding settle
  settle-cases P rd m key nodes previous [] s p r = p
  settle-cases P rd m key nodes previous (c ∷ cs) s p r =
      if_cases P (older_route c.route.age rd.age) (λ e. r c cs refl e) (λ e. p)
