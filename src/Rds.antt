-- ===== src/Rds.antt =====
-- controllers/rds/route_controller.go: the test by which a route is kept off a listener that it would
-- break, and the conflicts of a route with those already placed. The JSON conversion in front of the
-- compilation of a placed route without a matcher is a parameter.
pub mod Conflicts
pub mod Placement
pub mod Targets
pub mod Missing
pub mod Reconcile
pub mod Effects
pub mod Coherence
pub mod Served
pub mod Steps
pub mod Install
pub mod Invariant
pub mod Closure
pub mod Contest
pub mod Retry
pub mod Outcome
pub mod Counter
use xds_controller.Prelude.{
  Bool, true, false, not, ◌&&◌, ◌||◌, if◌then◌else◌, Option, Text, Map, lookup, ◌==◌, list_eq,
  nat_eq, List, [], ◌∷◌, ◌++◌, any, contains,
}
use xds_controller.Util.{older_route}
use xds_controller.Fcm.{Verdict, shadow, duplicate, Matcher}
use xds_controller.Fcm.Verdicts.{compare_matchers}
use xds_controller.Api.{Route, VirtualHost}

-- sharesName
unfoldable pub shares_name : List Text → List Text → Bool
shares_name a b = any (contains b) a

-- hasVirtualHostOverlap
unfoldable pub has_virtual_host_overlap : VirtualHost → VirtualHost → Bool
unfolding shares_name
has_virtual_host_overlap Option.none vh2 = false
has_virtual_host_overlap (Option.some d1) Option.none = false
has_virtual_host_overlap (Option.some d1) (Option.some d2) = shares_name d1 d2

-- virtualHostsOverlap
unfoldable pub virtual_hosts_overlap : Option (List VirtualHost) → Option (List VirtualHost) → Bool
unfolding has_virtual_host_overlap
virtual_hosts_overlap Option.none b = false
virtual_hosts_overlap (Option.some a) Option.none = false
virtual_hosts_overlap (Option.some a) (Option.some b) =
    any (λ vh1. any (has_virtual_host_overlap vh1) b) a

abbrev pub is_shadow : Verdict → Bool
is_shadow shadow = true
is_shadow duplicate = false
is_shadow Verdict.none = false

-- RouteConflict
unfoldable pub route_conflict : Route → Route → Matcher → Matcher → Verdict
unfolding shares_name virtual_hosts_overlap
route_conflict a b ma mb =
    if not (shares_name a.listener_refs b.listener_refs)
    then Verdict.none
    else (let v = compare_matchers ma mb in
        if is_shadow v && not (virtual_hosts_overlap a.virtual_hosts b.virtual_hosts)
        then Verdict.none
        else v)

-- xds.RouteConfig, but for the Envoy configuration that the route converts to
pub record RouteConfig : Type 0 where
  pub listener_names : List Text
  pub route : Route
  pub matcher : Option Matcher

pub record RouteConflict : Type 0 where
  pub route : Route
  pub verdict : Verdict

abbrev pub is_none : Verdict → Bool
is_none Verdict.none = true
is_none shadow = false
is_none duplicate = false

module _ (compile : Route → Option Matcher) where
  -- rc.Matcher, or what compiling the route gives
  abbrev pub matcher_of : RouteConfig → Option Matcher
  matcher_of rc = elim rc.matcher [ Option.some m ↦ Option.some m | Option.none ↦ compile rc.route ]

  abbrev pub conflict_with : Route → Matcher → RouteConfig → List RouteConflict
  conflict_with route m rc = elim (matcher_of rc) [
    | Option.none ↦ []
    | Option.some other ↦
        let v = route_conflict route rc.route m other in
        if is_none v then [] else record { route = rc.route; verdict = v } ∷ []
  ]

  -- the loops of findConflicts over the routes of the nodes, one node after the other; `seen` holds
  -- the names looked at so far
  unfoldable pub collect_conflicts :
      Route → Matcher → List Text → List RouteConfig → List RouteConflict
  unfolding route_conflict
  collect_conflicts route m seen [] = []
  collect_conflicts route m seen (rc ∷ rest) =
      let name = rc.route.name in
      let skipped = collect_conflicts route m seen rest in
      let found = conflict_with route m rc ++ collect_conflicts route m (seen ++ name ∷ []) rest in
      if name == route.name || contains seen name then skipped else found

-- slices.SortFunc by OlderRoute, on routes that it orders
unfoldable pub insert_by_age : RouteConflict → List RouteConflict → List RouteConflict
insert_by_age c [] = c ∷ []
insert_by_age c (d ∷ ds) =
    let rest = insert_by_age c ds in
    if older_route d.route.age c.route.age then d ∷ rest else c ∷ d ∷ ds

unfoldable pub sort_by_age : List RouteConflict → List RouteConflict
unfolding insert_by_age
sort_by_age [] = []
sort_by_age (c ∷ cs) = insert_by_age c (sort_by_age cs)

-- findConflicts
unfoldable pub find_conflicts :
    (Route → Option Matcher) → Route → Matcher → List RouteConfig → List RouteConflict
unfolding collect_conflicts sort_by_age
find_conflicts compile route m placed = sort_by_age (collect_conflicts compile route m [] placed)
