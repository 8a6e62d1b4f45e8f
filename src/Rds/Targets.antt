-- ===== src/Rds/Targets.antt =====
-- controllers/rds/route_controller.go: the nodes that a route is placed on, by the listeners that it
-- refers to. What the API server answers for a listener, and the compilation of a chain's match, are
-- parameters: an object comes with the matchers of its chains.
use xds_controller.Prelude.{
  Bool, true, false, not, ◌&&◌, if◌then◌else◌, Option, none, some, Text, Map, list_eq, nat_eq, List,
  [], ◌∷◌, any, contains, keep,
}
use xds_controller.Util.{
  Codec, NodeInfo, empty_info, get_node_id, get_node_info, node_ids, pair_matches, with_defaults,
}
use xds_controller.Fcm.{Matcher}
use xds_controller.Fcm.Index.{is_duplicate}
use xds_controller.Fcm.Verdicts.{compare_matchers}
use xds_controller.Api.{Route}

-- A Listener object. A chain is the matcher that fcm.Compile gives for it, `none` if the chain is nil
-- or does not compile.
pub record Listener : Type 0 where
  pub annotations : Map Text Text
  pub filter_chains : List (Option Matcher)

-- What the functions below read: the node ID coding, the defaults of the configuration, and
-- r.Get of a listener of the route's namespace, `none` on any error.
pub record Context : Type 0 where
  pub codec : Codec
  pub node_id : Text
  pub cluster : Text
  pub get_listener : Text → Text → Option Listener

-- GetNodeInfo, whose error is ignored
abbrev pub info_of : Codec → Text → NodeInfo
info_of c id = elim (get_node_info c id) [ none ↦ empty_info | some info ↦ info ]

module _ (x : Context) where
  -- The variable li of isListenerExists, by its annotations: a listener that is not found leaves it
  -- as the one before did, or empty. `found` is the result `exists`.
  pub record Search : Type 0 where
    pub li : Map Text Text
    pub found : Bool

  -- the part of the inner loop that reads one listener
  unfoldable pub read_listener : Text → Text → Search → Search
  unfolding with_defaults
  read_listener namespace name s = elim (x.get_listener namespace name) [
    | none ↦ record s { li = with_defaults x.node_id x.cluster s.li }
    | some l ↦ record { li = with_defaults x.node_id x.cluster l.annotations; found = true }
  ]

  -- nodesMatch && clustersMatch
  unfoldable pub listener_matches : NodeInfo → Map Text Text → Bool
  unfolding pair_matches get_node_id get_node_info
  listener_matches info li =
      let other = info_of x.codec (get_node_id x.codec li) in
      pair_matches info.nodes other.nodes && pair_matches info.clusters other.clusters

  -- the inner loop, up to its break: whether the node matched
  unfoldable pub match_node : NodeInfo → Text → List Text → Search → Bool × Search
  unfolding read_listener listener_matches
  match_node info namespace [] s = (false, s)
  match_node info namespace (name ∷ names) s =
      let t = read_listener namespace name s in
      let rest = match_node info namespace names t in
      if listener_matches info t.li then (true, t) else rest

  -- the outer loop: the nodes that did not match
  unfoldable pub match_nodes : List Text → Text → List Text → Search → List Text × Search
  unfolding match_node
  match_nodes [] namespace names s = ([], s)
  match_nodes (node ∷ nodes) namespace names s =
      let (matched, t) = match_node (info_of x.codec node) namespace names s in
      let (unmatched, u) = match_nodes nodes namespace names t in
      (if matched then unmatched else node ∷ unmatched, u)

  -- isListenerExists
  unfoldable pub is_listener_exists : List Text → List Text → Text → Bool × List Text
  unfolding match_nodes
  is_listener_exists names nodes namespace =
      let (unmatched, s) = match_nodes nodes namespace names (record { li = []; found = false }) in
      (s.found, unmatched)

  -- getNodesForRoute, for a route whose annotations have been defaulted
  unfoldable pub get_nodes_for_route : Route → List Text → Text → List Text
  unfolding is_listener_exists node_ids
  get_nodes_for_route route names namespace =
      let nodes = node_ids x.codec route.annotations x.node_id x.cluster in
      let (found, unmatched) = is_listener_exists names nodes namespace in
      if not found then [] else keep (λ n. not (contains unmatched n)) nodes

  -- what getNodesForRoute does to the route's annotations
  unfoldable pub default_route : Route → Route
  unfolding with_defaults
  default_route route = record route {
    annotations = with_defaults x.node_id x.cluster route.annotations;
  }

  abbrev pub chain_duplicates : Matcher → Option Matcher → Bool
  chain_duplicates m chain = elim chain [
    | none ↦ false
    | some sm ↦ is_duplicate (compare_matchers m sm)
  ]

  -- the rounds of staticChainConflict
  unfoldable pub static_conflict : Text → Matcher → List Text → List Text → Option Text
  unfolding compare_matchers node_ids
  static_conflict namespace m nodes [] = none
  static_conflict namespace m nodes (name ∷ names) =
      let later = static_conflict namespace m nodes names in
      elim (x.get_listener namespace name) [
        | none ↦ later
        | some l ↦
            let on_node =
              any (contains nodes) (node_ids x.codec l.annotations x.node_id x.cluster) in
            if on_node && any (chain_duplicates m) l.filter_chains then some name else later
      ]

  -- staticChainConflict
  unfoldable pub static_chain_conflict : Route → Matcher → List Text → Option Text
  unfolding static_conflict
  static_chain_conflict route m nodes = static_conflict route.namespace m nodes route.listener_refs

-- routesForListener, by the routes listed in the listener's namespace
unfoldable pub routes_for_listener : Text → List Route → List (Text × Text)
routes_for_listener name [] = []
routes_for_listener name (route ∷ routes) =
    let rest = routes_for_listener name routes in
    if contains route.listener_refs name then (route.namespace, route.age.name) ∷ rest else rest
