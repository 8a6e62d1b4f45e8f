-- ===== src/Rds/Missing.antt =====
-- controllers/rds/route_controller.go: a route that refers to a listener that does not exist.
use xds_controller.Prelude.{true, false, none, Text, list_eq, nat_eq, List, [], ◌∷◌, ◌≡◌, refl}
use xds_controller.Util.{NodeInfo, node_ids, with_defaults}
use xds_controller.Api.{Route}
use xds_controller.Rds.Targets.{
  Context, Search, info_of, listener_matches, read_listener, match_node, match_nodes,
  is_listener_exists, get_nodes_for_route,
}

module _ (x : Context) where
  abbrev nothing_read : Search x
  nothing_read = record { li = []; found = false }

  abbrev defaults_read : Search x
  defaults_read = record { li = with_defaults x.node_id x.cluster []; found = false }

  read_missing :
      (namespace name : Text)
      → x.get_listener namespace name ≡ none
      → read_listener x namespace name nothing_read ≡ defaults_read
  unfolding read_listener
  read_missing namespace name gone = rw (gone, read_listener) refl

  match_missing :
      (info : NodeInfo) (namespace name : Text) (names : List Text)
      → x.get_listener namespace name ≡ none
      → listener_matches x info defaults_read.li ≡ true
      → match_node x info namespace (name ∷ names) nothing_read ≡ (true, defaults_read)
  unfolding match_node
  match_missing info namespace name names gone matches =
      rw (read_missing namespace name gone, matches) refl

  exists_missing :
      (node namespace name : Text) (names : List Text)
      → x.get_listener namespace name ≡ none
      → listener_matches x (info_of x.codec node) defaults_read.li ≡ true
      → is_listener_exists x (name ∷ names) (node ∷ []) namespace ≡ (false, [])
  unfolding is_listener_exists match_nodes
  exists_missing node namespace name names gone matches =
      rw (match_missing (info_of x.codec node) namespace name names gone matches) refl

  -- A route on one node, which the default names match, gets no node if the first listener that it
  -- refers to does not exist, whatever listeners it refers to after it.
  pub missing_listener_hides :
      (route : Route) (namespace name node : Text) (names : List Text)
      → x.get_listener namespace name ≡ none
      → node_ids x.codec route.annotations x.node_id x.cluster ≡ node ∷ []
      → listener_matches x (info_of x.codec node) (with_defaults x.node_id x.cluster []) ≡ true
      → get_nodes_for_route x route (name ∷ names) namespace ≡ []
  unfolding get_nodes_for_route
  missing_listener_hides route namespace name node names gone one matches =
      rw (one, exists_missing node namespace name names gone matches) refl
