-- ===== src/Examples/Routes.antt =====
-- controllers/rds/route_controller.go with two routes that collide on the one listener of a node.
use xds_controller.Prelude.{
  true, false, if◌then◌else◌, ◌==◌, Option, none, some, Text, list_eq, nat_eq, pair_eq, [], ◌∷◌,
  codes, contains, lookup, insert, delete, list_beq, sort_strings, sort_insert, split, trim_space,
  trim_left, trim_right, is_space, Memᴰ, ◌≡◌, ◌⊎◌, refl,
}
use xds_controller.Util.{
  older_route, parse_csv, get_node_id, get_node_info, pair, pair_matches, node_ids, names_or,
  ids_of, ids_of_cluster, with_defaults,
}
use xds_controller.Fcm.Verdicts.{share_key}
use xds_controller.Fcm.Names.{compare_server_names}
use xds_controller.Fcm.{duplicate}
use xds_controller.Status.{new}
use xds_controller.Rds.{RouteConflict, find_conflicts}
use xds_controller.Rds.Placement.{Config, node_set, routes_on, unplaced}
use xds_controller.Rds.Targets.{Context, Listener, info_of, listener_matches, get_nodes_for_route}
use xds_controller.Rds.Missing.{missing_listener_hides}
use xds_controller.Rds.Reconcile.{Env, RouterState, found, missing, key_of, reconcile, settle}
use xds_controller.Rds.Install.{IsServed}
use xds_controller.Rds.Invariant.{reconcile-IsServed}
use xds_controller.Rds.Retry.{has_older, reconcile_all, loser_is_retried}
use xds_controller.Rds.Outcome.{Unserved, Supersedes, AllQueued, settle_outcome}
use xds_controller.Examples.Ids.{plain, edge, main_cluster}
use xds_controller.Examples.Chains.{route, younger, matcher, compile_web, web}

abbrev listener_of : Text → Text → Option Listener
listener_of namespace name = some (record { annotations = []; filter_chains = [] })

abbrev env : Env
env = record {
  context = record {
    codec = plain;
    node_id = edge;
    cluster = main_cluster;
    get_listener = listener_of;
  };
  notifies = true;
  requeues = true;
  recasts = λ _. true;
  compile = compile_web;
}

abbrev empty : Config
empty = record { route_configs = []; counter = 0 }

abbrev start : RouterState
start = record {
  config = empty;
  status = new;
  listener_events = [];
  losers = [];
  requeued = [];
  reports = [];
}

empty-IsServed : IsServed empty
unfolding lookup
empty-IsServed = record {
  distinct = λ node. tt;
  coherent = record {
    uniform = λ m n name a b h k. cc;
    compiled = λ m name a h. cc;
    peaceful = λ m n1 n2 a b h k ne. cc;
  };
}

-- the younger route is placed first
abbrev one_route : RouterState
one_route = reconcile env (found younger) (key_of younger) start

reconcile-IsServed_example : IsServed (reconcile env (found route) (key_of route) one_route).config
reconcile-IsServed_example =
    reconcile-IsServed env (found route) (key_of route) one_route refl
      (reconcile-IsServed env (found younger) (key_of younger) start refl empty-IsServed)

abbrev conflict : RouteConflict
conflict = record { route = route; verdict = duplicate }

is_older : older_route route.age younger.age ≡ true
unfolding older_route
is_older = refl

loser_is_retried_example :
    contains
      (reconcile_all env ((missing, key_of route) ∷ []) (
        settle env younger
          (matcher (web ∷ []))
          (key_of younger)
          (edge ∷ [])
          unplaced
          (conflict ∷ [])
          start)).requeued
      (key_of younger)
    ≡ true
unfolding list_beq
loser_is_retried_example =
    loser_is_retried env refl younger (matcher (web ∷ [])) (key_of younger) (edge ∷ []) unplaced
      conflict conflict [] start ((missing, key_of route) ∷ []) is_older (Memᴰ.head refl) is_older
      refl

settle_outcome_example :
    let cs =
      find_conflicts compile_web route
        (matcher (web ∷ []))
        (routes_on (node_set (edge ∷ [])) one_route.config) in
    let out =
      settle env route (matcher (web ∷ [])) (key_of route) (edge ∷ []) unplaced cs one_route in
    ((has_older route cs ≡ true) × Unserved env route.age.name out.config)
    ⊎ ((has_older route cs ≡ false)
        × Supersedes env route (matcher (web ∷ [])) (edge ∷ []) cs one_route.config out.config
        × AllQueued cs out)
settle_outcome_example =
    settle_outcome env route (matcher (web ∷ [])) (key_of route) (edge ∷ []) unplaced one_route
      (reconcile-IsServed env (found younger) (key_of younger) start refl empty-IsServed).distinct
      refl

-- Both routes go to the one node: the older one stays, and the younger one is in the queue.
abbrev both : RouterState
both = reconcile env (found route) (key_of route) one_route

younger_evicted : both.requeued ≡ key_of younger ∷ []
unfolding reconcile lookup sort_strings parse_csv split insert list_beq trim_space trim_right
    trim_left is_space sort_insert contains share_key compare_server_names older_route delete
younger_evicted = refl

-- The first listener does not exist, the second is on the route's node.
abbrev gone : Text
gone = codes "gone"

abbrev one_listener : Text → Text → Option Listener
one_listener namespace name =
    if name == gone then none else some (record { annotations = []; filter_chains = [] })

is_gone : one_listener (codes "ns") gone ≡ none
unfolding list_beq
is_gone = refl

abbrev context : Context
context = record {
  codec = plain;
  node_id = edge;
  cluster = main_cluster;
  get_listener = one_listener;
}

abbrev at_edge : Text
at_edge = get_node_id plain (pair main_cluster edge)

route_at_edge : node_ids plain route.annotations edge main_cluster ≡ at_edge ∷ []
unfolding node_ids sort_strings parse_csv split list_beq trim_space trim_right trim_left is_space
    sort_insert lookup names_or ids_of ids_of_cluster
route_at_edge = refl

edge_matches :
    listener_matches context (info_of plain at_edge) (with_defaults edge main_cluster []) ≡ true
unfolding listener_matches get_node_id sort_strings parse_csv split list_beq trim_space trim_right
    trim_left is_space sort_insert lookup insert with_defaults contains pair_matches get_node_info
edge_matches = refl

missing_listener_hides_example :
    get_nodes_for_route context route (gone ∷ codes "l" ∷ []) (codes "ns") ≡ []
missing_listener_hides_example =
    missing_listener_hides context route (codes "ns") gone at_edge (codes "l" ∷ []) is_gone
      route_at_edge edge_matches

-- In the other order the route is served.
other_order : get_nodes_for_route context route (codes "l" ∷ gone ∷ []) (codes "ns") ≡ at_edge ∷ []
unfolding get_nodes_for_route get_node_id sort_strings parse_csv split list_beq trim_space
    trim_right trim_left is_space sort_insert lookup insert with_defaults contains pair_matches
    get_node_info
other_order = refl
