-- ===== src/Lds.antt =====
-- controllers/lds/listener_controller.go: how the filter chains of routes are put on a listener. The
-- JSON and proto conversions of a route are parameters. Routes are passed by address, since the
-- cache of built chains is keyed by it.
pub mod Apart
pub mod Cache
pub mod Reconcile
use xds_controller.Prelude.{
  ℕ, Bool, true, false, not, ◌&&◌, ◌||◌, if◌then◌else◌, Option, none, some, Text, Map, lookup,
  insert, ◌==◌, nat_eq, bool_eq, list_eq, pair_eq, List, [], ◌∷◌, ◌++◌, is_empty, contains,
  trim_space, Result, ok, err, keep,
}
use xds_controller.Fcm.{FilterChainMatch, Matcher, CompileError, Externs, compile_proto}
use xds_controller.Fcm.Index.{Set, empty_set, add, has_duplicate}
use xds_controller.Api.{Route}

-- the transport socket of a chain, by the names of its secrets
pub data TransportSocket : Type 0 where
  quic_socket : List Text → TransportSocket
  tls_socket : List Text → List Text → TransportSocket

pub record FilterChain (Filter : Type 0) : Type 0 where
  pub filter_chain_match : Option FilterChainMatch
  pub filters : List Filter
  pub transport_socket : Option TransportSocket

-- listenerv3.Listener; `quic_options` and `udp` are what isQUIC reads
pub record Listener (Filter : Type 0) : Type 0 where
  pub name : Text
  pub quic_options : Bool
  pub udp : Bool
  pub filter_chains : List (FilterChain Filter)

pub data LdsError : Type 0 where
  bad_match : CompileError → LdsError
  bad_route duplicate_found static_duplicate nothing_to_serve bad_listener : LdsError

-- unmarshalFilterChainMatch and the conversions of prepareFilters
pub record Conversions (Filter : Type 0) : Type 0 where
  pub unmarshal_match : Route → Result LdsError FilterChainMatch
  pub prepare_filters : Route → Bool → Result LdsError (List Filter)

-- isQUIC
unfoldable pub is_quic : {Filter : Type 0} → Listener Filter → Bool
is_quic l = l.quic_options && l.udp

-- the loop of routeTLSSecretNames: `seen` holds the names taken so far, and so does `names`
unfoldable pub add_names : List Text → List Text → List Text
add_names names [] = names
add_names names (ref ∷ refs) =
    let s = trim_space ref in
    add_names (if is_empty s || contains names s then names else names ++ s ∷ []) refs

unfoldable pub route_tls_secret_names : Route → List Text
unfolding add_names
route_tls_secret_names route = add_names [] (route.tls_secret_ref ∷ route.tls_secret_refs)

abbrev pub protocols_of : Option FilterChainMatch → List Text
protocols_of none = []
protocols_of (some m) = m.application_protocols

-- prepareSecretContext
unfoldable pub prepare_secret_context :
    {Filter : Type 0} → Route → Bool → FilterChain Filter → FilterChain Filter
prepare_secret_context route quic chain =
    let names = route_tls_secret_names route in
    if is_empty names then chain else record chain {
      transport_socket = some (
          if quic
          then quic_socket names
          else tls_socket names (protocols_of chain.filter_chain_match));
    }

-- a chain is there unless building it failed, and is not built when the match is bad
pub record BuiltChain (Filter : Type 0) : Type 0 where
  pub matcher : Result LdsError Matcher
  pub chain : Result LdsError (FilterChain Filter)

abbrev pub ChainCache : Type 0 → Type 0
ChainCache Filter = Map (ℕ × Bool) (BuiltChain Filter)

-- chainCache.prune
unfoldable pub prune : {Filter : Type 0} → List ℕ → ChainCache Filter → ChainCache Filter
prune live [] = []
prune live ((k, b) ∷ cache) =
    if contains live k.0 then (k, b) ∷ prune live cache else prune live cache

-- processRoute
unfoldable pub process_route :
    {Filter : Type 0}
    → BuiltChain Filter
    → Listener Filter
    → Set
    → Result LdsError (Matcher × Listener Filter)
process_route c lds placed = elim c.matcher [
  | err e ↦ err e
  | ok m ↦ if has_duplicate m placed then err duplicate_found else elim c.chain [
    | err e ↦ err e
    | ok chain ↦ ok (m, record lds { filter_chains = lds.filter_chains ++ chain ∷ [] })
  ]
]

-- the first loop of processRoutes, over the listener's own chains
unfoldable pub place_static :
    {Filter : Type 0} → Externs → List (FilterChain Filter) → Set → Result LdsError Set
place_static x [] placed = ok placed
place_static x (fc ∷ fcs) placed = elim (compile_proto x fc.filter_chain_match) [
  | err e ↦ err (bad_match e)
  | ok m ↦
      if has_duplicate m placed then err static_duplicate else place_static x fcs (add m placed)
]

module _ {Filter : Type 0} (x : Externs) (conv : Conversions Filter) where
  abbrev pub route_match : Route → Result LdsError (Option FilterChainMatch)
  route_match route =
      if route.has_filter_chain_match
      then elim (conv.unmarshal_match route) [ ok m ↦ ok (some m) | err e ↦ err e ]
      else ok none

  abbrev pub chain_of :
      Route → Bool → Option FilterChainMatch → Result LdsError (FilterChain Filter)
  chain_of route quic m = elim (conv.prepare_filters route quic) [
    | err e ↦ err e
    | ok filters ↦ ok (
        prepare_secret_context route quic
          (record { filter_chain_match = m; filters = filters; transport_socket = none }))
  ]

  -- buildChain
  unfoldable pub build_chain : Route → Bool → BuiltChain Filter
  build_chain route quic = elim (route_match route) [
    | err e ↦ record { matcher = err e; chain = err e }
    | ok m ↦ elim (compile_proto x m) [
      | err e ↦ record { matcher = err (bad_match e); chain = err (bad_match e) }
      | ok c ↦ record { matcher = ok c; chain = chain_of route quic m }
    ]
  ]

  -- chainCache.get, with the route found at its address
  unfoldable pub get_chain :
      (ℕ → Route) → ChainCache Filter → ℕ → Bool → BuiltChain Filter × ChainCache Filter
  get_chain heap cache route quic = elim (lookup (route, quic) cache) [
    | some b ↦ (b, cache)
    | none ↦ let b = build_chain (heap route) quic in (b, insert (route, quic) b cache)
  ]

  -- the second loop: a route that fails is skipped
  unfoldable pub place_routes :
      (ℕ → Route)
      → Bool
      → List ℕ
      → Listener Filter
      → Set
      → ChainCache Filter
      → Listener Filter × ChainCache Filter
  place_routes heap quic [] lds placed cache = (lds, cache)
  place_routes heap quic (route ∷ routes) lds placed cache =
      let got = get_chain heap cache route quic in
      elim (process_route got.0 lds placed) [
        | err e ↦ place_routes heap quic routes lds placed got.1
        | ok p ↦ place_routes heap quic routes p.1 (add p.0 placed) got.1
      ]

  -- processRoutes
  unfoldable pub process_routes :
      (ℕ → Route)
      → List ℕ
      → Listener Filter
      → ChainCache Filter
      → Result LdsError (Listener Filter × ChainCache Filter)
  process_routes heap routes lds cache = elim (place_static x lds.filter_chains empty_set) [
    | err e ↦ err e
    | ok placed ↦ ok (place_routes heap (is_quic lds) routes lds placed cache)
  ]

  -- listenerRecast, once the spec has been converted to the listener `lds`
  unfoldable pub listener_recast :
      (ℕ → Route)
      → Text
      → List ℕ
      → Listener Filter
      → ChainCache Filter
      → Result LdsError (Listener Filter × ChainCache Filter)
  listener_recast heap name routes lds cache =
      if is_empty routes && is_empty lds.filter_chains
      then err nothing_to_serve
      else process_routes heap routes (record lds { name = name }) cache
