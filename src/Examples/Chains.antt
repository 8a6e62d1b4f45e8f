-- ===== src/Examples/Chains.antt =====
-- pkg/xds/fcm/fcm.go and controllers/lds/listener_controller.go at concrete matches and routes. No
-- address parses here, and every match is valid.
use xds_controller.Prelude.{
  ℕ, true, false, Option, Text, list_eq, nat_eq, List, [], ◌∷◌, codes, ◌≡◌, ◌↔◌, refl, ok, any,
  contains, has_prefix, count_char,
}
use xds_controller.Fcm.{
  duplicate, Matcher, FilterChainMatch, Externs, any_names, any_ports, any_addresses, no_match,
  compile_proto, compile_match, match_keys, compile_server_names, server_name_keys, unique,
  has_repeat, compile_cidrs, ascii_lower, lower_char, trim_star, is_partial_wildcard,
}
use xds_controller.Fcm.Verdicts.{compare_matchers, duplicate_iff, Collide}
use xds_controller.Fcm.Index.{
  empty_set, add_all, has_duplicate, is_duplicate, has_duplicate-eq-search,
}
use xds_controller.Api.{Route}
use xds_controller.Lds.{
  Listener, Conversions, ChainCache, place_routes, place_static, process_routes, is_quic,
}
use xds_controller.Lds.Cache.{CacheIsFresh, empty_IsFresh, process_routes_cached}
use xds_controller.Lds.Apart.{process_routes-Apart, MatchersOf, Apart}
use xds_controller.Rds.{RouteConfig}

abbrev pub no_addresses : Externs
no_addresses = record { validate_all = λ _. true; parse_addr = λ _. Option.none }

abbrev pub web : Text
web = codes "web.example.com"

abbrev star : Text
star = codes ".example.com"

abbrev web_match : FilterChainMatch
web_match = record no_match { server_names = codes "Web.example.com" ∷ [] }

abbrev pub matcher : List Text → Matcher
matcher names = record {
  destination_port = 0;
  prefix_ranges = any_addresses;
  server_names = names;
  transport_protocol = [];
  alpn = any_names;
  direct_source = any_addresses;
  source_type = 0;
  source = any_addresses;
  source_ports = any_ports;
}

compiles : compile_proto no_addresses (Option.some web_match) ≡ ok (matcher (web ∷ []))
unfolding compile_proto compile_match match_keys compile_server_names server_name_keys unique
    has_repeat compile_cidrs ascii_lower lower_char trim_star is_partial_wildcard count_char
    has_prefix contains
compiles = refl

duplicate_iff_example :
    (compare_matchers (matcher (web ∷ [])) (matcher (web ∷ star ∷ [])) ≡ duplicate)
    ↔ Collide (matcher (web ∷ [])) (matcher (web ∷ star ∷ []))
duplicate_iff_example = duplicate_iff (matcher (web ∷ [])) (matcher (web ∷ star ∷ []))

has_duplicate-eq-search_example :
    has_duplicate
      (matcher (web ∷ []))
      (add_all (matcher (star ∷ []) ∷ matcher (star ∷ web ∷ []) ∷ []) empty_set)
    ≡ any
        (λ p. is_duplicate (compare_matchers (matcher (web ∷ [])) p))
        (matcher (star ∷ []) ∷ matcher (star ∷ web ∷ []) ∷ [])
has_duplicate-eq-search_example =
    has_duplicate-eq-search (matcher (web ∷ []))
      (matcher (star ∷ []) ∷ matcher (star ∷ web ∷ []) ∷ [])

abbrev pub route : Route
route = record {
  age = record { name = codes "r"; created = 1 };
  namespace = codes "ns";
  generation = 1;
  annotations = [];
  listener_refs = codes "l" ∷ [];
  tls_secret_ref = codes "cert";
  tls_secret_refs = [];
  has_filter_chain_match = true;
  virtual_hosts = Option.none;
}

abbrev pub heap : ℕ → Route
heap _ = route

-- a filter is a number
abbrev pub conv : Conversions ℕ
conv = record { unmarshal_match = λ _. ok web_match; prepare_filters = λ _ _. ok (1 ∷ []) }

abbrev bare : Listener ℕ
bare = record { name = codes "l"; quic_options = false; udp = false; filter_chains = [] }

-- the second route repeats the match of the first
abbrev two_routes : Listener ℕ × ChainCache ℕ
two_routes = place_routes no_addresses conv heap (is_quic bare) (0 ∷ 1 ∷ []) bare empty_set []

processed : process_routes no_addresses conv heap (0 ∷ 1 ∷ []) bare [] ≡ ok two_routes
unfolding process_routes place_static
processed = refl

process_routes-Apart_example :
    (ms : List Matcher) × MatchersOf no_addresses two_routes.0.filter_chains ms × Apart ms
process_routes-Apart_example =
    process_routes-Apart no_addresses conv heap (0 ∷ 1 ∷ []) bare two_routes.0 [] two_routes.1
      (empty_IsFresh no_addresses conv heap) processed

process_routes_cached_example :
    CacheIsFresh no_addresses conv heap two_routes.1
    × ((rest : ChainCache ℕ) × (process_routes no_addresses conv heap (0 ∷ 1 ∷ []) bare []
          ≡ ok (two_routes.0, rest)))
process_routes_cached_example =
    process_routes_cached no_addresses conv heap (0 ∷ 1 ∷ []) bare []
      (empty_IsFresh no_addresses conv heap) two_routes.0 two_routes.1 processed

abbrev pub younger : Route
younger = record route { age = record { name = codes "s"; created = 2 } }

abbrev placed_routes : List RouteConfig
placed_routes =
    record {
      listener_names = codes "l" ∷ [];
      route = younger;
      matcher = Option.some (matcher (web ∷ []));
    }
    ∷ record {
      listener_names = codes "l" ∷ [];
      route = record route { age = record { name = codes "t"; created = 1 } };
      matcher = Option.none;
    }
    ∷ []

abbrev pub compile_web : Route → Option Matcher
compile_web _ = Option.some (matcher (web ∷ []))
