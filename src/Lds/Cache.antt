-- ===== src/Lds/Cache.antt =====
-- controllers/lds/listener_controller.go: the cache of built chains.
use xds_controller.Prelude.{
  ℕ, Bool, true, if◌then◌else◌, none, some, List, [], ◌∷◌, contains, ok, err, Result-cases, lookup,
  lookup-insert, nat_eq, bool_eq, pair_eq, ◌≡◌, refl, subst, arith, sym, ◌∙◌, ap, Bool-cases,
  Option-cases, inl, inr,
}
use xds_controller.Fcm.{Externs}
use xds_controller.Fcm.Index.{Set, empty_set, add}
use xds_controller.Api.{Route}
use xds_controller.Lds.{
  Listener, Conversions, BuiltChain, ChainCache, build_chain, get_chain, prune, process_route,
  place_routes, process_routes, place_static, is_quic,
}

module _ {Filter : Type 0} (x : Externs) (conv : Conversions Filter) where
  -- Every entry of the cache is the chain that its route builds.
  abbrev pub CacheIsFresh : (ℕ → Route) → ChainCache Filter → Type 0
  CacheIsFresh heap cache =
      (route : ℕ) (quic : Bool) (b : BuiltChain Filter)
      → lookup (route, quic) cache ≡ some b
      → b ≡ build_chain x conv (heap route) quic

  pub empty_IsFresh : (heap : ℕ → Route) → CacheIsFresh heap []
  unfolding lookup
  empty_IsFresh heap route quic b h = cc

  get_chain_lem :
      (heap : ℕ → Route) (cache : ChainCache Filter) (route : ℕ) (quic : Bool)
      → CacheIsFresh heap cache
      → ((get_chain x conv heap cache route quic).0 ≡ build_chain x conv (heap route) quic)
        × CacheIsFresh heap (get_chain x conv heap cache route quic).1
  unfolding get_chain
  get_chain_lem heap cache route quic fresh = elim (Option-cases (lookup (route, quic) cache)) [
    | inl e ↦
        let built = build_chain x conv (heap route) quic in
        rw (e, get_chain)
          (
            refl,
            λ r q b h. ground (arith, lookup-insert (route, quic) (r, q) built cache, fresh r q b),
          )
    | inr (b, e) ↦ rw (e, get_chain) (fresh route quic b e, fresh)
  ]

  -- The loop of processRoutes with no cache: every chain is built anew.
  unfoldable pub place_built : (ℕ → Route) → Bool → List ℕ → Listener Filter → Set → Listener Filter
  place_built heap quic [] lds placed = lds
  place_built heap quic (route ∷ routes) lds placed =
      elim (process_route (build_chain x conv (heap route) quic) lds placed) [
        | err e ↦ place_built heap quic routes lds placed
        | ok p ↦ place_built heap quic routes p.1 (add p.0 placed)
      ]

  -- From a fresh cache the loop gives the listener that it would give without a cache, and leaves
  -- the cache fresh.
  pub place_routes-eq-built :
      (heap : ℕ → Route) (quic : Bool) (routes : List ℕ) (lds : Listener Filter) (placed : Set)
      (cache : ChainCache Filter)
      → CacheIsFresh heap cache
      → ((place_routes x conv heap quic routes lds placed cache).0
          ≡ place_built heap quic routes lds placed)
        × CacheIsFresh heap (place_routes x conv heap quic routes lds placed cache).1
  unfolding place_routes place_built
  place_routes-eq-built heap quic [] lds placed cache fresh = (refl, fresh)
  place_routes-eq-built heap quic (route ∷ routes) lds placed cache fresh =
      let (same, fresh') = get_chain_lem heap cache route quic fresh in
      let rest = (get_chain x conv heap cache route quic).1 in
      elim (Result-cases (process_route (build_chain x conv (heap route) quic) lds placed)) [
        | inr (e, r) ↦
            rw (same, r, place_routes, place_built)
              (place_routes-eq-built heap quic routes lds placed rest fresh')
        | inl (p, r) ↦
            rw (same, r, place_routes, place_built)
              (place_routes-eq-built heap quic routes p.1 (add p.0 placed) rest fresh')
      ]

  lookup-prune :
      (live : List ℕ) (cache : ChainCache Filter) (route : ℕ) (quic : Bool)
      → lookup (route, quic) (prune live cache)
        ≡ (if contains live route then lookup (route, quic) cache else none)
  unfolding lookup prune
  lookup-prune live [] route quic = ground arith
  lookup-prune live (((r, q), b) ∷ cache) route quic =
      ground (arith, lookup-prune live cache route quic)

  -- After pruning, a cache that held what the routes build holds it also for any later objects that
  -- agree with the old ones at the live addresses.
  prune-IsFresh :
      (heap heap' : ℕ → Route) (live : List ℕ) (cache : ChainCache Filter)
      → CacheIsFresh heap cache
      → ((route : ℕ) → contains live route ≡ true → heap' route ≡ heap route)
      → CacheIsFresh heap' (prune live cache)
  prune-IsFresh heap heap' live cache fresh kept route quic b h =
      elim (Bool-cases (contains live route)) [
        | inl e ↦
            fresh route quic b (ground (arith, lookup-prune live cache route quic))
            ∙ ap (λ (r : Route). build_chain x conv r quic) (sym (kept route e))
        | inr e ↦ ground (arith, lookup-prune live cache route quic)
      ]

  -- When processRoutes returns a listener, it returns the same one from any cache that holds what the
  -- routes build as from an empty cache, and leaves such a cache.
  pub process_routes_cached :
      (heap : ℕ → Route) (routes : List ℕ) (lds : Listener Filter) (cache : ChainCache Filter)
      → CacheIsFresh heap cache
      → (out : Listener Filter) (cache' : ChainCache Filter)
      → process_routes x conv heap routes lds cache ≡ ok (out, cache')
      → CacheIsFresh heap cache'
        × ((rest : ChainCache Filter) × (process_routes x conv heap routes lds [] ≡ ok (out, rest)))
  unfolding process_routes
  process_routes_cached heap routes lds cache fresh out cache' h =
      elim (Result-cases (place_static x lds.filter_chains empty_set)) [
        | inr (e, r) ↦ ground arith
        | inl (placed, r) ↦
            let (same, fresh') =
              place_routes-eq-built heap (is_quic lds) routes lds placed cache fresh in
            let (same₀, fresh₀) =
              place_routes-eq-built heap (is_quic lds) routes lds placed [] (empty_IsFresh heap) in
            (
              subst (CacheIsFresh heap) (ground arith) fresh',
              ((place_routes x conv heap (is_quic lds) routes lds placed []).1, ground arith),
            )
      ]
