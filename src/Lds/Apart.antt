-- ===== src/Lds/Apart.antt =====
-- controllers/lds/listener_controller.go: the matchers of the chains that processRoutes leaves on a
-- listener, whether they come from the listener or from routes.
use xds_controller.Prelude.{
  ℕ, Bool, false, Option, List, [], ◌∷◌, ◌++◌, any, any-append, ok, ok_injective, Result-cases,
  nat_eq, bool_eq, pair_eq, ◌≡◌, refl, subst, arith, Bool-cases, inl, inr, ap, sym, ◌∙◌,
}
use mathlib.Core.List.{append-nil, append_assoc}
use xds_controller.Fcm.{Matcher, Externs, compile_proto, FilterChainMatch}
use xds_controller.Fcm.Verdicts.{compare_matchers, compare_comm}
use xds_controller.Fcm.Index.{
  Set, empty_set, add, add_all, has_duplicate, is_duplicate, has_duplicate-eq-search,
}
use xds_controller.Api.{Route}
use xds_controller.Lds.Cache.{CacheIsFresh, place_built, place_routes-eq-built}
use xds_controller.Lds.{
  FilterChain, Listener, Conversions, BuiltChain, ChainCache, build_chain, process_route,
  place_static, process_routes, prepare_secret_context, is_quic, route_match, chain_of,
}

abbrev pub clashes : Matcher → List Matcher → Bool
clashes m ms = any (λ p. is_duplicate (compare_matchers m p)) ms

-- No matcher of the list is a duplicate of a later one.
abbrev pub Apart : List Matcher → Type 0
Apart [] = Unit
Apart (m ∷ ms) = (clashes m ms ≡ false) × Apart ms

Apart-append :
    (ms : List Matcher) (m : Matcher) → Apart ms → clashes m ms ≡ false → Apart (ms ++ m ∷ [])
Apart-append [] m a h = (refl, tt)
Apart-append (p ∷ ms) m a h = (
  ground
      (arith, any-append (λ q. is_duplicate (compare_matchers p q)) ms (m ∷ []), compare_comm p m),
  Apart-append ms m a.1 (ground arith),
)

add_all-append :
    (ms : List Matcher) (m : Matcher) (s : Set) → add m (add_all ms s) ≡ add_all (ms ++ m ∷ []) s
unfolding add_all
add_all-append [] m s = refl
add_all-append (p ∷ ms) m s = add_all-append ms m (add p s)

module _ {Filter : Type 0} (x : Externs) where
  -- The matchers are those of the chains.
  abbrev pub MatchersOf : List (FilterChain Filter) → List Matcher → Type 0
  MatchersOf [] [] = Unit
  MatchersOf [] (m ∷ ms) = ⊥
  MatchersOf (fc ∷ fcs) [] = ⊥
  MatchersOf (fc ∷ fcs) (m ∷ ms) =
      (compile_proto x fc.filter_chain_match ≡ ok m) × MatchersOf fcs ms

  MatchersOf-append :
      (fcs : List (FilterChain Filter)) (ms : List Matcher) (fc : FilterChain Filter) (m : Matcher)
      → MatchersOf fcs ms
      → compile_proto x fc.filter_chain_match ≡ ok m
      → MatchersOf (fcs ++ fc ∷ []) (ms ++ m ∷ [])
  MatchersOf-append [] [] fc m h e = (e, tt)
  MatchersOf-append [] (p ∷ ms) fc m h e = absurd h
  MatchersOf-append (g ∷ fcs) [] fc m h e = absurd h
  MatchersOf-append (g ∷ fcs) (p ∷ ms) fc m h e = (h.0, MatchersOf-append fcs ms fc m h.1 e)

  -- The state of the loops: the set holds the matchers of the chains, which are apart.
  abbrev Placed : List (FilterChain Filter) → Set → Type 0
  Placed fcs placed =
      (ms : List Matcher) × MatchersOf fcs ms × (placed ≡ add_all ms empty_set) × Apart ms

  Placed-append :
      (fcs : List (FilterChain Filter)) (placed : Set) (fc : FilterChain Filter) (m : Matcher)
      → Placed fcs placed
      → compile_proto x fc.filter_chain_match ≡ ok m
      → has_duplicate m placed ≡ false
      → Placed (fcs ++ fc ∷ []) (add m placed)
  Placed-append fcs placed fc m (ms, h, s, a) e d = (
    ms ++ m ∷ [],
    MatchersOf-append fcs ms fc m h e,
    ap (add m) s ∙ add_all-append ms m empty_set,
    Apart-append ms m a
        (sym (has_duplicate-eq-search m ms) ∙ subst (λ t. has_duplicate m t ≡ false) s d),
  )

  place_static-Placed :
      (done fcs : List (FilterChain Filter)) (placed out : Set)
      → Placed done placed
      → place_static x fcs placed ≡ ok out
      → Placed (done ++ fcs) out
  unfolding place_static
  place_static-Placed done [] placed out p h =
      rw (append-nil done) (subst (Placed done) (ok_injective h) p)
  place_static-Placed done (fc ∷ fcs) placed out p h =
      elim (Result-cases (compile_proto x fc.filter_chain_match)) [
        | inr (e, q) ↦ ground arith
        | inl (m, q) ↦ elim (Bool-cases (has_duplicate m placed)) [
          | inl d ↦ ground arith
          | inr d ↦ rw (← append_assoc done (fc ∷ []) fcs) (
              place_static-Placed (done ++ fc ∷ []) fcs (add m placed) out
                (Placed-append done placed fc m p q d) (ground arith))
        ]
      ]

  -- The chain of a built entry, if there is one, matches as its matcher says.
  abbrev pub IsBuilt : BuiltChain Filter → Type 0
  IsBuilt b =
      (m : Matcher) (chain : FilterChain Filter)
      → b.matcher ≡ ok m
      → b.chain ≡ ok chain
      → compile_proto x chain.filter_chain_match ≡ ok m

  -- What processRoute adds, when it adds a chain.
  process_route-Placed :
      (b : BuiltChain Filter) (lds out : Listener Filter) (placed : Set) (m : Matcher)
      → IsBuilt b
      → Placed lds.filter_chains placed
      → process_route b lds placed ≡ ok (m, out)
      → Placed out.filter_chains (add m placed)
  unfolding process_route
  process_route-Placed b lds out placed m built p h = elim (Result-cases b.matcher) [
    | inr (e, q) ↦ ground arith
    | inl (m', q) ↦ elim (Bool-cases (has_duplicate m' placed)) [
      | inl d ↦ ground arith
      | inr d ↦ elim (Result-cases b.chain) [
        | inr (e, r) ↦ ground arith
        | inl (chain, r) ↦
            let same : (m' ≡ m) × (out.filter_chains ≡ lds.filter_chains ++ chain ∷ []) =
              (ground arith, ground arith) in
            subst (λ fcs. Placed fcs (add m placed)) (sym same.1)
              (subst (λ n. Placed (lds.filter_chains ++ chain ∷ []) (add n placed)) same.0
                (Placed-append lds.filter_chains placed chain m' p (built m' chain q r) d))
      ]
    ]
  ]

module _ {Filter : Type 0} (x : Externs) (conv : Conversions Filter) where
  match_of-chain_of :
      (route : Route) (quic : Bool) (m : Option FilterChainMatch) (chain : FilterChain Filter)
      → chain_of x conv route quic m ≡ ok chain
      → chain.filter_chain_match ≡ m
  unfolding prepare_secret_context
  match_of-chain_of route quic m chain h = ground arith

  build_chain-IsBuilt : (route : Route) (quic : Bool) → IsBuilt x (build_chain x conv route quic)
  unfolding build_chain
  build_chain-IsBuilt route quic m chain p q = elim (Result-cases (route_match x conv route)) [
    | inr (e, r) ↦ ground arith
    | inl (fm, r) ↦ elim (Result-cases (compile_proto x fm)) [
      | inr (e, s) ↦ ground arith
      | inl (c, s) ↦
          let same : (c ≡ m) × (chain_of x conv route quic fm ≡ ok chain) =
            (ground arith, ground arith) in
          subst (λ g. compile_proto x g ≡ ok m) (sym (match_of-chain_of route quic fm chain same.1))
            (s ∙ ap ok same.0)
    ]
  ]

  place_built-Placed :
      (heap : ℕ → Route) (quic : Bool) (routes : List ℕ) (lds : Listener Filter) (placed : Set)
      → Placed x lds.filter_chains placed
      → (out : Set) × Placed x (place_built x conv heap quic routes lds placed).filter_chains out
  unfolding place_built
  place_built-Placed heap quic [] lds placed p = (placed, p)
  place_built-Placed heap quic (route ∷ routes) lds placed p =
      let b = build_chain x conv (heap route) quic in
      elim (Result-cases (process_route b lds placed)) [
        | inr (e, r) ↦ rw (r, place_built) (place_built-Placed heap quic routes lds placed p)
        | inl ((m, l), r) ↦
            rw (r, place_built)
              (place_built-Placed heap quic routes l (add m placed) (
                process_route-Placed x b lds l placed m (build_chain-IsBuilt (heap route) quic) p
                  r))
      ]

  -- The matchers of the chains of a listener that processRoutes returns, static and from routes, have
  -- no duplicate among them. The cache is one that holds
  -- what the routes build.
  pub process_routes-Apart :
      (heap : ℕ → Route) (routes : List ℕ) (lds out : Listener Filter)
      (cache cache' : ChainCache Filter)
      → CacheIsFresh x conv heap cache
      → process_routes x conv heap routes lds cache ≡ ok (out, cache')
      → (ms : List Matcher) × MatchersOf x out.filter_chains ms × Apart ms
  unfolding process_routes
  process_routes-Apart heap routes lds out cache cache' fresh h =
      elim (Result-cases (place_static x lds.filter_chains empty_set)) [
        | inr (e, r) ↦ ground arith
        | inl (placed, r) ↦
            let quic = is_quic lds in
            let start =
              place_static-Placed x [] lds.filter_chains empty_set placed
                ([], tt, unfold add_all in refl, tt) r in
            let (same, _) = place_routes-eq-built x conv heap quic routes lds placed cache fresh in
            let (set, (ms, found, _, apart)) =
              place_built-Placed heap quic routes lds placed start in
            let shown : place_built x conv heap quic routes lds placed ≡ out = ground arith in
            (
              ms,
              subst (λ (l : Listener Filter). MatchersOf x l.filter_chains ms) shown found,
              apart,
            )
      ]
