-- ===== src/Lds/Reconcile/Rebuild.antt =====
-- controllers/lds/listener_controller.go: the listener that Reconcile builds goes by its own name and
-- to its own nodes.
use xds_controller.Prelude.{
  ℕ, Bool, false, not, ◌&&◌, some, Text, ◌==◌, nat_eq, list_eq, List, [], ◌∷◌, contains, is_empty,
  ok, Result-cases, ◌≡◌, refl, arith, Bool-cases, Option-cases, inl, inr, eq_of_beq, beq_of_eq,
  subst, ◌∙◌,
}
use xds_controller.Fcm.{Matcher}
use xds_controller.Fcm.Index.{Set, add, empty_set, has_duplicate}
use xds_controller.Lds.{
  Listener, ChainCache, BuiltChain, process_route, get_chain, place_routes, process_routes,
  place_static, is_quic, listener_recast,
}
use xds_controller.Lds.Reconcile.{
  ListenerObject, ListenerState, Setting, recast, rebuild, rebuild_all, get_routes_for_node,
}
use xds_controller.Lds.Reconcile.Confined.{
  serves, AreDistinct, serves-remove, remove-Confined, serves-update, update-distinct,
}

process_route-name :
    {Filter : Type 0} (b : BuiltChain Filter) (lds : Listener Filter) (placed : Set)
    (p : Matcher × Listener Filter)
    → process_route b lds placed ≡ ok p
    → p.1.name ≡ lds.name
unfolding process_route
process_route-name b lds placed p h = elim (Result-cases b.matcher) [
  | inr (e, q) ↦ ground arith
  | inl (m, q) ↦ elim (Bool-cases (has_duplicate m placed)) [
    | inl d ↦ ground arith
    | inr d ↦ elim (Result-cases b.chain) [
      | inr (e, r) ↦ ground arith
      | inl (chain, r) ↦ ground arith
    ]
  ]
]

module _ {Filter : Type 0} (x : Setting Filter) where
  place_routes-name :
      (quic : Bool) (rs : List ℕ) (lds : Listener Filter) (placed : Set) (cache : ChainCache Filter)
      → (place_routes x.externs x.conversions x.heap quic rs lds placed cache).0.name ≡ lds.name
  unfolding place_routes
  place_routes-name quic [] lds placed cache = refl
  place_routes-name quic (r ∷ rs) lds placed cache =
      let got = get_chain x.externs x.conversions x.heap cache r quic in
      elim (Result-cases (process_route got.0 lds placed)) [
        | inl (p, e) ↦
            rw (e, place_routes)
              (place_routes-name quic rs p.1 (add p.0 placed) got.1
                ∙ process_route-name got.0 lds placed p e)
        | inr (q, e) ↦ rw (e, place_routes) (place_routes-name quic rs lds placed got.1)
      ]

  process_routes-name :
      (rs : List ℕ) (lds : Listener Filter) (cache : ChainCache Filter)
      (p : Listener Filter × ChainCache Filter)
      → process_routes x.externs x.conversions x.heap rs lds cache ≡ ok p
      → p.0.name ≡ lds.name
  unfolding process_routes
  process_routes-name rs lds cache p h =
      elim (Result-cases (place_static x.externs lds.filter_chains empty_set)) [
        | inr (e, q) ↦ ground arith
        | inl (placed, q) ↦
            let same : place_routes x.externs x.conversions x.heap (is_quic lds) rs lds placed cache
                ≡ p =
              ground arith in
            subst (λ (r : Listener Filter × ChainCache Filter). r.0.name ≡ lds.name) same
              (place_routes-name (is_quic lds) rs lds placed cache)
      ]

  listener_recast-name :
      (name : Text) (rs : List ℕ) (lds : Listener Filter) (cache : ChainCache Filter)
      (p : Listener Filter × ChainCache Filter)
      → listener_recast x.externs x.conversions x.heap name rs lds cache ≡ ok p
      → p.0.name ≡ name
  unfolding listener_recast
  listener_recast-name name rs lds cache p h =
      elim (Bool-cases (is_empty rs && is_empty lds.filter_chains)) [
        | inl e ↦ ground arith
        | inr e ↦ process_routes-name rs (record lds { name = name }) cache p (ground arith)
      ]

  recast-name :
      (l : ListenerObject Filter) (rs : List ℕ) (cache : ChainCache Filter)
      (p : Listener Filter × ChainCache Filter)
      → recast x l rs cache ≡ some p
      → p.0.name ≡ l.name
  unfolding recast
  recast-name l rs cache p h = elim (Option-cases l.converted) [
    | inl e ↦ ground arith
    | inr (lds, e) ↦
        elim (Result-cases (listener_recast x.externs x.conversions x.heap l.name rs lds cache)) [
          | inr (f, q) ↦ ground arith
          | inl (out, q) ↦
              let same : out ≡ p = ground arith in
              subst (λ (r : Listener Filter × ChainCache Filter). r.0.name ≡ l.name) same
                (listener_recast-name l.name rs lds cache out q)
        ]
  ]

  -- One round leaves the other nodes and the other listeners as they are.
  rebuild-elsewhere :
      (l : ListenerObject Filter) (node : Text) (s : ListenerState Filter) (m n : Text)
      → (node == m && l.name == n) ≡ false
      → serves (rebuild x l node s) m n ≡ serves s m n
  unfolding rebuild contains
  rebuild-elsewhere l node s m n away =
      let rs = get_routes_for_node x l.name node in
      elim (Bool-cases (not l.has_filter_chains && is_empty rs)) [
        | inl e ↦
            rw (e, rebuild)
              (ground
                (arith, serves-remove l.name (node ∷ []) s m n, eq_of_beq m node, beq_of_eq node m))
        | inr e ↦ elim (Option-cases (recast x l rs s.chains)) [
          | inl f ↦ rw (e, f, rebuild) refl
          | inr (p, f) ↦
              rw (e, f, rebuild)
                (ground (
                  arith,
                  serves-update node p.0 (record s { chains = p.1 }) m n,
                  recast-name l rs s.chains p f,
                ))
        ]
      ]

  rebuild-distinct :
      (l : ListenerObject Filter) (node : Text) (s : ListenerState Filter)
      → AreDistinct s
      → AreDistinct (rebuild x l node s)
  unfolding rebuild
  rebuild-distinct l node s d =
      let rs = get_routes_for_node x l.name node in
      elim (Bool-cases (not l.has_filter_chains && is_empty rs)) [
        | inl e ↦ rw (e, rebuild) ((remove-Confined l.name (node ∷ []) s).distinct d)
        | inr e ↦ elim (Option-cases (recast x l rs s.chains)) [
          | inl f ↦ rw (e, f, rebuild) d
          | inr (p, f) ↦ rw (e, f, rebuild) (update-distinct node p.0 (record s { chains = p.1 }) d)
        ]
      ]

  pub rebuild_all-elsewhere :
      (l : ListenerObject Filter) (nodes : List Text) (s : ListenerState Filter) (m n : Text)
      → (contains nodes m && l.name == n) ≡ false
      → serves (rebuild_all x l nodes s) m n ≡ serves s m n
  unfolding rebuild_all contains
  rebuild_all-elsewhere l [] s m n away = refl
  rebuild_all-elsewhere l (node ∷ nodes) s m n away =
      rebuild_all-elsewhere l nodes (rebuild x l node s) m n (ground arith)
      ∙ rebuild-elsewhere l node s m n (ground (arith, eq_of_beq node m, beq_of_eq m node))

  pub rebuild_all-distinct :
      (l : ListenerObject Filter) (nodes : List Text) (s : ListenerState Filter)
      → AreDistinct s
      → AreDistinct (rebuild_all x l nodes s)
  unfolding rebuild_all
  rebuild_all-distinct l [] s d = d
  rebuild_all-distinct l (node ∷ nodes) s d =
      rebuild_all-distinct l nodes (rebuild x l node s) (rebuild-distinct l node s d)
