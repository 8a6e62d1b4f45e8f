-- ===== src/Rds/Retry.antt =====
-- controllers/rds/route_controller.go: the outcome for a route that meets conflicts, and the retry of
-- the routes that lose.
use xds_controller.Prelude.{
  Bool, true, ◌&&◌, if◌then◌else◌, Text, lookup-insert, ◌==◌, list_eq, nat_eq, pair_eq, List, [],
  ◌∷◌, ◌++◌, any, contains, contains-append, Memᴰ, ◌≡◌, inl, inr, refl, arith, Bool-cases, if_cases,
  eq_of_beq, beq_of_eq, subst, sym,
}
use xds_controller.Api.{Route}
use xds_controller.Fcm.{Matcher}
use xds_controller.Util.{older_route}
use xds_controller.Rds.{RouteConflict}
use xds_controller.Rds.Placement.{Placement}
use xds_controller.Rds.Reconcile.{
  Key, Env, RouterState, Fetched, key_of, add_loser, add_losers, settle, reconcile, older_conflict,
}
use xds_controller.Rds.Closure.{add_losers-Closed, reject-Closed}
use xds_controller.Rds.Contest.{
  losers_of, Keeps, Keeps-Closed, Tracked, reads, reconcile-Tracked, reconcile-queue,
  reconcile-keeps_queue,
}

-- One of the conflicts is with an older route.
abbrev pub has_older : Route → List RouteConflict → Bool
has_older rd cs = any (λ (c : RouteConflict). older_route c.route.age rd.age) cs

add_loser-adds :
    (s : RouterState) (winner loser : Key)
    → contains (losers_of winner (add_loser winner loser s)) loser ≡ true
unfolding add_loser contains
add_loser-adds s winner loser = ground (
  arith,
  lookup-insert winner winner
      (if contains (losers_of winner s) loser
        then losers_of winner s
        else losers_of winner s ++ loser ∷ [])
      s.losers,
  contains-append loser (losers_of winner s) (loser ∷ []),
  beq_of_eq winner winner refl,
  beq_of_eq loser loser refl,
)

-- Each conflict with an older route has the key among the losers of that route.
add_losers-adds :
    (rd : Route) (key : Key) (c : RouteConflict) (cs : List RouteConflict) (s : RouterState)
    → Memᴰ c cs
    → older_route c.route.age rd.age ≡ true
    → contains (losers_of (key_of c.route) (add_losers rd key cs s)) key ≡ true
unfolding add_losers
add_losers-adds rd key c [] s m h = elim m [ ]
add_losers-adds rd key c (d ∷ cs) s (Memᴰ.head p) h =
    let older : older_route d.route.age rd.age ≡ true =
      subst (λ (e : RouteConflict). older_route e.route.age rd.age ≡ true) p h in
    let kept =
      (add_losers-Closed Keeps Keeps-Closed rd key cs (add_loser (key_of d.route) key s)).losers
        (key_of d.route) key (add_loser-adds s (key_of d.route) key) in
    subst
      (λ (e : RouteConflict).
        contains (losers_of (key_of e.route) (add_losers rd key (d ∷ cs) s)) key ≡ true)
      (sym p) (rw (older, add_losers) kept)
add_losers-adds rd key c (d ∷ cs) s (Memᴰ.tail m) h =
    if_cases (λ (t : RouterState). contains (losers_of (key_of c.route) t) key ≡ true)
      (older_route d.route.age rd.age)
      (λ e. add_losers-adds rd key c cs (add_loser (key_of d.route) key s) m h)
      (λ e. add_losers-adds rd key c cs s m h)

-- The reconciles of routes, one after the other.
unfoldable pub reconcile_all : Env → List (Fetched × Key) → RouterState → RouterState
reconcile_all env [] s = s
reconcile_all env ((fetched, key) ∷ events) s =
    reconcile_all env events (reconcile env fetched key s)

-- One of the reconciles is of the route and reads it.
abbrev pub reconciles : Key → List (Fetched × Key) → Bool
reconciles w events = any (λ (e : Fetched × Key). reads e.0 && e.1 == w) events

module _ (env : Env) (requeues : env.requeues ≡ true) where
  stays_queued :
      (l : Key) (events : List (Fetched × Key)) (s : RouterState)
      → contains s.requeued l ≡ true
      → contains (reconcile_all env events s).requeued l ≡ true
  unfolding reconcile_all
  stays_queued l [] s h = h
  stays_queued l ((fetched, key) ∷ events) s h =
      stays_queued l events (reconcile env fetched key s)
        (reconcile-keeps_queue env requeues fetched key l s h)

  waits_until_queued :
      (w l : Key) (events : List (Fetched × Key)) (s : RouterState)
      → Tracked w l s
      → reconciles w events ≡ true
      → contains (reconcile_all env events s).requeued l ≡ true
  unfolding reconcile_all
  waits_until_queued w l [] s h r = cc
  waits_until_queued w l ((fetched, key) ∷ events) s h r =
      elim (Bool-cases (reads fetched && key == w)) [
        | inl e ↦
            let k : key ≡ w = eq_of_beq key w (ground arith) in
            stays_queued l events (reconcile env fetched key s) (
              reconcile-queue env requeues fetched key l s (ground arith)
                (subst (λ v. Tracked v l s) (sym k) h))
        | inr e ↦
            waits_until_queued w l events (reconcile env fetched key s)
              (reconcile-Tracked env requeues fetched key w l s h) (ground arith)
      ]

  -- A route that the reconcile rejects, because the oldest of its conflicts is with an older route, is
  -- put into the queue again by the next reconcile that reads any of the older routes that it
  -- conflicts with, changed or gone, whatever is reconciled in between. The queue exists.
  pub loser_is_retried :
      (rd : Route) (m : Matcher) (key : Key) (nodes : List Text) (previous : Placement)
      (first c : RouteConflict) (rest : List RouteConflict) (s : RouterState)
      (events : List (Fetched × Key))
      → older_route first.route.age rd.age ≡ true
      → Memᴰ c (first ∷ rest)
      → older_route c.route.age rd.age ≡ true
      → reconciles (key_of c.route) events ≡ true
      → contains
          (reconcile_all env events (settle env rd m key nodes previous (first ∷ rest) s)).requeued
          key
        ≡ true
  unfolding settle
  loser_is_retried rd m key nodes previous first c rest s events lost mem older r =
      waits_until_queued (key_of c.route) key events _
        (if_cases (Tracked (key_of c.route) key) (older_route first.route.age rd.age)
          (λ e.
            let t = add_losers rd key (first ∷ rest) s in
            let k =
              reject-Closed Keeps Keeps-Closed env rd previous
                (older_conflict first.route.age.name first.verdict) t in
            ground (
              arith,
              add_losers-adds rd key c (first ∷ rest) s mem older,
              k.losers (key_of c.route) key,
            ))
          (λ e. ground arith))
        r
