-- ===== src/Rds/Contest.antt =====
-- controllers/rds/route_controller.go: what becomes of the routes that wait for a winner.
use xds_controller.Prelude.{
  Bool, true, false, ◌||◌, if◌then◌else◌, delete, lookup-insert, lookup-delete, ◌==◌, list_eq,
  nat_eq, pair_eq, List, [], ◌∷◌, ◌++◌, contains, contains-append, ◌≡◌, inl, inr, refl, arith,
  Bool-cases, if_cases, eq_of_beq, subst, sym, ◌∙◌,
}
use xds_controller.Snapshot.{items}
use xds_controller.Status.{routes, set_has}
use xds_controller.Rds.Placement.{route_placement, remove_route_from_nodes}
use xds_controller.Rds.Reconcile.{
  Key, Env, RouterState, Fetched, found, missing, unreadable, add_loser, enqueue_route,
  enqueue_routes, requeue_losers, remove_and_notify, serve, reconcile,
}
use xds_controller.Rds.Closure.{Closed, serve-Closed, remove_and_notify-Closed}

-- The losers of a winner.
abbrev pub losers_of : Key → RouterState → List Key
losers_of winner s = items winner s.losers

-- No loser is forgotten, and no route is taken back from the queue.
pub record Keeps (s t : RouterState) : Type 0 where
  pub losers : (w l : Key) → contains (losers_of w s) l ≡ true → contains (losers_of w t) l ≡ true
  pub queue : (l : Key) → contains s.requeued l ≡ true → contains t.requeued l ≡ true

add_loser-keeps :
    (s : RouterState) (winner loser w l : Key)
    → contains (losers_of w s) l ≡ true
    → contains (losers_of w (add_loser winner loser s)) l ≡ true
unfolding add_loser contains
add_loser-keeps s winner loser w l h = ground (
  arith,
  lookup-insert winner w
      (if contains (losers_of winner s) loser
        then losers_of winner s
        else losers_of winner s ++ loser ∷ [])
      s.losers,
  contains-append l (losers_of winner s) (loser ∷ []),
  eq_of_beq winner w,
)

pub Keeps-Closed : Closed Keeps
unfolding add_loser
Keeps-Closed = record {
  stay = λ s. record { losers = λ w l h. h; queue = λ l h. h };
  then = λ s t u a b. record {
    losers = λ w l h. b.losers w l (a.losers w l h);
    queue = λ l h. b.queue l (a.queue l h);
  };
  signal = λ s status events. record { losers = λ w l h. h; queue = λ l h. h };
  enqueue = λ s key. record {
    losers = λ w l h. h;
    queue = λ l h. ground (arith, contains-append l s.requeued (key ∷ []));
  };
  lose = λ s winner loser. record {
    losers = λ w l h. add_loser-keeps s winner loser w l h;
    queue = λ l h. h;
  };
  tell = λ s reports. record { losers = λ w l h. h; queue = λ l h. h };
  remove = λ s name nodes. record { losers = λ w l h. h; queue = λ l h. h };
  place = λ s nodes rc. record { losers = λ w l h. h; queue = λ l h. h };
}

-- r.Get answers, be it that there is no such route.
abbrev pub reads : Fetched → Bool
reads (found rd) = true
reads missing = true
reads unreadable = false

-- The route waits for the winner, or is in the queue.
abbrev pub Tracked : Key → Key → RouterState → Type 0
Tracked w l s = (contains (losers_of w s) l || contains s.requeued l) ≡ true

module _ (env : Env) (requeues : env.requeues ≡ true) where
  pub enqueue_route-queue :
      (key : Key) (s : RouterState) → (enqueue_route env key s).requeued ≡ s.requeued ++ key ∷ []
  unfolding enqueue_route
  enqueue_route-queue key s =
      if_cases (λ (t : RouterState). t.requeued ≡ s.requeued ++ key ∷ []) env.requeues (λ e. refl)
        (λ e. ground arith)

  enqueue_routes-queue :
      (keys : List Key) (s : RouterState) (l : Key)
      → (contains keys l || contains s.requeued l) ≡ true
      → contains (enqueue_routes env keys s).requeued l ≡ true
  unfolding enqueue_routes contains
  enqueue_routes-queue [] s l h = ground arith
  enqueue_routes-queue (key ∷ keys) s l h =
      enqueue_routes-queue keys (enqueue_route env key s) l
        (rw (enqueue_route-queue key s) (ground (arith, contains-append l s.requeued (key ∷ []))))

  enqueue_routes-losers :
      (keys : List Key) (s : RouterState) → (enqueue_routes env keys s).losers ≡ s.losers
  unfolding enqueue_routes enqueue_route
  enqueue_routes-losers [] s = refl
  enqueue_routes-losers (key ∷ keys) s =
      enqueue_routes-losers keys (enqueue_route env key s)
      ∙ if_cases (λ (t : RouterState). t.losers ≡ s.losers) env.requeues (λ e. refl) (λ e. refl)

  -- The winner's losers are in the queue afterwards.
  requeue_losers-queue :
      (w l : Key) (s : RouterState)
      → Tracked w l s
      → contains (requeue_losers env w s).requeued l ≡ true
  unfolding requeue_losers
  requeue_losers-queue w l s h = enqueue_routes-queue (losers_of w s) _ l h

  requeue_losers-Tracked :
      (key w l : Key) (s : RouterState) → Tracked w l s → Tracked w l (requeue_losers env key s)
  unfolding requeue_losers
  requeue_losers-Tracked key w l s h = elim (Bool-cases (key == w)) [
    | inl e ↦
        let k : key ≡ w = eq_of_beq key w e in
        ground (
          arith,
          enqueue_routes-queue (losers_of key s) (record s { losers = delete key s.losers }) l
              (subst (λ v. (contains (losers_of v s) l || contains s.requeued l) ≡ true) (sym k) h),
        )
    | inr e ↦ elim (Bool-cases (contains s.requeued l)) [
      | inl q ↦ ground (
        arith,
        enqueue_routes-queue (losers_of key s) (record s { losers = delete key s.losers }) l
            (ground arith),
      )
      | inr q ↦
          rw (enqueue_routes-losers (losers_of key s) (record s { losers = delete key s.losers }))
            (ground (arith, lookup-delete key w s.losers))
    ]
  ]

  -- A reconcile that reads its route ends with the losers of the route put into the queue.
  reconcile-last :
      (fetched : Fetched) (key : Key) (s : RouterState)
      → reads fetched ≡ true
      → (t : RouterState) × Keeps s t × (reconcile env fetched key s ≡ requeue_losers env key t)
  unfolding reconcile remove_route_from_nodes
  reconcile-last unreadable key s h = ground arith
  reconcile-last missing key s h =
      let t = record s { status = set_has routes true s.status } in
      let previous = route_placement key.1 s.config in
      let removed = remove_route_from_nodes key.1 previous.nodes s.config in
      let k =
        remove_and_notify-Closed Keeps Keeps-Closed env key.0 key.1 previous.nodes removed.0 t in
      (
        remove_and_notify env key.0 removed t,
        record { losers = λ w l g. k.losers w l g; queue = λ l g. k.queue l g },
        refl,
      )
  reconcile-last (found rd) key s h =
      let t = record s { status = set_has routes true s.status } in
      let previous = route_placement key.1 s.config in
      let k = serve-Closed Keeps Keeps-Closed env rd key previous t in
      (
        serve env rd key previous t,
        record { losers = λ w l g. k.losers w l g; queue = λ l g. k.queue l g },
        refl,
      )

  pub reconcile-Tracked :
      (fetched : Fetched) (key w l : Key) (s : RouterState)
      → Tracked w l s
      → Tracked w l (reconcile env fetched key s)
  unfolding reconcile
  reconcile-Tracked unreadable key w l s h = h
  reconcile-Tracked missing key w l s h =
      let (t, k, eq) = reconcile-last missing key s refl in
      subst (Tracked w l) (sym eq)
        (requeue_losers-Tracked key w l t (ground (arith, k.losers w l, k.queue l)))
  reconcile-Tracked (found rd) key w l s h =
      let (t, k, eq) = reconcile-last (found rd) key s refl in
      subst (Tracked w l) (sym eq)
        (requeue_losers-Tracked key w l t (ground (arith, k.losers w l, k.queue l)))

  -- The reconcile of the winner puts the route into the queue.
  pub reconcile-queue :
      (fetched : Fetched) (w l : Key) (s : RouterState)
      → reads fetched ≡ true
      → Tracked w l s
      → contains (reconcile env fetched w s).requeued l ≡ true
  reconcile-queue fetched w l s r h =
      let (t, k, eq) = reconcile-last fetched w s r in
      rw eq (requeue_losers-queue w l t (ground (arith, k.losers w l, k.queue l)))

  pub reconcile-keeps_queue :
      (fetched : Fetched) (key l : Key) (s : RouterState)
      → contains s.requeued l ≡ true
      → contains (reconcile env fetched key s).requeued l ≡ true
  unfolding reconcile
  reconcile-keeps_queue unreadable key l s h = h
  reconcile-keeps_queue missing key l s h =
      let (t, k, eq) = reconcile-last missing key s refl in
      subst (λ (u : RouterState). contains u.requeued l ≡ true) (sym eq)
        (requeue_losers-queue key l t (ground (arith, k.queue l)))
  reconcile-keeps_queue (found rd) key l s h =
      let (t, k, eq) = reconcile-last (found rd) key s refl in
      subst (λ (u : RouterState). contains u.requeued l ≡ true) (sym eq)
        (requeue_losers-queue key l t (ground (arith, k.queue l)))
