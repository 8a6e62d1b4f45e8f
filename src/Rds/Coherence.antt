-- ===== src/Rds/Coherence.antt =====
-- controllers/rds/route_controller.go: routes that can be served together, and what findConflicts
-- finds of those that cannot.
use xds_controller.Prelude.{
  Bool, true, false, ◌&&◌, ◌||◌, Option, some, Text, ◌==◌, list_eq, nat_eq, List, [], ◌∷◌, ◌++◌,
  any, any-append, contains, contains-append, All, ◌≡◌, inl, inr, refl, arith, Bool-cases,
  eq_of_beq, beq_of_eq, subst, sym, ap, ◌∙◌,
}
use xds_controller.Fcm.{Verdict, Matcher}
use xds_controller.Api.{Route}
use xds_controller.Registry.{named}
use xds_controller.Rds.{
  RouteConfig, RouteConflict, route_conflict, is_none, conflict_with, collect_conflicts,
  insert_by_age, sort_by_age, find_conflicts,
}
use xds_controller.Rds.Conflicts.{route_conflict_comm}
use xds_controller.Rds.Placement.{route_name}
use xds_controller.Rds.Effects.{Routes, put_at}

-- The routes' filter chains do not collide on a node.
abbrev pub Coexist : RouteConfig → RouteConfig → Type 0
Coexist a b =
    (k l : Matcher)
    → a.matcher ≡ some k
    → b.matcher ≡ some l
    → route_conflict a.route b.route k l ≡ Verdict.none

-- A route is the same on all of its nodes and has its matcher, and no two routes of a node collide.
pub record Coherent (f : Routes) : Type 0 where
  pub uniform :
      (m n name : Text) (a b : RouteConfig) → f m name ≡ some a → f n name ≡ some b → a ≡ b
  pub compiled :
      (m name : Text) (a : RouteConfig) → f m name ≡ some a → (k : Matcher) × (a.matcher ≡ some k)
  pub peaceful :
      (m n1 n2 : Text) (a b : RouteConfig)
      → f m n1 ≡ some a
      → f m n2 ≡ some b
      → (n1 == n2) ≡ false
      → Coexist a b

-- Fewer routes are still coherent.
pub Coherent-fewer :
    (f g : Routes)
    → ((m n : Text) (a : RouteConfig) → g m n ≡ some a → f m n ≡ some a)
    → Coherent f
    → Coherent g
Coherent-fewer f g sub c = record {
  uniform = λ m n name a b h k. c.uniform m n name a b (sub m name a h) (sub n name b k);
  compiled = λ m name a h. c.compiled m name a (sub m name a h);
  peaceful = λ m n1 n2 a b h k ne. c.peaceful m n1 n2 a b (sub m n1 a h) (sub m n2 b k) ne;
}

-- The route collides with none of the routes of the nodes.
abbrev pub Fits : List Text → RouteConfig → Matcher → Routes → Type 0
Fits nodes rc m f =
    (node n : Text) (a : RouteConfig) (l : Matcher)
    → contains nodes node ≡ true
    → f node n ≡ some a
    → (route_name rc == n) ≡ false
    → a.matcher ≡ some l
    → route_conflict rc.route a.route m l ≡ Verdict.none

module _ (nodes : List Text) (rc : RouteConfig) (m : Matcher) (f : Routes) (c : Coherent f)
    (has_matcher : rc.matcher ≡ some m)
    (only : (k : Text) (a : RouteConfig) → f k (route_name rc) ≡ some a → contains nodes k ≡ true)
    (fits : Fits nodes rc m f) where
  put-uniform :
      (p q name : Text) (a b : RouteConfig)
      → put_at nodes rc f p name ≡ some a
      → put_at nodes rc f q name ≡ some b
      → a ≡ b
  put-uniform p q name a b h k = elim (Bool-cases (route_name rc == name)) [
    | inl e ↦
        let n : route_name rc ≡ name = eq_of_beq (route_name rc) name e in
        ground (arith, only p a, only q b, n, ap (f p) n, ap (f q) n)
    | inr e ↦ ground (arith, c.uniform p q name a b)
  ]

  put-compiled :
      (p name : Text) (a : RouteConfig)
      → put_at nodes rc f p name ≡ some a
      → (k : Matcher) × (a.matcher ≡ some k)
  put-compiled p name a h = elim (Bool-cases (contains nodes p && route_name rc == name)) [
    | inl e ↦
        let eq : rc ≡ a = ground arith in
        (m, subst (λ (r : RouteConfig). r.matcher ≡ some m) eq has_matcher)
    | inr e ↦ c.compiled p name a (ground arith)
  ]

  beside :
      (p n2 : Text) (b : RouteConfig)
      → contains nodes p ≡ true
      → f p n2 ≡ some b
      → (route_name rc == n2) ≡ false
      → Coexist rc b
  beside p n2 b i h ne k l hk hl =
      let eq : m ≡ k = ground (arith, has_matcher) in
      subst (λ j. route_conflict rc.route b.route j l ≡ Verdict.none) eq (fits p n2 b l i h ne hl)

  flip : (a b : RouteConfig) → Coexist a b → Coexist b a
  flip a b x k l hk hl = route_conflict_comm b.route a.route k l ∙ x l k hl hk

  put-peaceful :
      (p n1 n2 : Text) (a b : RouteConfig)
      → put_at nodes rc f p n1 ≡ some a
      → put_at nodes rc f p n2 ≡ some b
      → (n1 == n2) ≡ false
      → Coexist a b
  put-peaceful p n1 n2 a b h k ne = elim (Bool-cases (contains nodes p && route_name rc == n1)) [
    | inl e ↦
        let eq : rc ≡ a = ground arith in
        let away : (route_name rc == n2) ≡ false =
          ground
            (arith, eq_of_beq (route_name rc) n1, eq_of_beq (route_name rc) n2, beq_of_eq n1 n2) in
        subst (λ r. Coexist r b) eq (beside p n2 b (ground arith) (ground arith) away)
    | inr e ↦ elim (Bool-cases (contains nodes p && route_name rc == n2)) [
      | inl d ↦
          let eq : rc ≡ b = ground arith in
          subst (λ r. Coexist a r) eq
            (flip rc a (beside p n1 a (ground arith) (ground arith) (ground arith)))
      | inr d ↦ c.peaceful p n1 n2 a b (ground arith) (ground arith) ne
    ]
  ]

  -- A route that fits can be placed on the nodes, if it was on no other.
  pub Coherent-put : Coherent (put_at nodes rc f)
  Coherent-put = record {
    uniform = λ p q name a b h k. put-uniform p q name a b h k;
    compiled = λ p name a h. put-compiled p name a h;
    peaceful = λ p n1 n2 a b h k ne. put-peaceful p n1 n2 a b h k ne;
  }

-- One of the conflicts is with the named route.
abbrev pub hits : Text → List RouteConflict → Bool
hits name cs = any (λ (c : RouteConflict). c.route.age.name == name) cs

insert_by_age-hits :
    (name : Text) (c : RouteConflict) (cs : List RouteConflict)
    → hits name (insert_by_age c cs) ≡ (c.route.age.name == name || hits name cs)
unfolding insert_by_age
insert_by_age-hits name c [] = refl
insert_by_age-hits name c (d ∷ ds) = ground (arith, insert_by_age-hits name c ds)

sort_by_age-hits :
    (name : Text) (cs : List RouteConflict) → hits name (sort_by_age cs) ≡ hits name cs
unfolding sort_by_age
sort_by_age-hits name [] = refl
sort_by_age-hits name (c ∷ cs) =
    ground (arith, sort_by_age-hits name cs, insert_by_age-hits name c (sort_by_age cs))

-- Every entry of the list with the route's name is the route.
abbrev pub Alone : RouteConfig → List RouteConfig → Type 0
Alone a rcs = All (λ (q : RouteConfig). (route_name q == route_name a) ≡ true → q ≡ a) rcs

module _ (compile : Route → Option Matcher) (route : Route) (m : Matcher) where
  -- A route that collides is among the conflicts, if its name was not yet seen.
  collect-hits :
      (a : RouteConfig) (seen : List Text) (rcs : List RouteConfig)
      → Alone a rcs
      → named route_name (route_name a) rcs ≡ true
      → contains seen (route_name a) ≡ false
      → (route_name a == route.age.name) ≡ false
      → hits (route_name a) (conflict_with compile route m a) ≡ true
      → hits (route_name a) (collect_conflicts compile route m seen rcs) ≡ true
  unfolding collect_conflicts contains
  collect-hits a seen [] al h s ne x = cc
  collect-hits a seen (q ∷ rcs) al h s ne x =
      let name = route_name a in
      let more = collect_conflicts compile route m (seen ++ route_name q ∷ []) rcs in
      elim (Bool-cases (route_name q == name)) [
        | inl e ↦
            let eq : q ≡ a = al.0 e in
            let first : hits name (conflict_with compile route m q) ≡ true =
              subst (λ r. hits name (conflict_with compile route m r) ≡ true) (sym eq) x in
            let fresh : (route_name q == route.age.name || contains seen (route_name q)) ≡ false =
              subst
                (λ (r : RouteConfig).
                  (route_name r == route.age.name || contains seen (route_name r)) ≡ false)
                (sym eq) (ground arith) in
            rw (fresh, collect_conflicts)
              (ground (
                arith,
                first,
                any-append (λ (c : RouteConflict). c.route.age.name == name)
                    (conflict_with compile route m q) more,
              ))
        | inr e ↦
            let skipped = collect-hits a seen rcs al.1 (ground arith) s ne x in
            let later : hits name more ≡ true =
              collect-hits a (seen ++ route_name q ∷ []) rcs al.1 (ground arith)
                (ground (
                  arith,
                  contains-append name seen (route_name q ∷ []),
                  eq_of_beq name (route_name q),
                  beq_of_eq (route_name q) name,
                ))
                ne x in
            ground (
              arith,
              skipped,
              later,
              any-append (λ (c : RouteConflict). c.route.age.name == name)
                  (conflict_with compile route m q) more,
            )
      ]

  pub find_conflicts-hits :
      (a : RouteConfig) (l : Matcher) (rcs : List RouteConfig)
      → Alone a rcs
      → named route_name (route_name a) rcs ≡ true
      → (route_name a == route.age.name) ≡ false
      → a.matcher ≡ some l
      → hits (route_name a) (find_conflicts compile route m rcs) ≡ false
      → route_conflict route a.route m l ≡ Verdict.none
  unfolding find_conflicts contains
  find_conflicts-hits a l rcs al h ne ml miss =
      elim (Bool-cases (is_none (route_conflict route a.route m l))) [
        | inl e ↦ ground arith
        | inr e ↦
            let hit : hits (route_name a) (conflict_with compile route m a) ≡ true =
              ground (arith, beq_of_eq (route_name a) (route_name a) refl) in
            ground (
              arith,
              collect-hits a [] rcs al h refl ne hit,
              sort_by_age-hits (route_name a) (collect_conflicts compile route m [] rcs),
            )
      ]
