-- ===== src/Util/Age.antt =====
-- controllers/util/util.go: the order that OlderRoute gives.
use xds_controller.Prelude.{true, false, Text, nat_eq, ◌≡◌, ◌≢◌, ◌⊎◌, refl, arith, [], ◌∷◌, text_lt}
use xds_controller.Util.{RouteAge, older_route}

pub text_lt_irrefl : (s : Text) → text_lt s s ≡ false
unfolding text_lt
text_lt_irrefl [] = refl
text_lt_irrefl (c ∷ s) = ground (arith, text_lt_irrefl s)

pub text_lt_asymm : (s t : Text) → text_lt s t ≡ true → text_lt t s ≡ false
unfolding text_lt
text_lt_asymm [] [] h = refl
text_lt_asymm [] (d ∷ t) h = refl
text_lt_asymm (c ∷ s) [] h = cc
text_lt_asymm (c ∷ s) (d ∷ t) h = ground (arith, text_lt_asymm s t)

pub text_lt_trans : (s t u : Text) → text_lt s t ≡ true → text_lt t u ≡ true → text_lt s u ≡ true
unfolding text_lt
text_lt_trans s t [] h k = cc
text_lt_trans s [] (e ∷ u) h k = cc
text_lt_trans [] (d ∷ t) (e ∷ u) h k = refl
text_lt_trans (c ∷ s) (d ∷ t) (e ∷ u) h k = ground (arith, text_lt_trans s t u)

pub text_lt_total : (s t : Text) → text_lt s t ≡ false → text_lt t s ≡ false → s ≡ t
unfolding text_lt
text_lt_total [] [] h k = refl
text_lt_total [] (d ∷ t) h k = cc
text_lt_total (c ∷ s) [] h k = cc
text_lt_total (c ∷ s) (d ∷ t) h k = ground (arith, text_lt_total s t)

-- OlderRoute is transitive: a route older than one that is older than a third precedes the third.
older_trans :
    (a b c : RouteAge) → older_route a b ≡ true → older_route b c ≡ true → older_route a c ≡ true
unfolding older_route
older_trans a b c h k = ground (arith, text_lt_trans a.name b.name c.name)

-- Of two routes with different names exactly one takes precedence.
older_route_decides :
    (a b : RouteAge)
    → a.name ≢ b.name
    → ((older_route a b ≡ true) × (older_route b a ≡ false))
      ⊎ ((older_route a b ≡ false) × (older_route b a ≡ true))
unfolding older_route
older_route_decides a b ne =
    ground (arith, ne, text_lt_total a.name b.name, text_lt_asymm a.name b.name)
