-- ===== src/Rds/Conflicts.antt =====
-- controllers/rds/route_controller.go: conflicts seen from either route.
use xds_controller.Prelude.{
  Bool, true, false, Option, Text, list_eq, nat_eq, List, [], ◌∷◌, any, any-any_comm,
  any-contains_comm, ◌≡◌, ◌∙◌, refl, arith, ap, fun_ext, All, Bool-cases, inl, inr,
}
use xds_controller.Fcm.{Matcher}
use xds_controller.Fcm.Verdicts.{compare_comm}
use xds_controller.Api.{Route, VirtualHost}
use xds_controller.Rds.{
  shares_name, has_virtual_host_overlap, virtual_hosts_overlap, route_conflict, RouteConflict,
  RouteConfig, insert_by_age, sort_by_age, collect_conflicts, find_conflicts,
}
use xds_controller.Util.{RouteAge, older_route}
use xds_controller.Util.Age.{text_lt_asymm, text_lt_trans, text_lt_total, text_lt_irrefl}

shares_name_comm : (a b : List Text) → shares_name a b ≡ shares_name b a
unfolding shares_name
shares_name_comm a b = any-contains_comm a b

has_virtual_host_overlap_comm :
    (a b : VirtualHost) → has_virtual_host_overlap a b ≡ has_virtual_host_overlap b a
unfolding has_virtual_host_overlap
has_virtual_host_overlap_comm Option.none Option.none = refl
has_virtual_host_overlap_comm Option.none (Option.some b) = refl
has_virtual_host_overlap_comm (Option.some a) Option.none = refl
has_virtual_host_overlap_comm (Option.some a) (Option.some b) = shares_name_comm a b

virtual_hosts_overlap_comm :
    (a b : Option (List VirtualHost)) → virtual_hosts_overlap a b ≡ virtual_hosts_overlap b a
unfolding virtual_hosts_overlap
virtual_hosts_overlap_comm Option.none Option.none = refl
virtual_hosts_overlap_comm Option.none (Option.some b) = refl
virtual_hosts_overlap_comm (Option.some a) Option.none = refl
virtual_hosts_overlap_comm (Option.some a) (Option.some b) =
    any-any_comm has_virtual_host_overlap a b
    ∙ ap (λ (f : VirtualHost → VirtualHost → Bool). any (λ y. any (f y) a) b)
        (fun_ext (λ y. fun_ext (λ x. has_virtual_host_overlap_comm x y)))

-- Two routes conflict in the same way from whichever of them the conflict is looked for.
pub route_conflict_comm :
    (a b : Route) (ma mb : Matcher) → route_conflict a b ma mb ≡ route_conflict b a mb ma
unfolding route_conflict
route_conflict_comm a b ma mb = ground (
  arith,
  shares_name_comm a.listener_refs b.listener_refs,
  compare_comm ma mb,
  virtual_hosts_overlap_comm a.virtual_hosts b.virtual_hosts,
)

-- c precedes d, or neither precedes the other.
abbrev NotAfter : RouteConflict → RouteConflict → Type 0
NotAfter c d = older_route d.route.age c.route.age ≡ false

-- No conflict of the list is of a route that an earlier one's route is younger than.
abbrev pub OldestFirst : List RouteConflict → Type 0
OldestFirst [] = Unit
OldestFirst (c ∷ cs) = All (λ d. older_route d.route.age c.route.age ≡ false) cs × OldestFirst cs

older_asymm : (a b : RouteAge) → older_route a b ≡ true → older_route b a ≡ false
unfolding older_route
older_asymm a b h = ground (arith, text_lt_asymm a.name b.name)

pub not_older_trans :
    (a b c : RouteAge) → older_route c b ≡ false → older_route b a ≡ false → older_route c a ≡ false
unfolding older_route
not_older_trans a b c h k = ground (
  arith,
  text_lt_trans c.name a.name b.name,
  text_lt_total a.name b.name,
  text_lt_total b.name a.name,
  text_lt_total c.name b.name,
  text_lt_irrefl a.name,
  text_lt_trans a.name b.name c.name,
)

All-not_older :
    (c d : RouteConflict) (ds : List RouteConflict)
    → NotAfter c d
    → All (NotAfter d) ds
    → All (NotAfter c) ds
All-not_older c d [] n a = tt
All-not_older c d (e ∷ ds) n a =
    (not_older_trans c.route.age d.route.age e.route.age a.0 n, All-not_older c d ds n a.1)

insert-All :
    (P : RouteConflict → Type 0) (c : RouteConflict) (ds : List RouteConflict)
    → P c
    → All P ds
    → All P (insert_by_age c ds)
unfolding insert_by_age
insert-All P c [] p a = (p, tt)
insert-All P c (d ∷ ds) p a = elim (Bool-cases (older_route d.route.age c.route.age)) [
  | inl e ↦ rw e (a.0, insert-All P c ds p a.1)
  | inr e ↦ rw e (p, a)
]

insert-OldestFirst :
    (c : RouteConflict) (ds : List RouteConflict)
    → OldestFirst ds
    → OldestFirst (insert_by_age c ds)
unfolding insert_by_age
insert-OldestFirst c [] s = (tt, tt)
insert-OldestFirst c (d ∷ ds) s = elim (Bool-cases (older_route d.route.age c.route.age)) [
  | inl e ↦ rw e (
    insert-All (NotAfter d) c ds (older_asymm d.route.age c.route.age e) s.0,
    insert-OldestFirst c ds s.1,
  )
  | inr e ↦ rw e ((e, All-not_older c d ds e s.0), s)
]

sort-OldestFirst : (cs : List RouteConflict) → OldestFirst (sort_by_age cs)
unfolding sort_by_age
sort-OldestFirst [] = tt
sort-OldestFirst (c ∷ cs) = insert-OldestFirst c (sort_by_age cs) (sort-OldestFirst cs)

-- findConflicts returns the conflicts oldest route first: no route of the result is older than one
-- that comes before it.
pub find_conflicts-OldestFirst :
    (compile : Route → Option Matcher) (route : Route) (m : Matcher) (placed : List RouteConfig)
    → OldestFirst (find_conflicts compile route m placed)
unfolding find_conflicts
find_conflicts-OldestFirst compile route m placed =
    sort-OldestFirst (collect_conflicts compile route m [] placed)
