-- ===== src/Fcm/Index.antt =====
-- pkg/xds/fcm/fcm.go: Set, the matchers placed on one listener, filed under their server names.
use xds_controller.Prelude.{
  Bool, true, false, ◌&&◌, ◌||◌, none, some, ◌==◌, list_eq, nat_eq, List, [], ◌∷◌, ◌++◌, Text, Map,
  lookup, insert, lookup-insert, contains, any, any-append, any_or, any_and, ◌≡◌, refl, arith, ◌∙◌,
  ap, fun_ext, eq_of_beq, beq_of_eq,
}
use xds_controller.Fcm.{Verdict, shadow, duplicate, Matcher}
use xds_controller.Fcm.Names.{compare_server_names_lem}
use xds_controller.Fcm.Verdicts.{compare_matchers}

pub record Set : Type 0 where
  pub by_name : Map Text (List Matcher)

abbrev pub empty_set : Set
empty_set = record { by_name = [] }

-- s.byName[n]
abbrev filed : Text → Map Text (List Matcher) → List Matcher
filed n by_name = elim (lookup n by_name) [ none ↦ [] | some ms ↦ ms ]

unfoldable pub file : List Text → Matcher → Map Text (List Matcher) → Map Text (List Matcher)
file [] m by_name = by_name
file (n ∷ ns) m by_name = file ns m (insert n (filed n by_name ++ m ∷ []) by_name)

-- Add
unfoldable pub add : Matcher → Set → Set
add m s = record { by_name = file m.server_names m s.by_name }

abbrev pub is_duplicate : Verdict → Bool
is_duplicate duplicate = true
is_duplicate shadow = false
is_duplicate Verdict.none = false

-- HasDuplicate
unfoldable pub has_duplicate : Matcher → Set → Bool
has_duplicate m s =
    any (λ n. any (λ p. is_duplicate (compare_matchers m p)) (filed n s.by_name)) m.server_names

-- The set after the matchers are placed one after the other.
unfoldable pub add_all : List Matcher → Set → Set
add_all [] s = s
add_all (p ∷ ps) s = add_all ps (add p s)

filed-insert :
    (f : Matcher → Bool) (k n : Text) (p : Matcher) (by_name : Map Text (List Matcher))
    → any f (filed n (insert k (filed k by_name ++ p ∷ []) by_name))
      ≡ (any f (filed n by_name) || (n == k && f p))
filed-insert f k n p by_name = ground (
  arith,
  lookup-insert k n (filed k by_name ++ p ∷ []) by_name,
  any-append f (filed k by_name) (p ∷ []),
  eq_of_beq k n,
  eq_of_beq n k,
  beq_of_eq k n,
  beq_of_eq n k,
)

filed-file :
    (f : Matcher → Bool) (ns : List Text) (n : Text) (p : Matcher)
    (by_name : Map Text (List Matcher))
    → any f (filed n (file ns p by_name)) ≡ (any f (filed n by_name) || (contains ns n && f p))
unfolding file contains
filed-file f [] n p by_name = ground arith
filed-file f (k ∷ ns) n p by_name = ground (
  arith,
  filed-file f ns n p (insert k (filed k by_name ++ p ∷ []) by_name),
  filed-insert f k n p by_name,
)

-- A duplicate shares a server name, so it is found where the index looks.
duplicate_shares :
    (m p : Matcher)
    → is_duplicate (compare_matchers m p) ≡ true
    → any (contains p.server_names) m.server_names ≡ true
unfolding compare_matchers
duplicate_shares m p h = ground (arith, compare_server_names_lem m.server_names p.server_names)

has_duplicate-add :
    (m p : Matcher) (s : Set)
    → has_duplicate m (add p s) ≡ (has_duplicate m s || is_duplicate (compare_matchers m p))
unfolding has_duplicate add
has_duplicate-add m p s =
    let f : Matcher → Bool = λ q. is_duplicate (compare_matchers m q) in
    let here : Text → Bool = λ n. any f (filed n s.by_name) in
    let new : Text → Bool = λ n. contains p.server_names n && f p in
    ap (λ (g : Text → Bool). any g m.server_names)
      (fun_ext (λ n. filed-file f p.server_names n p s.by_name))
    ∙ (any_or here new m.server_names
        ∙ ground
            (arith, any_and (contains p.server_names) (f p) m.server_names, duplicate_shares m p))

has_duplicate-add_all :
    (m : Matcher) (ps : List Matcher) (s : Set)
    → has_duplicate m (add_all ps s)
      ≡ (has_duplicate m s || any (λ p. is_duplicate (compare_matchers m p)) ps)
unfolding add_all
has_duplicate-add_all m [] s = ground arith
has_duplicate-add_all m (p ∷ ps) s =
    ground (arith, has_duplicate-add_all m ps (add p s), has_duplicate-add m p s)

search_empty :
    (m : Matcher) (ns : List Text)
    → any (λ n. any (λ p. is_duplicate (compare_matchers m p)) (filed n [])) ns ≡ false
unfolding lookup
search_empty m [] = refl
search_empty m (n ∷ ns) = search_empty m ns

has_duplicate-empty : (m : Matcher) → has_duplicate m empty_set ≡ false
unfolding has_duplicate
has_duplicate-empty m = search_empty m m.server_names

-- The index by server name answers as a search through all placed matchers would.
pub has_duplicate-eq-search :
    (m : Matcher) (ps : List Matcher)
    → has_duplicate m (add_all ps empty_set) ≡ any (λ p. is_duplicate (compare_matchers m p)) ps
has_duplicate-eq-search m ps =
    ground (arith, has_duplicate-add_all m ps empty_set, has_duplicate-empty m)
