-- ===== src/Fcm/Names.antt =====
-- pkg/xds/fcm/fcm.go: how two lists of server names overlap.
use xds_controller.Prelude.{
  ℕ, ◌+◌, Bool, true, false, not, ◌&&◌, ◌||◌, if◌then◌else◌, Option, some, none, Text, ◌==◌, nat_eq,
  list_eq, List, [], ◌∷◌, ◌++◌, is_empty, codes, has_prefix, cut, length, arith, ◌≡◌, ◌≢◌, ◌↔◌,
  refl, eq_of_beq, beq_of_eq, beq_of_ne, Option-cases, inl, inr, ap, sym, ◌∙◌, any, contains,
  any-any_comm, any-contains_comm, fun_ext,
}
use xds_controller.Fcm.{Verdict, shadow, duplicate, ascii_lower, trim_star}

abbrev pub dot : ℕ
dot = b'.'

-- covers
unfoldable pub covers : Text → Text → Bool
covers pattern domain =
    if not (has_prefix pattern (codes ".")) then false else elim (cut dot domain) [
      | none ↦ false
      | some p ↦ not (is_empty p.0) && dot ∷ p.1 == pattern
    ]

-- x[len(x)-1] == '.' && x[:len(y)] == y, where x has one character more than y
unfoldable pub ends_in_dot : Text → Text → Bool
ends_in_dot [] y = false
ends_in_dot (c ∷ x) [] = c == dot && is_empty x
ends_in_dot (c ∷ x) (d ∷ y) = c == d && ends_in_dot x y

-- sameButTrailingDot
unfoldable pub same_but_trailing_dot : Text → Text → Bool
unfolding ends_in_dot
same_but_trailing_dot x y =
    if length x == length y + 1
    then ends_in_dot x y
    else if length y == length x + 1
    then ends_in_dot y x
    else false

unfoldable pub overlaps : Text → Text → Bool
unfolding covers same_but_trailing_dot
overlaps x y =
    not (is_empty x) && not (is_empty y) && (covers x y || covers y x || same_but_trailing_dot x y)

-- the inner loop: `none` is the early return of Duplicate
unfoldable pub scan_name : Text → List Text → Verdict → Option Verdict
unfolding overlaps
scan_name x [] v = some v
scan_name x (y ∷ ys) v =
    let rest = scan_name x ys (if overlaps x y then shadow else v) in if x == y then none else rest

-- the outer loop
unfoldable pub scan_names : List Text → List Text → Verdict → Verdict
unfolding scan_name
scan_names [] b v = v
scan_names (x ∷ a) b v = elim (scan_name x b v) [ none ↦ duplicate | some w ↦ scan_names a b w ]

unfoldable pub compare_server_names : List Text → List Text → Verdict
unfolding scan_names
compare_server_names a b = scan_names a b Verdict.none

-- strings.TrimSuffix(s, ".")
unfoldable pub trim_dot : Text → Text
trim_dot [] = []
trim_dot (c ∷ s) = if c == dot && is_empty s then [] else c ∷ trim_dot s

-- MatchDomainName
unfoldable pub match_domain_name : Text → Text → Bool
unfolding covers trim_dot
match_domain_name pattern domain =
    let p = trim_star (ascii_lower (trim_dot pattern)) in
    let d = trim_star (ascii_lower (trim_dot domain)) in p == d || covers p d

abbrev pub NoDot : Text → Type 0
NoDot [] = Unit
NoDot (c ∷ s) = (c ≢ dot) × NoDot s

cut-some : (s l r : Text) → cut dot s ≡ some (l, r) → NoDot l × (s ≡ l ++ dot ∷ r)
unfolding cut
cut-some [] l r h = cc
cut-some (c ∷ s) [] r h = ground (arith, cut-some s [] r)
cut-some (c ∷ s) (d ∷ l) r h =
    let e : (c ≢ dot) × (c ≡ d) × (cut dot s ≡ some (l, r)) =
      (ground arith, ground arith, ground arith) in
    let ih = cut-some s l r e.2 in ((λ q. e.0 (e.1 ∙ q), ih.0), ground (arith, ih.1))

cut_found : (l r : Text) → NoDot l → cut dot (l ++ dot ∷ r) ≡ some (l, r)
unfolding cut
cut_found [] r h = refl
cut_found (c ∷ l) r h = rw (beq_of_ne c dot h.0, cut_found l r h.1)

-- A wildcard key covers a name exactly if the name is one nonempty label, without a dot, in front of
-- what the key holds from its dot on.
covers_iff :
    (pattern domain : Text)
    → (covers pattern domain ≡ true) ↔ (
        (label : Text) × (rest : Text) × NoDot label
        × (is_empty label ≡ false)
        × (pattern ≡ dot ∷ rest)
        × (domain ≡ label ++ dot ∷ rest))
unfolding covers has_prefix
covers_iff pattern domain = (
  λ h. elim (Option-cases (cut dot domain)) [
    | inl e ↦ ground arith
    | inr ((l, r), e) ↦
        let c = cut-some domain l r e in
        (l, r, c.0, ground arith, ground (arith, eq_of_beq (dot ∷ r) pattern), c.1)
  ],
  λ (l, r, n, f, p, d).
      ground (arith, p, d, f, cut_found l r n, beq_of_eq (dot ∷ r) pattern (sym p)),
)

covers_irrefl : (x : Text) → covers x x ≡ false
unfolding covers has_prefix cut
covers_irrefl [] = refl
covers_irrefl (c ∷ x) = ground arith

scan_name_lem :
    (x : Text) (ys : List Text) (v : Verdict)
    → scan_name x ys v
      ≡ (if contains ys x then none else some (if any (overlaps x) ys then shadow else v))
unfolding scan_name contains
scan_name_lem x [] v = refl
scan_name_lem x (y ∷ ys) v = ground (arith, scan_name_lem x ys (if overlaps x y then shadow else v))

scan_names_lem :
    (a b : List Text) (v : Verdict)
    → scan_names a b v ≡ (
        if any (contains b) a
        then duplicate
        else if any (λ x. any (overlaps x) b) a
        then shadow
        else v)
unfolding scan_names
scan_names_lem [] b v = refl
scan_names_lem (x ∷ a) b v =
    ground
      (arith, scan_name_lem x b v, scan_names_lem a b (if any (overlaps x) b then shadow else v))

-- The loops find a shared name wherever it stands, and report an overlap only without one.
pub compare_server_names_lem :
    (a b : List Text)
    → compare_server_names a b ≡ (
        if any (contains b) a
        then duplicate
        else if any (λ x. any (overlaps x) b) a
        then shadow
        else Verdict.none)
unfolding compare_server_names
compare_server_names_lem a b = scan_names_lem a b Verdict.none

overlaps_comm : (x y : Text) → overlaps x y ≡ overlaps y x
unfolding overlaps
overlaps_comm x y = ground arith

any-overlaps_comm :
    (a b : List Text) → any (λ x. any (overlaps x) b) a ≡ any (λ y. any (overlaps y) a) b
any-overlaps_comm a b =
    any-any_comm overlaps a b
    ∙ ap (λ (f : Text → Text → Bool). any (λ y. any (f y) a) b)
        (fun_ext (λ y. fun_ext (λ x. overlaps_comm x y)))

pub compare_server_names_comm :
    (a b : List Text) → compare_server_names a b ≡ compare_server_names b a
compare_server_names_comm a b = ground (
  arith,
  compare_server_names_lem a b,
  compare_server_names_lem b a,
  any-contains_comm a b,
  any-overlaps_comm a b,
)
