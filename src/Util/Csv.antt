-- ===== src/Util/Csv.antt =====
-- controllers/util/util.go: ParseCSV.
use xds_controller.Prelude.{
  ℕ, false, ◌&&◌, Text, ◌==◌, nat_eq, ◌≡◌, ◌≢◌, refl, arith, List, [], ◌∷◌, ◌++◌, All, is_empty,
  codes, split, trim_left, trim_right, trim_space, is_space, join, keep, ne_of_beq, beq_of_ne,
  push_first, Bool-cases, inl, inr, ap, ◌∙◌,
}
use xds_controller.Util.{parse_csv, trim_all, nonempty}

abbrev pub comma : ℕ
comma = b','

abbrev pub NoComma : Text → Type 0
NoComma [] = Unit
NoComma (c ∷ s) = (c ≢ comma) × NoComma s

-- A name as ParseCSV returns it: not empty, with no comma, and with no space at either end.
pub record IsClean (p : Text) : Type 0 where
  pub nonempty : is_empty p ≡ false
  pub no_comma : NoComma p
  pub trimmed : trim_space p ≡ p

trim_left-NoComma : (s : Text) → NoComma s → NoComma (trim_left s)
unfolding trim_left
trim_left-NoComma [] h = tt
trim_left-NoComma (c ∷ s) h = elim (Bool-cases (is_space c)) [
  | inl e ↦ rw e (trim_left-NoComma s h.1)
  | inr e ↦ rw e h
]

trim_right-NoComma : (s : Text) → NoComma s → NoComma (trim_right s)
unfolding trim_right
trim_right-NoComma [] h = tt
trim_right-NoComma (c ∷ s) h = elim (Bool-cases (is_space c && is_empty (trim_right s))) [
  | inl e ↦ rw e tt
  | inr e ↦ rw e (h.0, trim_right-NoComma s h.1)
]

trim_right_idem : (s : Text) → trim_right (trim_right s) ≡ trim_right s
unfolding trim_right
trim_right_idem [] = refl
trim_right_idem (c ∷ s) = ground (arith, trim_right_idem s)

-- After the left side is trimmed, trimming the right leaves it so.
trim_left_stays : (s : Text) → trim_left (trim_right (trim_left s)) ≡ trim_right (trim_left s)
unfolding trim_left trim_right
trim_left_stays [] = refl
trim_left_stays (c ∷ s) = elim (Bool-cases (is_space c)) [
  | inl e ↦ rw e (trim_left_stays s)
  | inr e ↦ ground arith
]

trim_space_idem : (s : Text) → trim_space (trim_space s) ≡ trim_space s
unfolding trim_space
trim_space_idem s = rw (trim_left_stays s) (trim_right_idem (trim_left s))

push_first-NoComma :
    (c : ℕ) (ps : List Text) → c ≢ comma → All NoComma ps → All NoComma (push_first c ps)
push_first-NoComma c [] ne h = ((ne, tt), tt)
push_first-NoComma c (p ∷ ps) ne h = ((ne, h.0), h.1)

split-NoComma : (s : Text) → All NoComma (split comma s)
unfolding split
split-NoComma [] = (tt, tt)
split-NoComma (c ∷ s) = elim (Bool-cases (c == comma)) [
  | inl e ↦ rw e (tt, split-NoComma s)
  | inr e ↦ rw e (push_first-NoComma c (split comma s) (ne_of_beq c comma e) (split-NoComma s))
]

trim_space-NoComma : (s : Text) → NoComma s → NoComma (trim_space s)
unfolding trim_space
trim_space-NoComma s h = trim_right-NoComma (trim_left s) (trim_left-NoComma s h)

keep-IsClean : (ps : List Text) → All NoComma ps → All IsClean (keep nonempty (trim_all ps))
keep-IsClean [] h = tt
keep-IsClean (p ∷ ps) h = elim (Bool-cases (is_empty (trim_space p))) [
  | inl e ↦ rw e (keep-IsClean ps h.1)
  | inr e ↦ rw e (
    record { nonempty = e; no_comma = trim_space-NoComma p h.0; trimmed = trim_space_idem p },
    keep-IsClean ps h.1,
  )
]

-- Whatever the annotation, each name read from it is nonempty, holds no comma, and has no space at
-- its ends.
pub parse_csv-IsClean : (s : Text) → All IsClean (parse_csv s)
unfolding parse_csv
parse_csv-IsClean s = keep-IsClean (split comma s) (split-NoComma s)

split_one : (p : Text) → NoComma p → split comma p ≡ p ∷ []
unfolding split
split_one [] h = refl
split_one (c ∷ p) h = rw (beq_of_ne c comma h.0, split_one p h.1)

split_first : (p s : Text) → NoComma p → split comma (p ++ comma ∷ s) ≡ p ∷ split comma s
unfolding split
split_first [] s h = refl
split_first (c ∷ p) s h = rw (beq_of_ne c comma h.0, split_first p s h.1)

keep_of-IsClean :
    (p : Text) (ps : List Text)
    → IsClean p
    → keep nonempty (trim_all (p ∷ ps)) ≡ p ∷ keep nonempty (trim_all ps)
keep_of-IsClean p ps h = rw (h.trimmed, h.nonempty)

split-join :
    (p : Text) (ps : List Text)
    → All IsClean (p ∷ ps)
    → keep nonempty (trim_all (split comma (join (comma ∷ []) (p ∷ ps)))) ≡ p ∷ ps
unfolding join
split-join p [] h = rw (split_one p h.0.no_comma) (keep_of-IsClean p [] h.0)
split-join p (q ∷ ps) h = rw (split_first p (join (comma ∷ []) (q ∷ ps)) h.0.no_comma) (
    keep_of-IsClean p (split comma (join (comma ∷ []) (q ∷ ps))) h.0
    ∙ ap (◌∷◌ p) (split-join q ps h.1))

-- ParseCSV reads back the names that strings.Join wrote with commas, if each is clean.
pub parse_csv-join : (ps : List Text) → All IsClean ps → parse_csv (join (codes ",") ps) ≡ ps
unfolding parse_csv
parse_csv-join [] h = unfold join split trim_space trim_left trim_right in refl
parse_csv-join (p ∷ ps) h = split-join p ps h

pub parse_csv_one : (p : Text) → IsClean p → parse_csv p ≡ p ∷ []
unfolding parse_csv
parse_csv_one p h = rw (split_one p h.no_comma) (keep_of-IsClean p [] h)
