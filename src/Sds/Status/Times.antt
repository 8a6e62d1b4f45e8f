-- ===== src/Sds/Status/Times.antt =====
-- controllers/sds/tlssecret_controller.go: updateTLSSecretCondition on conditions whose times are
-- left aside, as normalizeStatusForCompare does.
use xds_controller.Prelude.{
  ℕ, false, if◌then◌else◌, some, Text, ◌==◌, list_eq, nat_eq, List, [], ◌∷◌, All, ◌≡◌, refl, arith,
  eq_of_beq, beq_of_eq, ◌∙◌, ap, length,
}
use xds_controller.Util.{Codec}
use xds_controller.Sds.Conditions.{Condition, update_condition, find_condition}
use xds_controller.Objects.{snapshot_infos}
use xds_controller.Sds.Status.{timeless_conditions, timeless_snapshots, update_conditions}

abbrev pub timeless : Condition → Condition
timeless c = record c { last_transition_time = 0 }

-- the condition of its type replaced, or added at the end
unfoldable pub put : List Condition → Condition → List Condition
put [] n = n ∷ []
put (c ∷ cs) n = if c.type == n.type then n ∷ cs else c ∷ put cs n

abbrev pub puts : List Condition → List Condition → List Condition
puts cs [] = cs
puts cs (n ∷ ns) = puts (put cs n) ns

timeless-update :
    (cs : List Condition) (n : Condition)
    → timeless_conditions (update_condition cs n) ≡ put (timeless_conditions cs) (timeless n)
unfolding update_condition put
timeless-update [] n = refl
timeless-update (c ∷ cs) n = ground (arith, timeless-update cs n)

find-put :
    (t : Text) (cs : List Condition) (n : Condition)
    → find_condition t (put cs n) ≡ (if n.type == t then some n else find_condition t cs)
unfolding find_condition put
find-put t [] n = refl
find-put t (c ∷ cs) n = ground (
  arith,
  find-put t cs n,
  eq_of_beq c.type n.type,
  beq_of_eq c.type n.type,
  eq_of_beq n.type t,
  eq_of_beq c.type t,
  beq_of_eq c.type t,
)

put_same : (cs : List Condition) (n : Condition) → find_condition n.type cs ≡ some n → put cs n ≡ cs
unfolding find_condition put
put_same [] n h = cc
put_same (c ∷ cs) n h = ground (arith, put_same cs n)

-- No condition of the list has the type.
abbrev pub Fresh : Text → List Condition → Type 0
Fresh t ns = All (λ n. (n.type == t) ≡ false) ns

-- The conditions have different types.
abbrev pub Apart : List Condition → Type 0
Apart [] = Unit {0}
Apart (n ∷ ns) = Fresh n.type ns × Apart ns

abbrev Held : List Condition → List Condition → Type 0
Held cs ns = All (λ n. find_condition n.type cs ≡ some n) ns

find-puts :
    (t : Text) (cs ns : List Condition)
    → Fresh t ns
    → find_condition t (puts cs ns) ≡ find_condition t cs
find-puts t cs [] h = refl
find-puts t cs (n ∷ ns) h = find-puts t (put cs n) ns h.1 ∙ (find-put t cs n ∙ rw h.0 refl)

puts-Held : (cs ns : List Condition) → Apart ns → Held (puts cs ns) ns
puts-Held cs [] h = tt
puts-Held cs (n ∷ ns) h = (
  find-puts n.type (put cs n) ns h.0
      ∙ (find-put n.type cs n ∙ rw (beq_of_eq n.type n.type refl) refl),
  puts-Held (put cs n) ns h.1,
)

puts_same : (cs ns : List Condition) → Held cs ns → puts cs ns ≡ cs
puts_same cs [] h = refl
puts_same cs (n ∷ ns) h = rw (put_same cs n h.0) (puts_same cs ns h.1)

timeless-updates :
    (cs ns : List Condition)
    → timeless_conditions (update_conditions cs ns)
      ≡ puts (timeless_conditions cs) (timeless_conditions ns)
timeless-updates cs [] = refl
timeless-updates cs (n ∷ ns) =
    timeless-updates (update_condition cs n) ns
    ∙ ap (λ l. puts l (timeless_conditions ns)) (timeless-update cs n)

-- Updating the same conditions again changes the times only.
pub updates_again :
    (cs ns again : List Condition)
    → Apart (timeless_conditions ns)
    → timeless_conditions again ≡ timeless_conditions ns
    → timeless_conditions (update_conditions (update_conditions cs ns) again)
      ≡ timeless_conditions (update_conditions cs ns)
updates_again cs ns again apart same =
    let ks = timeless_conditions ns in
    let xs = timeless_conditions cs in
    timeless-updates (update_conditions cs ns) again
    ∙ (rw (same, timeless-updates cs ns) (puts_same (puts xs ks) ks (puts-Held xs ks apart)))

module _ (codec : Codec) (sprintf : Text → List ℕ → Text) where
  -- The time of the update shows in the times of the snapshots only.
  pub timeless-snapshot_infos :
      (a b : ℕ) (ids : List Text)
      → timeless_snapshots (snapshot_infos codec sprintf a ids)
        ≡ timeless_snapshots (snapshot_infos codec sprintf b ids)
  unfolding snapshot_infos
  timeless-snapshot_infos a b [] = refl
  timeless-snapshot_infos a b (id ∷ ids) = ground (arith, timeless-snapshot_infos a b ids)

  pub length-snapshot_infos :
      (a b : ℕ) (ids : List Text)
      → length (snapshot_infos codec sprintf a ids) ≡ length (snapshot_infos codec sprintf b ids)
  unfolding snapshot_infos
  length-snapshot_infos a b [] = refl
  length-snapshot_infos a b (id ∷ ids) = omega (arith, length-snapshot_infos a b ids)
