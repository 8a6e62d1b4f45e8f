-- ===== src/Sds/Conditions.antt =====
-- controllers/sds/tlssecret_controller.go: the conditions in the status of a TLSSecret.
use xds_controller.Prelude.{
  ℕ, not, if◌then◌else◌, Option, none, some, Text, ◌==◌, nat_eq, list_eq, List, [], ◌∷◌, ◌≡◌, arith,
  eq_of_beq, beq_of_eq,
}

-- metav1.Condition
pub record Condition : Type 0 where
  pub type : Text
  pub status : Text
  pub last_transition_time : ℕ
  pub reason : Text
  pub message : Text
  pub observed_generation : ℕ

-- updateTLSSecretCondition
unfoldable pub update_condition : List Condition → Condition → List Condition
update_condition [] new = new ∷ []
update_condition (c ∷ cs) new =
    if c.type == new.type
    then (if not (c.status == new.status)
        then new ∷ cs
        else record new { last_transition_time = c.last_transition_time } ∷ cs)
    else c ∷ update_condition cs new

-- the first condition of a type
unfoldable pub find_condition : Text → List Condition → Option Condition
find_condition t [] = none
find_condition t (c ∷ cs) = if c.type == t then some c else find_condition t cs

-- when the condition's status last changed, given the condition of its type before
abbrev pub changed_at : Option Condition → Condition → ℕ
changed_at none new = new.last_transition_time
changed_at (some c) new =
    if c.status == new.status then c.last_transition_time else new.last_transition_time

-- Updating a condition sets the condition of its type and no other. The transition time moves exactly
-- if the status does: with an equal status the old time is kept.
pub update_condition_exact :
    (t : Text) (cs : List Condition) (new : Condition)
    → find_condition t (update_condition cs new) ≡ (
        if new.type == t
        then some
            (record new { last_transition_time = changed_at (find_condition new.type cs) new })
        else find_condition t cs)
unfolding update_condition find_condition
update_condition_exact t [] new = ground arith
update_condition_exact t (c ∷ cs) new = ground (
  arith,
  update_condition_exact t cs new,
  eq_of_beq c.type new.type,
  beq_of_eq c.type new.type,
  eq_of_beq new.type t,
  eq_of_beq c.type t,
  beq_of_eq c.type t,
)
