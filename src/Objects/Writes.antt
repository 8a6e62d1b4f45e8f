-- ===== src/Objects/Writes.antt =====
-- controllers/rds, controllers/cds, controllers/eds and controllers/lds: when a status is written, and what it says.
use xds_controller.Prelude.{
  ℕ, true, false, if◌then◌else◌, Option, none, some, Text, ◌==◌, list_eq, list_beq, nat_eq, bool_eq,
  List, [], ◌∷◌, length, ◌≡◌, refl, arith, Bool-cases, inl, inr, beq_of_eq, sym, subst, ◌∙◌,
}
use xds_controller.Util.{Codec}
use xds_controller.Sds.Conditions.{
  Condition, find_condition, update_condition, update_condition_exact, changed_at,
}
use xds_controller.Objects.{
  ObjectStatus, ObjectKind, route, cluster, endpoint, listener, Update, status_equal,
  snapshot_infos, new_status, new_conditions, update_status, ready_type, reconciled_type,
  error_type, condition_true, condition_false, is_failure, ready_condition, reconciled_condition,
  error_condition,
}

-- The status after an update.
abbrev pub stored : Option ObjectStatus → ObjectStatus → ObjectStatus
stored none latest = latest
stored (some new) latest = new

module _ (codec : Codec) (sprintf : Text → List ℕ → Text) where
  snapshot_infos-length :
      (a b : ℕ) (ids : List Text)
      → length (snapshot_infos codec sprintf a ids) ≡ length (snapshot_infos codec sprintf b ids)
  unfolding snapshot_infos
  snapshot_infos-length a b [] = refl
  snapshot_infos-length a b (id ∷ ids) = omega (arith, snapshot_infos-length a b ids)

  -- The comparison does not see the time of the update, nor the status that it starts from.
  new_status-seen :
      (kind : ObjectKind) (a b : ℕ) (u : Update) (p q r : ObjectStatus)
      → status_equal kind r (new_status codec sprintf kind a u p)
        ≡ status_equal kind r (new_status codec sprintf kind b u q)
  unfolding status_equal new_status
  new_status-seen kind a b u p q r = rw (snapshot_infos-length a b u.active_nodes) refl

  status_equal_refl : (kind : ObjectKind) (a : ObjectStatus) → status_equal kind a a ≡ true
  unfolding status_equal
  status_equal_refl route a = ground (
    arith,
    beq_of_eq a.active a.active refl,
    beq_of_eq a.names a.names refl,
    beq_of_eq a.nodes a.nodes refl,
    beq_of_eq a.clusters a.clusters refl,
    beq_of_eq a.message a.message refl,
  )
  status_equal_refl cluster a = ground (
    arith,
    beq_of_eq a.active a.active refl,
    beq_of_eq a.names a.names refl,
    beq_of_eq a.nodes a.nodes refl,
    beq_of_eq a.clusters a.clusters refl,
  )
  status_equal_refl endpoint a = ground (
    arith,
    beq_of_eq a.active a.active refl,
    beq_of_eq a.names a.names refl,
    beq_of_eq a.nodes a.nodes refl,
    beq_of_eq a.clusters a.clusters refl,
  )
  status_equal_refl listener a = ground (
    arith,
    beq_of_eq a.active a.active refl,
    beq_of_eq a.names a.names refl,
    beq_of_eq a.nodes a.nodes refl,
    beq_of_eq a.clusters a.clusters refl,
  )

  update-none :
      (kind : ObjectKind) (now : ℕ) (u : Update) (latest : ObjectStatus)
      → status_equal kind latest (new_status codec sprintf kind now u latest) ≡ true
      → update_status codec sprintf kind now u latest ≡ none
  unfolding update_status
  update-none kind now u latest e = rw e refl

  update-some :
      (kind : ObjectKind) (now : ℕ) (u : Update) (latest : ObjectStatus)
      → status_equal kind latest (new_status codec sprintf kind now u latest) ≡ false
      → update_status codec sprintf kind now u latest
        ≡ some (new_status codec sprintf kind now u latest)
  unfolding update_status
  update-some kind now u latest e = rw e refl

  -- An update that is repeated, at whatever time, writes nothing: a write does not lead to another by
  -- the event that it raises.
  pub update_settles :
      (kind : ObjectKind) (now later : ℕ) (u : Update) (latest : ObjectStatus)
      → update_status codec sprintf kind later u
          (stored (update_status codec sprintf kind now u latest) latest)
        ≡ none
  update_settles kind now later u latest =
      let new = new_status codec sprintf kind now u latest in
      let Settles = λ (o : Option ObjectStatus).
        update_status codec sprintf kind later u (stored o latest) ≡ none in
      elim (Bool-cases (status_equal kind latest new)) [
        | inl e ↦ subst Settles (sym (update-none kind now u latest e)) (
            update-none kind later u latest
              (new_status-seen kind later now u latest latest latest ∙ e))
        | inr e ↦ subst Settles (sym (update-some kind now u latest e)) (
            update-none kind later u new
              (new_status-seen kind later now u new latest new ∙ status_equal_refl kind new))
      ]

  -- The condition of a type, by its status and generation.
  abbrev pub Says : Text → Text → ℕ → List Condition → Type 0
  Says type status generation conditions =
      (c : Condition) × (find_condition type conditions ≡ some c)
      × (c.status ≡ status)
      × (c.observed_generation ≡ generation)

  -- Updating a condition makes its type say what it says.
  update-Says :
      (cs : List Condition) (new : Condition)
      → Says new.type new.status new.observed_generation (update_condition cs new)
  update-Says cs new = (
    record new { last_transition_time = changed_at (find_condition new.type cs) new },
    update_condition_exact new.type cs new ∙ rw (beq_of_eq new.type new.type refl) refl,
    refl,
    refl,
  )

  -- Updating a condition of another type changes nothing for a type.
  update-Says_other :
      (cs : List Condition) (new : Condition) (type status : Text) (generation : ℕ)
      → (new.type == type) ≡ false
      → Says type status generation cs
      → Says type status generation (update_condition cs new)
  update-Says_other cs new type status generation ne (c, f, s, g) =
      (c, update_condition_exact type cs new ∙ rw ne f, s, g)

  -- The conditions of a new status say what the update says, for the object's generation: Ready is
  -- True if the object is active and False otherwise, Reconciled is True, and Error is True if it is
  -- not active and there is a message, and False otherwise.
  new_conditions_say :
      (kind : ObjectKind) (now : ℕ) (u : Update) (old : List Condition)
      → let cs = new_conditions codec sprintf kind now u old in
        Says ready_type (if u.active then condition_true else condition_false) u.generation cs
        × Says reconciled_type condition_true u.generation cs
        × Says error_type
            (if is_failure codec sprintf u then condition_true else condition_false)
            u.generation
            cs
  unfolding new_conditions list_beq
  new_conditions_say kind now u old =
      let r = ready_condition codec sprintf kind now u in
      let k = reconciled_condition codec sprintf now u in
      let e = error_condition codec sprintf now u in
      let one = update_condition old r in
      let two = update_condition one k in
      (
        update-Says_other two e ready_type r.status u.generation refl
            (update-Says_other one k ready_type r.status u.generation refl (update-Says old r)),
        update-Says_other two e reconciled_type condition_true u.generation refl
            (update-Says one k),
        update-Says two e,
      )

  messages_unseen :
      (now later : ℕ) (u : Update) (message : Text) (latest : ObjectStatus)
      → let new = new_status codec sprintf cluster now u latest in
        status_equal cluster new
          (new_status codec sprintf cluster later (record u { message = message }) new)
        ≡ status_equal cluster new (new_status codec sprintf cluster later u new)
  unfolding status_equal new_status
  messages_unseen now later u message latest = refl

  seen :
      (now later : ℕ) (u : Update) (message : Text) (latest : ObjectStatus)
      → status_equal cluster (new_status codec sprintf cluster now u latest) (
          new_status codec sprintf cluster later
            (record u { message = message })
            (new_status codec sprintf cluster now u latest))
        ≡ true
  seen now later u message latest =
      messages_unseen now later u message latest
      ∙ (new_status-seen cluster later now u (new_status codec sprintf cluster now u latest) latest
            (new_status codec sprintf cluster now u latest)
          ∙ status_equal_refl cluster (new_status codec sprintf cluster now u latest))

  -- After an update of a cluster, one that differs from it in the message only is not written, so that
  -- the status keeps the first message.
  pub stale_message :
      (now later : ℕ) (u : Update) (message : Text) (latest : ObjectStatus)
      → update_status codec sprintf cluster later
          (record u { message = message })
          (new_status codec sprintf cluster now u latest)
        ≡ none
  stale_message now later u message latest =
      update-none cluster later (record u { message = message })
        (new_status codec sprintf cluster now u latest) (seen now later u message latest)
