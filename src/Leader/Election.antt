-- ===== src/Leader/Election.antt =====
-- pkg/leader/leader.go: runs of the election loop.
use xds_controller.Prelude.{
  ℕ, Bool, true, false, not, if◌then◌else◌, ◌==◌, bool_eq, Bool-cases, subst, Text, List, [], ◌∷◌,
  Result, ok, err, ◌≡◌, ◌⊎◌, inl, inr, refl, arith,
}
use xds_controller.Leader.{
  Manager, Tick, Got, found, not_found, get_failed, Lease, Deleted, deleted, already_gone,
  delete_failed, ReleaseError, get_error, expire_error, new_manager, set_leader_status,
  close_initial, on_lease, on_answer, tick, start, release_lease, release_leadership, held_by,
  lease_expired,
}

-- The channel is still open, or has been closed once and the flag is down.
abbrev Guarded : Manager → Type 0
Guarded m =
    ((m.initial_election ≡ true) × (m.closes ≡ 0)) ⊎ ((m.initial_election ≡ false) × (m.closes ≡ 1))

set_leader_status-flag :
    (b : Bool) (m : Manager)
    → ((set_leader_status b m).initial_election ≡ m.initial_election)
      × ((set_leader_status b m).closes ≡ m.closes)
unfolding set_leader_status
set_leader_status-flag b m = (ground arith, ground arith)

on_lease-flag :
    (l : Lease) (t : Tick) (m : Manager)
    → ((on_lease l t m).initial_election ≡ m.initial_election)
      × ((on_lease l t m).closes ≡ m.closes)
unfolding on_lease
on_lease-flag l t m = (
  ground (arith, set_leader_status-flag true m, set_leader_status-flag false m),
  ground (arith, set_leader_status-flag true m, set_leader_status-flag false m),
)

close_initial-once :
    (m : Manager) → Guarded m → Guarded (close_initial m) × ((close_initial m).closes ≡ 1)
unfolding close_initial
close_initial-once m g = (ground arith, ground arith)

-- The fields that guard the channel are the same.
SameFlag : Manager → Manager → Type 0
SameFlag m n = (n.initial_election ≡ m.initial_election) × (n.closes ≡ m.closes)

on_answer-once :
    (g : Got) (t : Tick) (m : Manager)
    → Guarded m
    → Guarded (on_answer g t m) × ((on_answer g t m).closes ≡ 1)
unfolding on_answer
on_answer-once not_found t m h =
    close_initial-once (if t.accepts then set_leader_status true m else m)
      (ground (arith, set_leader_status-flag true m))
on_answer-once get_failed t m h = close_initial-once m h
on_answer-once (found l) t m h =
    close_initial-once (on_lease l t m) (ground (arith, on_lease-flag l t m))

start-Guarded : (ts : List Tick) (m : Manager) → Guarded m → m.closes ≡ 1 → (start ts m).closes ≡ 1
unfolding start tick
start-Guarded [] m h e = e
start-Guarded (t ∷ ts) m h e =
    let (g, f) = on_answer-once t.got t m h in start-Guarded ts (on_answer t.got t m) g f

-- However the API server answers, once the ticker has fired the channel of the initial election has
-- been closed exactly once.
closed_once :
    (node : Text) (duration : ℕ) (t : Tick) (ts : List Tick)
    → (start (t ∷ ts) (new_manager node duration)).closes ≡ 1
unfolding start tick new_manager
closed_once node duration t ts =
    let (g, f) = on_answer-once t.got t (new_manager node duration) (inl (refl, refl)) in
    start-Guarded ts (on_answer t.got t (new_manager node duration)) g f

-- The callbacks, the latest first, take turns and end with the present status; the first one, if
-- any, announces leadership.
abbrev pub Alternates : Bool → List Bool → Type 0
Alternates b [] = b ≡ false
Alternates b (c ∷ cs) = (b ≡ c) × Alternates (not c) cs

abbrev pub Announced : Manager → Type 0
Announced m = Alternates m.is_leader m.callbacks

set_leader_status-Announced :
    (b : Bool) (m : Manager) → Announced m → Announced (set_leader_status b m)
unfolding set_leader_status
set_leader_status-Announced b m h = elim (Bool-cases (m.is_leader == b)) [
  | inl e ↦ rw e h
  | inr e ↦ rw e (refl, subst (λ c. Alternates c m.callbacks) (ground arith) h)
]

on_lease-Announced : (l : Lease) (t : Tick) (m : Manager) → Announced m → Announced (on_lease l t m)
unfolding on_lease
on_lease-Announced l t m h =
    ground (arith, set_leader_status-Announced true m h, set_leader_status-Announced false m h)

close_initial-Announced : (m : Manager) → Announced m → Announced (close_initial m)
unfolding close_initial
close_initial-Announced m h = elim (Bool-cases m.initial_election) [
  | inl e ↦ rw e h
  | inr e ↦ rw e h
]

on_answer-Announced : (g : Got) (t : Tick) (m : Manager) → Announced m → Announced (on_answer g t m)
unfolding on_answer
on_answer-Announced not_found t m h = elim (Bool-cases t.accepts) [
  | inl e ↦
      rw e
        (close_initial-Announced (set_leader_status true m) (set_leader_status-Announced true m h))
  | inr e ↦ rw e (close_initial-Announced m h)
]
on_answer-Announced get_failed t m h = close_initial-Announced m h
on_answer-Announced (found l) t m h =
    close_initial-Announced (on_lease l t m) (on_lease-Announced l t m h)

start-Announced : (ts : List Tick) (m : Manager) → Announced m → Announced (start ts m)
unfolding start tick
start-Announced [] m h = h
start-Announced (t ∷ ts) m h =
    start-Announced ts (on_answer t.got t m) (on_answer-Announced t.got t m h)

-- Over any ticks the callback is called with true and false in turns, beginning with true, and its
-- last call agrees with what IsLeader returns.
callbacks_alternate :
    (node : Text) (duration : ℕ) (ts : List Tick)
    → let m = start ts (new_manager node duration) in Alternates m.is_leader m.callbacks
unfolding new_manager
callbacks_alternate node duration ts = start-Announced ts (new_manager node duration) refl

-- The API server has taken this node's own write to the lease.
abbrev pub Acquires : Got → Tick → Manager → Type 0
Acquires not_found t m = t.accepts ≡ true
Acquires get_failed t m = ⊥
Acquires (found l) t m =
    (t.accepts ≡ true)
    × ((held_by m.node_identifier l.holder_identity ≡ true) ⊎ (lease_expired t.now l ≡ true))

-- The tick learns nothing of another holder: the lease was not read, or not there, or it had run out.
abbrev pub Uncertain : Got → Tick → Manager → Type 0
Uncertain not_found t m = Unit
Uncertain get_failed t m = Unit
Uncertain (found l) t m =
    (held_by m.node_identifier l.holder_identity ≡ false) × (lease_expired t.now l ≡ true)

close_initial-leader : (m : Manager) → (close_initial m).is_leader ≡ m.is_leader
unfolding close_initial
close_initial-leader m = ground arith

set_leader_status-leader : (b : Bool) (m : Manager) → (set_leader_status b m).is_leader ≡ b
unfolding set_leader_status
set_leader_status-leader b m = ground arith

on_answer-leads :
    (g : Got) (t : Tick) (m : Manager)
    → (on_answer g t m).is_leader ≡ true
    → Acquires g t m ⊎ ((m.is_leader ≡ true) × Uncertain g t m)
unfolding on_answer on_lease
on_answer-leads not_found t m h = elim (Bool-cases t.accepts) [
  | inl e ↦ inl e
  | inr e ↦ inr (ground (arith, close_initial-leader m), tt)
]
on_answer-leads get_failed t m h = inr (ground (arith, close_initial-leader m), tt)
on_answer-leads (found l) t m h = ground (
  arith,
  close_initial-leader (on_lease l t m),
  set_leader_status-leader true m,
  set_leader_status-leader false m,
)

-- A node leads after a tick only if the API server accepted its write to a lease that was missing,
-- its own or expired, or if it led before and learned of no other holder of a running lease: the
-- lease could not be read, was missing, or had expired in another's name.
pub leads_after_tick :
    (t : Tick) (m : Manager)
    → (tick t m).is_leader ≡ true
    → Acquires t.got t m ⊎ ((m.is_leader ≡ true) × Uncertain t.got t m)
unfolding tick
leads_after_tick t m h = on_answer-leads t.got t m h

-- The result is a manager that does not lead, or an error for one of the two causes.
abbrev pub Releases : Got → Deleted → Bool → Manager → Result ReleaseError Manager → Type 0
Releases g d expires m (ok n) = n.is_leader ≡ false
Releases g d expires m (err e) =
    (m.is_leader ≡ true) × ((g ≡ get_failed) ⊎ ((d ≡ delete_failed) × (expires ≡ false)))

release_lease-Releases :
    (g : Got) (l : Lease) (d : Deleted) (expires : Bool) (m : Manager)
    → m.is_leader ≡ true
    → Releases g d expires m (release_lease l d expires m)
unfolding release_lease
release_lease-Releases g l d expires m h =
    elim (Bool-cases (held_by m.node_identifier l.holder_identity)) [
      | inr e ↦ rw e (set_leader_status-leader false m)
      | inl e ↦ rw e (by_answer d)
    ]
  where
    by_answer :
        (a : Deleted)
        → Releases g a expires m (elim a [
          | deleted ↦ ok (set_leader_status false m)
          | already_gone ↦ ok (set_leader_status false m)
          | delete_failed ↦ if expires then ok (set_leader_status false m) else err expire_error
        ])
    by_answer deleted = set_leader_status-leader false m
    by_answer already_gone = set_leader_status-leader false m
    by_answer delete_failed = elim (Bool-cases expires) [
      | inl e ↦ rw e (set_leader_status-leader false m)
      | inr e ↦ rw e (h, inr (refl, refl))
    ]

-- ReleaseLeadership ends leadership whenever it returns without an error; it returns an error only
-- if the lease could not be read, or could neither be deleted nor be expired.
release_ends_leadership :
    (g : Got) (d : Deleted) (expires : Bool) (m : Manager)
    → Releases g d expires m (release_leadership g d expires m)
unfolding release_leadership
release_ends_leadership g d expires m = go m.is_leader refl
  where
    by_answer :
        (a : Got)
        → m.is_leader ≡ true
        → Releases a d expires m (elim a [
          | not_found ↦ ok (set_leader_status false m)
          | get_failed ↦ err get_error
          | found l ↦ release_lease l d expires m
        ])
    by_answer not_found h = set_leader_status-leader false m
    by_answer get_failed h = (h, inl refl)
    by_answer (found l) h = release_lease-Releases (found l) l d expires m h

    go :
        (b : Bool)
        → m.is_leader ≡ b
        → Releases g d expires m (
            if not b then ok m else elim g [
              | not_found ↦ ok (set_leader_status false m)
              | get_failed ↦ err get_error
              | found l ↦ release_lease l d expires m
            ])
    go false e = e
    go true e = by_answer g e
