-- ===== src/Leader.antt =====
-- pkg/leader/leader.go: leader election on a Kubernetes lease. The answers of the API server are
-- inputs of each tick, times are in nanoseconds, and every lease has a duration (without one the
-- code would panic). Each call of the callback is logged, the latest first.
pub mod Election
use xds_controller.Prelude.{
  ℕ, suc, ◌+◌, ◌-◌, ◌*◌, Bool, true, false, not, ◌&&◌, ◌||◌, if◌then◌else◌, Option, none, some,
  Text, ◌==◌, nat_eq, bool_eq, list_eq, ltb, List, [], ◌∷◌, is_empty, Result, ok, err,
}

pub record Lease : Type 0 where
  pub holder_identity : Option Text
  pub renew_time : Option ℕ
  pub lease_duration_seconds : ℕ

pub record Manager : Type 0 where
  pub node_identifier : Text
  pub lease_duration : ℕ
  pub is_leader : Bool
  pub callbacks : List Bool
  pub initial_election : Bool  -- the flag of the loop of Start
  pub closes : ℕ  -- how often initialElectionDone has been closed

-- getNodeIdentifier, with the value of POD_NAME and what os.Hostname returns
pub node_identifier_from : Text → Option Text → Option Text
node_identifier_from pod_name hostname = if is_empty pod_name then hostname else some pod_name

-- NewManager, and Start up to its loop
pub new_manager : Text → ℕ → Manager
new_manager node duration = record {
  node_identifier = node;
  lease_duration = duration;
  is_leader = false;
  callbacks = [];
  initial_election = true;
  closes = 0;
}

unfoldable pub set_leader_status : Bool → Manager → Manager
set_leader_status b m =
    if not (m.is_leader == b) then record m { is_leader = b; callbacks = b ∷ m.callbacks } else m

-- close(m.initialElectionDone), the first time only
unfoldable pub close_initial : Manager → Manager
close_initial m =
    if m.initial_election then record m { initial_election = false; closes = suc m.closes } else m

-- what Leases.Get returns
pub data Got : Type 0 where
  found : Lease → Got
  not_found get_failed : Got

-- one firing of the ticker: the time, the answer to Get, and whether Create or Update succeeds
pub record Tick : Type 0 where
  pub now : ℕ
  pub got : Got
  pub accepts : Bool

abbrev pub second : ℕ
second = 1000000000

abbrev pub held_by : Text → Option Text → Bool
held_by node none = false
held_by node (some holder) = holder == node

abbrev pub lease_expired : ℕ → Lease → Bool
lease_expired now l = elim l.renew_time [
  | none ↦ true
  | some t ↦ ltb (l.lease_duration_seconds * second) (now - t)
]

-- the switch over a lease that was found
unfoldable pub on_lease : Lease → Tick → Manager → Manager
unfolding set_leader_status
on_lease l t m =
    if held_by m.node_identifier l.holder_identity
    then (if not t.accepts
        then (if m.is_leader then set_leader_status false m else m)
        else (if not m.is_leader then set_leader_status true m else m))
    else if lease_expired t.now l
    then (if t.accepts then set_leader_status true m else m)
    else if m.is_leader
    then set_leader_status false m
    else m

-- the body of the loop, by the answer to Get; every path closes the channel once it is done
unfoldable pub on_answer : Got → Tick → Manager → Manager
unfolding close_initial on_lease
on_answer not_found t m = close_initial (if t.accepts then set_leader_status true m else m)
on_answer get_failed t m = close_initial m
on_answer (found l) t m = close_initial (on_lease l t m)

-- one firing of the ticker
unfoldable pub tick : Tick → Manager → Manager
unfolding on_answer
tick t m = on_answer t.got t m

-- the loop of Start
unfoldable pub start : List Tick → Manager → Manager
start [] m = m
start (t ∷ ts) m = start ts (tick t m)

-- the answers to Delete and to the Update that expires the lease
pub data Deleted : Type 0 where
  deleted already_gone delete_failed : Deleted

pub data ReleaseError : Type 0 where
  get_error expire_error : ReleaseError

-- ReleaseLeadership from the point where the lease has been read
unfoldable pub release_lease : Lease → Deleted → Bool → Manager → Result ReleaseError Manager
unfolding set_leader_status
release_lease l d expires m =
    if not (held_by m.node_identifier l.holder_identity)
    then ok (set_leader_status false m)
    else elim d [
      | deleted ↦ ok (set_leader_status false m)
      | already_gone ↦ ok (set_leader_status false m)
      | delete_failed ↦ if expires then ok (set_leader_status false m) else err expire_error
    ]

-- ReleaseLeadership
unfoldable pub release_leadership : Got → Deleted → Bool → Manager → Result ReleaseError Manager
unfolding release_lease
release_leadership got d expires m = if not m.is_leader then ok m else elim got [
  | not_found ↦ ok (set_leader_status false m)
  | get_failed ↦ err get_error
  | found l ↦ release_lease l d expires m
]
