-- ===== src/Examples/Election.antt =====
-- pkg/leader/leader.go at concrete ticks.
use xds_controller.Prelude.{true, false, some, Text, [], ◌∷◌, codes, ◌≡◌, ◌⊎◌, refl}
use xds_controller.Leader.{
  Manager, Tick, found, not_found, tick, on_answer, close_initial, set_leader_status,
}
use xds_controller.Leader.Election.{leads_after_tick, Acquires, Uncertain}

abbrev me : Text
me = codes "pod-0"

-- the lease is missing, and is created
abbrev creates : Tick
creates = record { now = 1; got = not_found; accepts = true }

-- another pod holds a lease that is still running
abbrev loses : Tick
loses = record {
  now = 2;
  got = found (record {
    holder_identity = some (codes "pod-1");
    renew_time = some 1;
    lease_duration_seconds = 15;
  });
  accepts = true;
}

abbrev leader : Manager
leader = record {
  node_identifier = me;
  lease_duration = 15;
  is_leader = true;
  callbacks = true ∷ [];
  initial_election = false;
  closes = 1;
}

leads : (tick creates leader).is_leader ≡ true
unfolding tick on_answer close_initial set_leader_status
leads = refl

leads_after_tick_example :
    Acquires not_found creates leader
    ⊎ ((leader.is_leader ≡ true) × Uncertain not_found creates leader)
leads_after_tick_example = leads_after_tick creates leader leads
