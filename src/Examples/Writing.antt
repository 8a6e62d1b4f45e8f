-- ===== src/Examples/Writing.antt =====
-- controllers/cds/cluster_controller.go: the status of a cluster that waits for its endpoints.
use xds_controller.Prelude.{ℕ, false, none, some, Text, List, [], codes, list_beq, ◌≡◌, refl}
use xds_controller.Objects.{
  ObjectStatus, Update, cluster, route, update_status, new_status, status_equal,
}
use xds_controller.Objects.Writes.{stored, update_settles, stale_message}
use xds_controller.Examples.Ids.{plain}

-- formatting that keeps the format
abbrev sprintf : Text → List ℕ → Text
sprintf format args = format

abbrev unwritten : ObjectStatus
unwritten = record {
  active = false;
  count = 0;
  names = [];
  snapshots = [];
  nodes = [];
  clusters = [];
  last_reconciled = 0;
  observed_generation = 0;
  conditions = [];
  message = [];
}

abbrev waits : Update
waits = record {
  generation = 1;
  active = false;
  active_nodes = [];
  count = 0;
  names = [];
  message = codes "Waiting for endpoint refs to be available";
}

update_settles_example :
    update_status plain sprintf cluster 9 waits
      (stored (update_status plain sprintf cluster 5 waits unwritten) unwritten)
    ≡ none
update_settles_example = update_settles plain sprintf cluster 5 9 waits unwritten

stale_message_example :
    update_status plain sprintf cluster 9
      (record waits { message = codes "failed to get endpoint" })
      (new_status plain sprintf cluster 5 waits unwritten)
    ≡ none
stale_message_example =
    stale_message plain sprintf 5 9 waits (codes "failed to get endpoint") unwritten

-- The first update is written.
first_written :
    update_status plain sprintf cluster 5 waits unwritten
    ≡ some (new_status plain sprintf cluster 5 waits unwritten)
unfolding update_status status_equal new_status list_beq
first_written = refl

-- A route's message is compared.
route_rewritten :
    update_status plain sprintf route 9
      (record waits { message = codes "x" })
      (new_status plain sprintf route 5 waits unwritten)
    ≡ some (
        new_status plain sprintf route 9
          (record waits { message = codes "x" })
          (new_status plain sprintf route 5 waits unwritten))
unfolding update_status status_equal new_status list_beq
route_rewritten = refl
