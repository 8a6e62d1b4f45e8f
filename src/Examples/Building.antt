-- ===== src/Examples/Building.antt =====
-- controllers/lds/listener_controller.go: a listener whose spec does not convert.
use xds_controller.Prelude.{ℕ, true, none, lookup, [], ◌∷◌, codes, ◌≡◌, refl}
use xds_controller.Status.{new, listeners, set_has, listener_pending_seq, ReconciliationStatus}
use xds_controller.Lds.Reconcile.{
  ListenerObject, ListenerState, Setting, found, is_due, reconcile_listener,
}
use xds_controller.Lds.Reconcile.Settling.{Settled, reconcile_listener-Settled}
use xds_controller.Lds.Reconcile.Marks.{reconcile_listener-clears}
use xds_controller.Examples.Ids.{plain, edge, main_cluster}
use xds_controller.Examples.Chains.{no_addresses, conv, heap}

abbrev setting : Setting ℕ
setting = record {
  codec = plain;
  node_id = edge;
  cluster = main_cluster;
  externs = no_addresses;
  conversions = conv;
  heap = heap;
  route_configs = (codes "n", record { address = 0; listener_names = codes "l" ∷ [] } ∷ []) ∷ [];
}

-- the routes are listed and placed, and the listener waits for a rebuild
abbrev ready : ReconciliationStatus
ready = record new {
  reconciled = λ _. true;
  initialized = λ _. true;
  pending_listeners = (codes "ns/l", 7) ∷ [];
  pending_seq = 7;
}

abbrev broken : ListenerObject ℕ
broken = record { name = codes "l"; annotations = []; has_filter_chains = true; converted = none }

abbrev state : ListenerState ℕ
state = record { listener_configs = []; counter = 0; status = ready; chains = [] }

due : is_due setting (set_has listeners true ready) ≡ true
unfolding set_has
due = refl

reconcile_listener-Settled_example :
    Settled setting broken state
      (reconcile_listener setting (found broken) (codes "l") (codes "ns/l") state)
unfolding lookup
reconcile_listener-Settled_example =
    reconcile_listener-Settled setting broken (codes "l") (codes "ns/l") state due (λ node. tt)

reconcile_listener-clears_example :
    listener_pending_seq
      (codes "ns/l")
      (reconcile_listener setting (found broken) (codes "l") (codes "ns/l") state).status
    ≡ 0
reconcile_listener-clears_example =
    reconcile_listener-clears setting broken (codes "l") (codes "ns/l") state due
