-- ===== src/Examples/Flags.antt =====
-- pkg/status/status.go at concrete calls.
use xds_controller.Prelude.{
  true, false, Text, lookup, list_eq, nat_eq, [], ◌∷◌, codes, ◌≡◌, refl, arith, Memᴰ,
}
use xds_controller.Status.{
  ReconciliationStatus, marks, clears, run, clear_listener_pending, listener_pending_seq,
  has_pending_listeners, all_reconciled,
}
use xds_controller.Status.Pending.{IsBounded, clear_keeps_new_mark}

abbrev key_a : Text
key_a = codes "ns/a"

abbrev key_b : Text
key_b = codes "ns/b"

abbrev served : ReconciliationStatus
served = record {
  reconciled = λ _. true;
  snapshot_generated = true;
  has = λ _. true;
  pending_seq = 7;
  pending_listeners = [];
  initialized = λ _. true;
}

served-IsBounded : IsBounded served
unfolding lookup
served-IsBounded key v h = cc

clear_keeps_new_mark_example :
    let done =
      clear_listener_pending key_a
        (listener_pending_seq key_a served)
        (run (marks key_a ∷ clears key_a 3 ∷ []) served) in
    (has_pending_listeners done ≡ true) × (all_reconciled done ≡ false)
clear_keeps_new_mark_example =
    clear_keeps_new_mark key_a (marks key_a ∷ clears key_a 3 ∷ []) served served-IsBounded
      (omega arith) (tt, (λ _. omega arith, tt)) (Memᴰ.head refl)
