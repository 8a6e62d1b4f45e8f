-- ===== src/Status/Ready.antt =====
-- pkg/status/status.go: the readiness flags over sequences of calls.
use xds_controller.Prelude.{true, false, ◌≡◌, ◌≢◌, arith, List, [], ◌∷◌, All, ◌⊎◌}
use xds_controller.Status.{
  Kind, ReconciliationStatus, Op, sets_reconciled, sets_has, sets_initialized,
  sets_snapshot_generated, clears, step, run, set_has, all_reconciled, all_reconciled_with_snapshot,
  kind_eq, listeners,
}

-- The call neither reports the kind as reconciled nor says that there is none of it.
abbrev pub LeavesOpen : Kind → Op → Type 0
LeavesOpen k (sets_reconciled j b) = (j ≢ k) ⊎ (b ≡ false)
LeavesOpen k (sets_has j b) = (j ≢ k) ⊎ (b ≡ true)
LeavesOpen k (sets_initialized j b) = Unit
LeavesOpen k _ = Unit

abbrev Open : Kind → ReconciliationStatus → Type 0
Open k s = (s.has k ≡ true) × (s.reconciled k ≡ false)

step-Open :
    (k : Kind) (op : Op) (s : ReconciliationStatus)
    → LeavesOpen k op
    → Open k s
    → Open k (step op s)
unfolding step
step-Open k (sets_reconciled j b) s l h = ground (arith, kind_eq.beq_iff j k)
step-Open k (sets_has j b) s l h = ground (arith, kind_eq.beq_iff j k)
step-Open k (clears key seq) s l h = ground arith
step-Open k _ s l h = ground arith

run-Open :
    (k : Kind) (ops : List Op) (s : ReconciliationStatus)
    → All (LeavesOpen k) ops
    → Open k s
    → Open k (run ops s)
unfolding run
run-Open k [] s l h = h
run-Open k (op ∷ ops) s l h = run-Open k ops (step op s) l.1 (step-Open k op s l.0 h)

all_reconciled_of-Open : (k : Kind) (s : ReconciliationStatus) → Open k s → all_reconciled s ≡ false
unfolding all_reconciled
all_reconciled_of-Open listeners s h = ground arith
all_reconciled_of-Open _ s h = ground arith

set_has-Open : (k : Kind) (s : ReconciliationStatus) → Open k (set_has k true s)
unfolding set_has
set_has-Open k s = ground (arith, kind_eq.beq_iff k k)

-- From the moment a controller sees a resource of a kind, the server stays unready until that kind
-- is reported as reconciled or as absent, whatever else is called in between.
unready_until_reconciled :
    (k : Kind) (ops : List Op) (s : ReconciliationStatus)
    → All (LeavesOpen k) ops
    → all_reconciled (run ops (set_has k true s)) ≡ false
unready_until_reconciled k ops s l =
    all_reconciled_of-Open k _ (run-Open k ops (set_has k true s) l (set_has-Open k s))

-- The call does not withdraw a controller's initialization, nor the first snapshot.
abbrev pub KeepsSnapshot : Op → Type 0
KeepsSnapshot (sets_snapshot_generated b) = b ≡ true
KeepsSnapshot (sets_has k b) = Unit
KeepsSnapshot _ = Unit

step_snapshot :
    (op : Op) (s : ReconciliationStatus)
    → KeepsSnapshot op
    → s.snapshot_generated ≡ true
    → (step op s).snapshot_generated ≡ true
unfolding step
step_snapshot (sets_snapshot_generated b) s k h = k
step_snapshot (sets_has j b) s k h = ground arith
step_snapshot (clears key seq) s k h = ground arith
step_snapshot _ s k h = h

run_snapshot :
    (ops : List Op) (s : ReconciliationStatus)
    → All KeepsSnapshot ops
    → s.snapshot_generated ≡ true
    → (run ops s).snapshot_generated ≡ true
unfolding run
run_snapshot [] s k h = h
run_snapshot (op ∷ ops) s k h = run_snapshot ops (step op s) k.1 (step_snapshot op s k.0 h)

-- Once a snapshot has been generated the readiness probe passes for good: whatever resources appear,
-- are marked or are reconciled later, as long as nothing withdraws the snapshot.
ready_after_snapshot :
    (ops : List Op) (s : ReconciliationStatus)
    → All KeepsSnapshot ops
    → s.snapshot_generated ≡ true
    → all_reconciled_with_snapshot (run ops s) ≡ true
unfolding all_reconciled_with_snapshot
ready_after_snapshot ops s k h = ground (arith, run_snapshot ops s k h)
