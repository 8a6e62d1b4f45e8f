-- ===== src/Status.antt =====
-- pkg/status/status.go: the flags by which the controllers tell the server that their resources are
-- placed. Each flag of the struct is a function of the kind of resource; the methods that differ
-- only in the kind are one function. A Load or a Store is one step.
pub mod Ready
pub mod Pending
use xds_controller.Prelude.{
  ℕ, ◌+◌, ◌%◌, ◌^◌, Bool, true, false, not, ◌&&◌, ◌||◌, if◌then◌else◌, Option, none, some, Text,
  Map, lookup, insert, delete, ◌==◌, nat_eq, list_eq, EqOps, ◌≡◌, refl, ◌↔◌, arith, is_empty, List,
  [], ◌∷◌,
}

pub data Kind : Type 0 where
  listeners routes clusters endpoints domain_configs : Kind

abbrev pub kind_beq : Kind → Kind → Bool
kind_beq listeners listeners = true
kind_beq routes routes = true
kind_beq clusters clusters = true
kind_beq endpoints endpoints = true
kind_beq domain_configs domain_configs = true
kind_beq _ _ = false

pub kind_beq_iff : (a b : Kind) → (kind_beq a b ≡ true) ↔ (a ≡ b)
kind_beq_iff listeners b = (λ h. ground arith, λ h. ground arith)
kind_beq_iff routes b = (λ h. ground arith, λ h. ground arith)
kind_beq_iff _ b = (λ h. ground arith, λ h. ground arith)

instance abbrev pub kind_eq : EqOps Kind
kind_eq = record { beq = kind_beq; beq_iff = kind_beq_iff }

pub record ReconciliationStatus : Type 0 where
  pub reconciled : Kind → Bool
  pub snapshot_generated : Bool
  pub has : Kind → Bool
  pub pending_seq : ℕ  -- uint64
  pub pending_listeners : Map Text ℕ
  pub initialized : Kind → Bool

abbrev pub u64 : ℕ → ℕ
u64 n = n % 2 ^ 64

-- NewReconciliationStatus: nothing to do counts as done
pub new : ReconciliationStatus
new = record {
  reconciled = λ _. true;
  snapshot_generated = false;
  has = λ _. false;
  pending_seq = 0;
  pending_listeners = [];
  initialized = λ _. false;
}

abbrev store : Kind → Bool → (Kind → Bool) → Kind → Bool
store k b flags j = if k == j then b else flags j

-- SetListenersReconciled and the four methods like it
unfoldable pub set_reconciled : Kind → Bool → ReconciliationStatus → ReconciliationStatus
set_reconciled k b s = record s { reconciled = store k b s.reconciled }

-- IsSnapshotGenerated, SetSnapshotGenerated
pub set_snapshot_generated : Bool → ReconciliationStatus → ReconciliationStatus
set_snapshot_generated b s = record s { snapshot_generated = b }

-- SetHasListeners and the four methods like it: new resources reset the reconciled flag
unfoldable pub set_has : Kind → Bool → ReconciliationStatus → ReconciliationStatus
unfolding set_reconciled
set_has k b s =
    let t = record s { has = store k b s.has } in if b then set_reconciled k false t else t

-- SetListenersInitialized and the four methods like it
pub set_initialized : Kind → Bool → ReconciliationStatus → ReconciliationStatus
set_initialized k b s = record s { initialized = store k b s.initialized }

pub all_initialized : ReconciliationStatus → Bool
all_initialized s =
    s.initialized listeners
    && s.initialized routes
    && s.initialized clusters
    && s.initialized endpoints
    && s.initialized domain_configs

pub has_any_resources : ReconciliationStatus → Bool
has_any_resources s =
    s.has listeners || s.has routes || s.has clusters || s.has endpoints || s.has domain_configs

-- a map that was never made has no entry either
unfoldable pub mark_listener_pending : Text → ReconciliationStatus → ReconciliationStatus
mark_listener_pending key s =
    let seq = u64 (s.pending_seq + 1) in
    record s { pending_seq = seq; pending_listeners = insert key seq s.pending_listeners }

-- a missing key reads as the zero value
abbrev or_zero : Option ℕ → ℕ
or_zero none = 0
or_zero (some n) = n

unfoldable pub listener_pending_seq : Text → ReconciliationStatus → ℕ
listener_pending_seq key s = or_zero (lookup key s.pending_listeners)

unfoldable pub clear_listener_pending : Text → ℕ → ReconciliationStatus → ReconciliationStatus
unfolding listener_pending_seq
clear_listener_pending key seq s =
    if listener_pending_seq key s == seq
    then record s { pending_listeners = delete key s.pending_listeners }
    else s

pub has_pending_listeners : ReconciliationStatus → Bool
has_pending_listeners s = not (is_empty s.pending_listeners)

-- either there is nothing of the kind, or it is reconciled
abbrev kind_ok : Kind → ReconciliationStatus → Bool
kind_ok k s = not (s.has k) || s.reconciled k

pub all_reconciled : ReconciliationStatus → Bool
unfolding all_initialized has_pending_listeners
all_reconciled s =
    if not (all_initialized s)
    then false
    else (kind_ok listeners s && not (has_pending_listeners s))
      && kind_ok routes s
      && kind_ok clusters s
      && kind_ok endpoints s
      && kind_ok domain_configs s

pub all_reconciled_with_snapshot : ReconciliationStatus → Bool
unfolding all_reconciled has_any_resources
all_reconciled_with_snapshot s =
    if not (has_any_resources s)
    then true
    else if s.snapshot_generated
    then true
    else all_reconciled s

-- The calls that change the status, in the order in which the controllers happen to make them.
pub data Op : Type 0 where
  sets_reconciled sets_has sets_initialized : Kind → Bool → Op
  sets_snapshot_generated : Bool → Op
  marks : Text → Op
  clears : Text → ℕ → Op

pub step : Op → ReconciliationStatus → ReconciliationStatus
unfolding set_reconciled set_has set_initialized set_snapshot_generated mark_listener_pending
    clear_listener_pending
step (sets_reconciled k b) s = set_reconciled k b s
step (sets_has k b) s = set_has k b s
step (sets_initialized k b) s = set_initialized k b s
step (sets_snapshot_generated b) s = set_snapshot_generated b s
step (marks key) s = mark_listener_pending key s
step (clears key seq) s = clear_listener_pending key seq s

pub run : List Op → ReconciliationStatus → ReconciliationStatus
run [] s = s
run (op ∷ ops) s = run ops (step op s)
