-- ===== src/Sds/Status.antt =====
-- controllers/sds/tlssecret_controller.go: what updateTLSSecretStatus writes into the status of a
-- TLSSecret, and when. Times are nanoseconds since Go's zero time, which is 0; formatting by
-- fmt.Sprintf is a parameter.
pub mod Equal
pub mod Times
pub mod Writes
use xds_controller.Prelude.{
  ℕ, ◌+◌, ◌-◌, ◌*◌, ◌/◌, Bool, true, false, not, ◌&&◌, ◌||◌, if◌then◌else◌, Option, none, some,
  Text, ◌==◌, list_eq, nat_eq, List, [], ◌∷◌, codes, is_empty, length, join, sort_strings, ltb, leb,
}
use xds_controller.Util.{Codec, NodeInfo, parse_csv}
use xds_controller.Sds.{ℤ, pos, negsuc, nonpositive, second}
use xds_controller.Sds.Conditions.{Condition, update_condition}
use xds_controller.Objects.{
  SnapshotInfo, snapshot_infos, joined, all_names, ready_type, reconciled_type, error_type,
  condition_true, condition_false,
}

pub record CertificateInfo : Type 0 where
  pub issuer : Text
  pub subject : Text
  pub dns_names : List Text
  pub not_before : ℕ
  pub not_after : ℕ
  pub days_until_expiry : ℕ
  pub serial_number : Text
  pub fingerprint : Text

-- TLSSecretStatus
pub record TlsStatus : Type 0 where
  pub active : Bool
  pub certificate_info : Option CertificateInfo
  pub next_renewal : Text
  pub snapshots : List SnapshotInfo
  pub nodes : Text
  pub clusters : Text
  pub last_reconciled : ℕ
  pub observed_generation : ℕ
  pub conditions : List Condition
  pub message : Text
  pub failure_count : ℤ
  pub last_failure_time : Option ℕ
  pub backoff_until : Option ℕ
  pub next_retry_delay : Text
  pub paused : Bool
  pub force_renew_request : Text

-- tlsSecretStatusPatch
pub record StatusPatch : Type 0 where
  pub active : Bool
  pub active_nodes : List Text
  pub next_renewal : Text
  pub cert_info : Option CertificateInfo
  pub message : Text
  pub paused : Bool
  pub failure_count : ℤ
  pub last_failure : Option ℕ
  pub backoff_until : Option ℕ
  pub next_retry : Text
  pub force_renew_request : Text
  pub preserve_existing : Bool
  pub preserve_backoff : Bool

abbrev pub min_status_heartbeat : ℕ
min_status_heartbeat = 5 * second

-- refresh - refresh/10, or the minimum
abbrev pub heartbeat_of : ℕ → ℕ
heartbeat_of refresh =
    let heartbeat = refresh - refresh / 10 in
    if ltb heartbeat min_status_heartbeat then min_status_heartbeat else heartbeat

-- statusHeartbeat
unfoldable pub status_heartbeat : ℤ → ℕ
status_heartbeat (pos n) = heartbeat_of (if n == 0 then 3600 * second else n)
status_heartbeat (negsuc n) = heartbeat_of (3600 * second)

-- failureCount > 0
abbrev pub is_positive : ℤ → Bool
is_positive d = not (nonpositive d)

-- normalizeStatusForCompare
abbrev pub timeless_snapshots : List SnapshotInfo → List SnapshotInfo
timeless_snapshots [] = []
timeless_snapshots (s ∷ ss) = record s { last_updated = 0 } ∷ timeless_snapshots ss

abbrev pub timeless_conditions : List Condition → List Condition
timeless_conditions [] = []
timeless_conditions (c ∷ cs) = record c { last_transition_time = 0 } ∷ timeless_conditions cs

unfoldable pub normalize_status : TlsStatus → TlsStatus
normalize_status s = record s {
  last_reconciled = 0;
  snapshots = timeless_snapshots s.snapshots;
  conditions = timeless_conditions s.conditions;
  backoff_until = none;
  last_failure_time = none;
}

abbrev pub paused_type : Text
paused_type = codes "Paused"

abbrev pub expiring_type : Text
expiring_type = codes "CertExpiring"

-- effCertInfo
abbrev pub pick_certificate :
    Bool → Option CertificateInfo → Option CertificateInfo → Option CertificateInfo
pick_certificate true none old = old
pick_certificate true (some c) old = some c
pick_certificate false new old = new

abbrev pub kept_certificate : StatusPatch → TlsStatus → Option CertificateInfo
kept_certificate p latest = pick_certificate p.preserve_existing p.cert_info latest.certificate_info

-- preserveExisting, and the patch has no snapshots
abbrev pub keeps_snapshots : StatusPatch → Bool
keeps_snapshots p = p.preserve_existing && is_empty p.active_nodes

abbrev pub kept_renewal : StatusPatch → TlsStatus → Text
kept_renewal p latest =
    if p.preserve_existing && is_empty p.next_renewal then latest.next_renewal else p.next_renewal

abbrev pub kept_active : StatusPatch → TlsStatus → Bool
kept_active p latest = p.active || (p.preserve_existing && latest.active)

abbrev pub tls_reconciled : ℕ → ℕ → Condition
tls_reconciled now generation = record {
  type = reconciled_type;
  status = condition_true;
  last_transition_time = now;
  reason = codes "Reconciled";
  message = codes "Successfully reconciled";
  observed_generation = generation;
}

abbrev pub tls_paused : ℕ → ℕ → StatusPatch → Condition
tls_paused now generation p = record {
  type = paused_type;
  status = if p.paused then condition_true else condition_false;
  last_transition_time = now;
  reason = if p.paused then codes "Paused" else codes "NotPaused";
  message = if p.paused then p.message else [];
  observed_generation = generation;
}

abbrev pub tls_error : ℕ → ℕ → StatusPatch → Condition
tls_error now generation p =
    let failed = is_positive p.failure_count in
    record {
      type = error_type;
      status = if failed then condition_true else condition_false;
      last_transition_time = now;
      reason = if failed then codes "Error" else codes "NoError";
      message = if failed then p.message else [];
      observed_generation = generation;
    }

-- effCertInfo != nil && effCertInfo.DaysUntilExpiry < 30
abbrev pub days_if_expiring : Option CertificateInfo → Option ℕ
days_if_expiring none = none
days_if_expiring (some c) = if ltb c.days_until_expiry 30 then some c.days_until_expiry else none

abbrev pub update_conditions : List Condition → List Condition → List Condition
update_conditions cs [] = cs
update_conditions cs (new ∷ news) = update_conditions (update_condition cs new) news

module _ (codec : Codec) (sprintf : Text → List ℕ → Text) where
  -- effSnapshots
  abbrev pub kept_snapshots : ℕ → StatusPatch → TlsStatus → List SnapshotInfo
  kept_snapshots now p latest =
      if keeps_snapshots p
      then latest.snapshots
      else snapshot_infos codec sprintf now p.active_nodes

  -- effNodes and effClusters, joined
  abbrev pub kept_names : StatusPatch → (NodeInfo → List Text) → Text → Text
  kept_names p field old =
      if keeps_snapshots p
      then join (codes ",") (parse_csv old)
      else joined codec sprintf field p.active_nodes

  abbrev pub tls_ready : ℕ → ℕ → StatusPatch → TlsStatus → Condition
  tls_ready now generation p latest =
      let active = kept_active p latest in
      record {
        type = ready_type;
        status = if active then condition_true else condition_false;
        last_transition_time = now;
        reason = if active then codes "Active" else codes "Inactive";
        message =
            if active
            then sprintf (codes "Secret is active in %d snapshots")
                (length (kept_snapshots now p latest) ∷ [])
            else p.message;
        observed_generation = generation;
      }

  abbrev pub expiring : ℕ → ℕ → Option ℕ → Condition
  expiring now generation days = record {
    type = expiring_type;
    status = elim days [ none ↦ condition_false | some d ↦ condition_true ];
    last_transition_time = now;
    reason = elim days [ none ↦ codes "CertValid" | some d ↦ codes "CertExpiring" ];
    message = elim days [
      | none ↦ []
      | some d ↦ sprintf (codes "Certificate expires in %d days") (d ∷ [])
    ];
    observed_generation = generation;
  }

  -- the conditions that are updated, in their order
  unfoldable pub patch_conditions : ℕ → ℕ → StatusPatch → TlsStatus → List Condition
  patch_conditions now generation p latest =
      let last = expiring now generation (days_if_expiring (kept_certificate p latest)) ∷ [] in
      tls_ready now generation p latest
      ∷ tls_reconciled now generation
      ∷ tls_paused now generation p
      ∷ (if p.preserve_backoff then last else tls_error now generation p ∷ last)

  -- newStatus
  unfoldable pub patched_status : ℕ → ℕ → StatusPatch → TlsStatus → TlsStatus
  unfolding patch_conditions
  patched_status now generation p latest = record {
    active = kept_active p latest;
    certificate_info = kept_certificate p latest;
    next_renewal = kept_renewal p latest;
    snapshots = kept_snapshots now p latest;
    nodes = kept_names p (λ (i : NodeInfo). i.nodes) latest.nodes;
    clusters = kept_names p (λ (i : NodeInfo). i.clusters) latest.clusters;
    last_reconciled = now;
    observed_generation = generation;
    conditions = update_conditions latest.conditions (patch_conditions now generation p latest);
    message = p.message;
    failure_count = if p.preserve_backoff then latest.failure_count else p.failure_count;
    last_failure_time = if p.preserve_backoff then latest.last_failure_time else p.last_failure;
    backoff_until = if p.preserve_backoff then latest.backoff_until else p.backoff_until;
    next_retry_delay = if p.preserve_backoff then latest.next_retry_delay else p.next_retry;
    paused = p.paused;
    force_renew_request =
        if p.preserve_backoff then latest.force_renew_request else p.force_renew_request;
  }
