-- ===== src/Sds/Status/Equal.antt =====
-- controllers/sds/tlssecret_controller.go: tlsSecretStatusEqual, by the equality of the parts of a
-- status.
use xds_controller.Prelude.{
  Bool, true, false, ◌&&◌, Option, none, some, ◌==◌, EqOps, nat_eq, list_eq, bool_eq, eq_of_beq,
  beq_of_eq, ◌≡◌, ◌↔◌, refl, arith, subst, sym,
}
use xds_controller.Sds.{ℤ, pos, negsuc}
use xds_controller.Sds.Conditions.{Condition}
use xds_controller.Objects.{SnapshotInfo}
use xds_controller.Sds.Status.{CertificateInfo, TlsStatus, normalize_status}

module _ {ℓ} {A : Type ℓ} ⦃e : EqOps A⦄ where
  abbrev pub option_beq : Option A → Option A → Bool
  option_beq none none = true
  option_beq none (some b) = false
  option_beq (some a) none = false
  option_beq (some a) (some b) = a == b

  pub option_beq_iff : (a b : Option A) → (option_beq a b ≡ true) ↔ (a ≡ b)
  option_beq_iff none none = (λ h. refl, λ h. refl)
  option_beq_iff none (some b) = (λ h. cc, λ h. cc)
  option_beq_iff (some a) none = (λ h. cc, λ h. cc)
  option_beq_iff (some a) (some b) =
      (λ h. ground (arith, e.beq_iff a b), λ h. ground (arith, e.beq_iff a b))

instance abbrev pub option_eq {ℓ} : {A : Type ℓ} ⦃e : EqOps A⦄ → EqOps (Option A)
option_eq = record { beq = option_beq; beq_iff = option_beq_iff }

abbrev pub int_beq : ℤ → ℤ → Bool
int_beq (pos m) (pos n) = m == n
int_beq (pos m) (negsuc n) = false
int_beq (negsuc m) (pos n) = false
int_beq (negsuc m) (negsuc n) = m == n

pub int_beq_iff : (a b : ℤ) → (int_beq a b ≡ true) ↔ (a ≡ b)
int_beq_iff (pos m) (pos n) = (λ h. ground arith, λ h. ground arith)
int_beq_iff (pos m) (negsuc n) = (λ h. cc, λ h. cc)
int_beq_iff (negsuc m) (pos n) = (λ h. cc, λ h. cc)
int_beq_iff (negsuc m) (negsuc n) = (λ h. ground arith, λ h. ground arith)

instance abbrev pub int_eq : EqOps ℤ
int_eq = record { beq = int_beq; beq_iff = int_beq_iff }

abbrev pub condition_beq : Condition → Condition → Bool
condition_beq a b =
    a.type == b.type
    && a.status == b.status
    && a.last_transition_time == b.last_transition_time
    && a.reason == b.reason
    && a.message == b.message
    && a.observed_generation == b.observed_generation

pub condition_beq_iff : (a b : Condition) → (condition_beq a b ≡ true) ↔ (a ≡ b)
condition_beq_iff a b = (
  λ h. ground (
    arith,
    eq_of_beq a.type b.type,
    eq_of_beq a.status b.status,
    eq_of_beq a.reason b.reason,
    eq_of_beq a.message b.message,
  ),
  λ h. ground (
    arith,
    beq_of_eq a.type b.type,
    beq_of_eq a.status b.status,
    beq_of_eq a.reason b.reason,
    beq_of_eq a.message b.message,
  ),
)

instance abbrev pub condition_eq : EqOps Condition
condition_eq = record { beq = condition_beq; beq_iff = condition_beq_iff }

abbrev pub snapshot_beq : SnapshotInfo → SnapshotInfo → Bool
snapshot_beq a b =
    a.node_id == b.node_id
    && a.cluster == b.cluster
    && a.active == b.active
    && a.last_updated == b.last_updated

pub snapshot_beq_iff : (a b : SnapshotInfo) → (snapshot_beq a b ≡ true) ↔ (a ≡ b)
snapshot_beq_iff a b = (
  λ h. ground (
    arith,
    eq_of_beq a.node_id b.node_id,
    eq_of_beq a.cluster b.cluster,
    eq_of_beq a.active b.active,
  ),
  λ h. ground (
    arith,
    beq_of_eq a.node_id b.node_id,
    beq_of_eq a.cluster b.cluster,
    beq_of_eq a.active b.active,
  ),
)

instance abbrev pub snapshot_eq : EqOps SnapshotInfo
snapshot_eq = record { beq = snapshot_beq; beq_iff = snapshot_beq_iff }

abbrev pub certificate_beq : CertificateInfo → CertificateInfo → Bool
certificate_beq a b =
    a.issuer == b.issuer
    && a.subject == b.subject
    && a.dns_names == b.dns_names
    && a.not_before == b.not_before
    && a.not_after == b.not_after
    && a.days_until_expiry == b.days_until_expiry
    && a.serial_number == b.serial_number
    && a.fingerprint == b.fingerprint

pub certificate_beq_iff : (a b : CertificateInfo) → (certificate_beq a b ≡ true) ↔ (a ≡ b)
certificate_beq_iff a b = (
  λ h. ground (
    arith,
    eq_of_beq a.issuer b.issuer,
    eq_of_beq a.subject b.subject,
    eq_of_beq a.dns_names b.dns_names,
    eq_of_beq a.serial_number b.serial_number,
    eq_of_beq a.fingerprint b.fingerprint,
  ),
  λ h. ground (
    arith,
    beq_of_eq a.issuer b.issuer,
    beq_of_eq a.subject b.subject,
    beq_of_eq a.dns_names b.dns_names,
    beq_of_eq a.serial_number b.serial_number,
    beq_of_eq a.fingerprint b.fingerprint,
  ),
)

instance abbrev pub certificate_eq : EqOps CertificateInfo
certificate_eq = record { beq = certificate_beq; beq_iff = certificate_beq_iff }

-- Semantic.DeepEqual on two statuses; an absent slice is an empty one there
abbrev pub deep_equal : TlsStatus → TlsStatus → Bool
deep_equal a b =
    a.active == b.active
    && a.certificate_info == b.certificate_info
    && a.next_renewal == b.next_renewal
    && a.snapshots == b.snapshots
    && a.nodes == b.nodes
    && a.clusters == b.clusters
    && a.last_reconciled == b.last_reconciled
    && a.observed_generation == b.observed_generation
    && a.conditions == b.conditions
    && a.message == b.message
    && a.failure_count == b.failure_count
    && a.last_failure_time == b.last_failure_time
    && a.backoff_until == b.backoff_until
    && a.next_retry_delay == b.next_retry_delay
    && a.paused == b.paused
    && a.force_renew_request == b.force_renew_request

pub deep_equal_refl : (a : TlsStatus) → deep_equal a a ≡ true
deep_equal_refl a = ground (
  arith,
  beq_of_eq a.active a.active refl,
  beq_of_eq a.certificate_info a.certificate_info refl,
  beq_of_eq a.next_renewal a.next_renewal refl,
  beq_of_eq a.snapshots a.snapshots refl,
  beq_of_eq a.nodes a.nodes refl,
  beq_of_eq a.clusters a.clusters refl,
  beq_of_eq a.conditions a.conditions refl,
  beq_of_eq a.message a.message refl,
  beq_of_eq a.failure_count a.failure_count refl,
  beq_of_eq a.last_failure_time a.last_failure_time refl,
  beq_of_eq a.backoff_until a.backoff_until refl,
  beq_of_eq a.next_retry_delay a.next_retry_delay refl,
  beq_of_eq a.paused a.paused refl,
  beq_of_eq a.force_renew_request a.force_renew_request refl,
)

-- tlsSecretStatusEqual
unfoldable pub tls_status_equal : TlsStatus → TlsStatus → Bool
unfolding normalize_status
tls_status_equal a b = deep_equal (normalize_status a) (normalize_status b)

-- Statuses that are the same but for the times compare equal.
pub tls_status_equal_same :
    (a b : TlsStatus) → normalize_status b ≡ normalize_status a → tls_status_equal a b ≡ true
unfolding tls_status_equal
tls_status_equal_same a b e =
    subst (λ s. deep_equal (normalize_status a) s ≡ true) (sym e)
      (deep_equal_refl (normalize_status a))
