-- ===== src/Sds/Reconcile.antt =====
-- controllers/sds/tlssecret_controller.go: Reconcile of a TLSSecret.
pub mod Attempts
pub mod Backoff
pub mod Success
pub mod Renewal
use xds_controller.Prelude.{
  ℕ, zero, suc, ◌+◌, ◌-◌, ◌*◌, ◌/◌, ◌%◌, ◌^◌, Bool, true, false, not, ◌&&◌, ◌||◌, if◌then◌else◌,
  Option, none, some, Text, Map, Result, ok, err, lookup, insert, ◌==◌, nat_eq, list_eq, List, [],
  ◌∷◌, ◌++◌, codes, ltb, leb,
}
use xds_controller.Util.{with_defaults, get_node_id, annotation}
use xds_controller.Registry.Endpoints.{Answer, found, missing, unreadable, Defaults}
use xds_controller.Sds.{
  ℤ, pos, negsuc, nonpositive, second, Floats, RetryPolicy, delay_for, retry_policy_for, Meta,
  is_paused, is_force_renew, force_renew_request, clear_force_renew, requeue_interval,
  certificate_changed, pause_key,
}
use xds_controller.Sds.Errors.{Error, Sentinel, is_error, cert_not_found, cert_nil}
use xds_controller.Sds.Secrets.{Secret, SecretConfigs, place_secret, remove_everywhere}
use xds_controller.Sds.Status.{CertificateInfo, TlsStatus, StatusPatch}
use xds_controller.Sds.Certificates.{Parsers, extract_certificate_info}
use xds_controller.Sds.Records.{
  TlsSecret, Fetched, Setting, World, Call, get_certificate, patch_expiration, patch_force_renew,
  write_status, SecretState, Reply, requeue, failed, Outcome, finished,
}
use xds_controller.Sds.Patches.{
  next_failure, count_of, add_duration, fingerprint_of, format_renew_in, prepared, node_of,
  paused_patch, failure_patch, success_patch,
}
use xds_controller.Sds.Attempt.{
  expiration_key, awaits_leader, expiration_moved, with_expiration, record_expiration, fail,
  is_served, recorded_request, or_else_generation, publish, conclude, is_fresh, attempt,
}

-- SetHasDomainConfigs(true) and the count of running reconciles, as a reconcile begins
abbrev pub begun : SecretState → SecretState
begun s = record s {
  has_domain_configs = true;
  domain_configs_reconciled = false;
  reconciling = s.reconciling + 1;
}

-- the goroutine of Reconcile, when its context has ended
unfoldable pub end_reconcile : SecretState → SecretState
end_reconcile s =
    let count = s.reconciling - 1 in
    record s {
      reconciling = count;
      domain_configs_reconciled = if count == 0 then true else s.domain_configs_reconciled;
    }

-- backoffRemaining
unfoldable pub backoff_remaining : ℕ → Option ℕ → Option ℕ
backoff_remaining now none = none
backoff_remaining now (some until) =
    if until == 0 || leb until now then none else some (until - now)

module _ (x : Setting) where
  -- the backoff that has to be waited out
  unfoldable pub wait_left : ℕ → TlsSecret → Option ℕ
  unfolding backoff_remaining
  wait_left now o = if is_fresh x o then none else backoff_remaining now o.status.backoff_until

  unfoldable pub resume : World → TlsSecret → SecretState → Option ℕ → Outcome
  resume w o s (some wait) = record { state = s; calls = []; reply = requeue (pos wait) }
  resume w o s none = attempt x w o s

  -- the branch of an object that exists, with the defaults in its annotations
  unfoldable pub reconcile_found : World → TlsSecret → SecretState → Outcome
  unfolding resume
  reconcile_found w o s =
      if is_paused x.parse_bool o.meta
      then record {
        state = s;
        calls = write_status o.generation paused_patch ∷ [];
        reply = finished;
      }
      else resume w o s (wait_left w.now o)

  -- Reconcile
  unfoldable pub reconcile_tls : World → Answer TlsSecret → Text → SecretState → Outcome
  reconcile_tls w answer name s =
      if w.shutdown then record { state = s; calls = []; reply = finished } else elim answer [
        | unreadable ↦ record { state = begun s; calls = []; reply = failed }
        | missing ↦
            let removed = remove_everywhere name s.secret_configs in
            record {
              state = record (begun s) {
                secret_configs = removed.0;
                counter = s.counter + removed.1;
              };
              calls = [];
              reply = finished;
            }
        | found o ↦ reconcile_found w (prepared x o) (begun s)
      ]
