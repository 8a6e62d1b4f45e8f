-- ===== src/Examples/Tls.antt =====
-- controllers/sds/tlssecret_controller.go at a TLSSecret whose renewal is requested.
use xds_controller.Prelude.{
  true, false, not, none, some, Result, ok, err, lookup, insert, list_eq, nat_eq, [], ◌∷◌, codes,
  any, ◌/◌, ◌*◌, ◌≡◌, refl, arith, list_beq, join, split, trim_space, trim_right, trim_left,
}
use xds_controller.Registry.Endpoints.{Defaults, found}
use xds_controller.Sds.{
  pos, is_paused, is_force_renew, force_renew_request, retry_policy_for, delay_for,
  requeue_interval, force_renew_key, pause_key, certificate_changed,
}
use xds_controller.Sds.Errors.{Error, plain, rate_limited}
use xds_controller.Sds.Secrets.{Secret}
use xds_controller.Sds.Certificates.{Parsers, certificate_type, extract_certificate_info}
use xds_controller.Sds.Status.{TlsStatus, StatusPatch, patched_status, status_heartbeat}
use xds_controller.Sds.Status.Equal.{tls_status_equal}
use xds_controller.Sds.Status.Writes.{update_tls_status, update_tls_settles, update_tls_due}
use xds_controller.Sds.Records.{TlsSecret, Fetched, Setting, World, SecretState, requeue}
use xds_controller.Sds.Patches.{failure_patch, prepared, node_of, success_patch, format_renew_in}
use xds_controller.Sds.Attempt.{is_fresh, attempt, record_expiration, conclude}
use xds_controller.Sds.Reconcile.{begun, wait_left, reconcile_tls, reconcile_found}
use xds_controller.Sds.Reconcile.Attempts.{written, status_by, rewritten}
use xds_controller.Sds.Reconcile.Backoff.{failure_of, FailedStatus, failure_keeps, backoff_is_kept}
use xds_controller.Sds.Reconcile.Success.{
  fetches, Published, clears, changed, success_of, request_after, success_publishes, info_of,
}
use xds_controller.Sds.Reconcile.Renewal.{request_is_served, failed_renewal_is_dropped}
use xds_controller.Util.{with_defaults, parse_csv}
use xds_controller.Examples.Ids.{plain as plain_codec}
use xds_controller.Examples.Secrets.{naturals, loose, no_bool}

-- every certificate is its own PEM block, issued by itself
abbrev pub self : Parsers
self = record {
  pem_decode = λ t. some (certificate_type, t);
  parse_certificate = λ t. ok (record {
    issuer = t;
    subject = t;
    dns_names = [];
    not_before = 0;
    not_after = 100;
    serial_number = [];
    raw = t;
  });
  fingerprint = λ t. t;
  to_lower = λ t. t;
  to_upper = λ t. t;
}

abbrev home : Defaults
home = record { codec = plain_codec; node_id = codes "edge"; cluster = codes "main" }

abbrev setting : Setting
setting = record {
  floats = naturals;
  parsers = self;
  defaults = home;
  retry = loose;
  status_refresh_interval = pos 0;
  parse_bool = no_bool;
  format_time = λ t. [];
  stored_time = λ t. t / 2 * 2;
  duration_text = λ d. [];
  sprintf = λ f args. f;
}

abbrev blank : TlsStatus
blank = record {
  active = false;
  certificate_info = none;
  next_renewal = [];
  snapshots = [];
  nodes = [];
  clusters = [];
  last_reconciled = 0;
  observed_generation = 0;
  conditions = [];
  message = [];
  failure_count = pos 0;
  last_failure_time = none;
  backoff_until = none;
  next_retry_delay = [];
  paused = false;
  force_renew_request = [];
}

abbrev asking : TlsSecret
asking = record {
  name = codes "cert";
  meta = record { annotations = (force_renew_key, codes "now") ∷ []; labels = [] };
  generation = 1;
  status = blank;
}

abbrev stopped : TlsSecret
stopped = record asking { meta = record { annotations = (pause_key, []) ∷ []; labels = [] } }

abbrev sds : Secret
sds = record { name = codes "cert"; tls_certificate = some (codes "chain", codes "key") }

abbrev answer : Result Error Secret → Fetched
answer r = record { secret = r; renew_in = pos 60; expiration = 0 }

abbrev limited : World
limited = record {
  shutdown = false;
  now = 1000;
  failed_at = 1100;
  finished_at = 1100;
  is_leader = true;
  get_secret = λ force. answer (err (plain rate_limited));
  patched_expiration = none;
  cleared_generation = none;
}

abbrev granted : World
granted = record limited { get_secret = λ force. answer (ok sds); now = 1200 }

abbrev early : World
early = record limited { now = 1102 }

abbrev idle : SecretState
idle = record {
  has_domain_configs = false;
  domain_configs_reconciled = false;
  reconciling = 0;
  secret_configs = [];
  counter = 0;
}

abbrev failure : StatusPatch
failure = failure_patch setting 1100 (pos 1) (pos 5) (codes "now") (plain rate_limited)

abbrev success : StatusPatch
success =
    success_patch setting (node_of setting (prepared setting asking))
      (format_renew_in setting (pos 60)) (info_of setting granted sds) (codes "now")

failed_write :
    written (reconcile_tls setting limited (found asking) (codes "cert") idle).calls ≡ some failure
unfolding reconcile_tls written reconcile_found is_paused lookup with_defaults list_beq insert
    wait_left is_force_renew force_renew_request attempt record_expiration conclude delay_for
    retry_policy_for
failed_write = refl

runs : is_paused no_bool (prepared setting asking).meta ≡ false
unfolding is_paused lookup with_defaults list_beq insert
runs = refl

asks : is_fresh setting (prepared setting asking) ≡ true
unfolding is_force_renew force_renew_request lookup with_defaults list_beq insert
asks = refl

failure_keeps_example :
    (failure ≡ failure_of setting limited (prepared setting asking) (plain rate_limited))
    × ((reconcile_tls setting limited (found asking) (codes "cert") idle).state ≡ begun idle)
    × ((reconcile_tls setting limited (found asking) (codes "cert") idle).reply
        ≡ requeue
            (delay_for naturals (retry_policy_for naturals (prepared setting asking).meta loose) 1))
    × FailedStatus setting failure blank (status_by setting 1101 1 failure blank)
failure_keeps_example =
    failure_keeps setting limited asking (codes "cert") idle (plain rate_limited) 1101 1 blank refl
      refl runs failed_write

backoff_is_kept_example :
    reconcile_tls setting early
      (found (rewritten setting asking 1101 1 failure blank))
      (codes "cert")
      idle
    ≡ record { state = begun idle; calls = []; reply = requeue (pos 2) }
backoff_is_kept_example =
    backoff_is_kept setting limited early asking (codes "cert") idle idle (plain rate_limited) 1101
      1 blank 1105 refl refl runs failed_write refl refl (omega arith)

held : is_paused no_bool (prepared setting stopped).meta ≡ true
unfolding is_paused lookup with_defaults list_beq insert
held = refl

free : wait_left setting 1200 (prepared setting asking) ≡ none
unfolding wait_left is_force_renew force_renew_request lookup with_defaults list_beq insert
free = refl

success_publishes_example :
    let q = prepared setting asking in
    let p = success_of setting granted q sds (pos 60) (request_after setting granted q sds) in
    let r = reconcile_tls setting granted (found asking) (codes "cert") idle in
    let new = status_by setting 1101 1 p blank in
    Published (node_of setting q) (record sds { name = codes "cert" }) [] r.state.secret_configs
    × (written r.calls ≡ some p)
    × (r.reply ≡ requeue (requeue_interval (pos 0) (pos 60)))
    × (new.active ≡ true)
    × (new.certificate_info ≡ info_of setting granted sds)
    × (new.failure_count ≡ pos 0)
    × (new.backoff_until ≡ none)
success_publishes_example =
    success_publishes setting granted asking (codes "cert") idle sds 1101 1 blank refl runs free tt
      refl

asked_write :
    written (reconcile_tls setting granted (found asking) (codes "cert") idle).calls ≡ some success
unfolding reconcile_tls written reconcile_found is_paused lookup with_defaults list_beq insert
    wait_left is_force_renew force_renew_request attempt record_expiration conclude delay_for
    retry_policy_for certificate_changed extract_certificate_info
asked_write = refl

request_is_served_example :
    (fetches (reconcile_tls setting granted (found asking) (codes "cert") idle).calls ≡ true ∷ [])
    × (any clears (reconcile_tls setting granted (found asking) (codes "cert") idle).calls
        ≡ changed setting granted blank sds)
    × (is_fresh setting (prepared setting (rewritten setting asking 1101 1 success blank))
        ≡ not (changed setting granted blank sds))
request_is_served_example =
    request_is_served setting granted asking (codes "cert") idle sds 1101 1 blank refl runs asks tt
      refl refl asked_write

failed_renewal_is_dropped_example :
    let r =
      reconcile_tls setting granted
        (found (rewritten setting asking 1101 1 failure blank))
        (codes "cert")
        idle in
    (fetches r.calls ≡ false ∷ []) × (any clears r.calls ≡ true)
failed_renewal_is_dropped_example =
    failed_renewal_is_dropped setting limited granted asking (codes "cert") idle idle
      (plain rate_limited) sds 1101 1 1105 blank refl runs asks refl failed_write refl refl
      (omega arith) tt refl

first_write :
    update_tls_status plain_codec (λ f args. f) (pos 0) 50 1 failure blank
    ≡ some (status_by setting 50 1 failure blank)
unfolding update_tls_status status_heartbeat tls_status_equal patched_status list_beq join parse_csv
    split trim_space trim_right trim_left
first_write = refl

update_tls_settles_example :
    update_tls_status plain_codec
      (λ f args. f)
      (pos 0)
      60
      1
      failure
      (status_by setting 50 1 failure blank)
    ≡ none
update_tls_settles_example =
    update_tls_settles plain_codec (λ f args. f) (pos 0) 50 60 1 failure blank first_write
      (unfold status_heartbeat in omega arith)

update_tls_due_example :
    (new : TlsStatus) × (update_tls_status plain_codec
        (λ f args. f)
        (pos 5000000000)
        6000000000
        1
        failure
        blank
      ≡ some new)
    × (new.last_reconciled ≡ 6000000000)
update_tls_due_example =
    update_tls_due plain_codec (λ f args. f) 5000000000 6000000000 1 failure blank (omega arith)
      (omega arith)
