-- ===== src/Sds/Attempt.antt =====
-- controllers/sds/tlssecret_controller.go: Reconcile from GetSecret on.
use xds_controller.Prelude.{
  ℕ, Bool, not, ◌&&◌, ◌||◌, if◌then◌else◌, Option, none, some, Text, Result, ok, err, insert, ◌==◌,
  nat_eq, list_eq, List, [], ◌∷◌, ◌++◌, codes,
}
use xds_controller.Util.{annotation}
use xds_controller.Sds.{
  ℤ, RetryPolicy, delay_for, retry_policy_for, is_force_renew, force_renew_request,
  clear_force_renew, requeue_interval, certificate_changed,
}
use xds_controller.Sds.Errors.{Error, is_error, cert_not_found, cert_nil}
use xds_controller.Sds.Secrets.{Secret, place_secret}
use xds_controller.Sds.Status.{CertificateInfo, TlsStatus}
use xds_controller.Sds.Certificates.{extract_certificate_info}
use xds_controller.Sds.Records.{
  TlsSecret, Setting, World, Call, get_certificate, patch_expiration, patch_force_renew,
  write_status, SecretState, Reply, requeue, Outcome,
}
use xds_controller.Sds.Patches.{
  next_failure, count_of, fingerprint_of, format_renew_in, node_of, failure_patch, success_patch,
}

abbrev pub expiration_key : Text
expiration_key = codes "cert-expiration"

-- err is ErrCertNotFound or ErrCertNil
abbrev pub awaits_leader : Error → Bool
awaits_leader e = is_error e cert_not_found || is_error e cert_nil

module _ (x : Setting) where
  -- !expiration.IsZero(), and the annotation differs
  abbrev pub expiration_moved : ℕ → TlsSecret → Bool
  expiration_moved at o =
      not (at == 0) && not (annotation o.meta.annotations expiration_key == x.format_time at)

  -- the object with the new annotation
  abbrev pub with_expiration : ℕ → TlsSecret → TlsSecret
  with_expiration at o = record o {
    meta = record o.meta {
      annotations = insert expiration_key (x.format_time at) o.meta.annotations;
    };
  }

  -- the patch of the cert-expiration annotation, which replaces the object by the server's
  unfoldable pub record_expiration : World → ℕ → TlsSecret → TlsSecret × List Call
  record_expiration w at o =
      if expiration_moved at o
      then (
        (elim w.patched_expiration [ none ↦ with_expiration at o | some o' ↦ o' ]),
        patch_expiration (with_expiration at o).meta ∷ [],
      )
      else (o, [])

  -- the branch of an error
  unfoldable pub fail : World → RetryPolicy x.floats → Text → TlsSecret → Error → List Call × Reply
  unfolding next_failure
  fail w policy request o e =
      let count = next_failure o.status.failure_count in
      let retry_in = delay_for x.floats policy (count_of count) in
      (
        write_status o.generation (failure_patch x w.failed_at count retry_in request e) ∷ [],
        requeue retry_in,
      )

  -- servedNow || alreadyServed
  unfoldable pub is_served : Bool → Bool → Text → TlsStatus → Option CertificateInfo → Bool
  is_served force fresh request status info =
      (fresh && certificate_changed (fingerprint_of status.certificate_info) (fingerprint_of info))
      || (force && request == status.force_renew_request)

  -- the force-renew request that the status records
  unfoldable pub recorded_request : World → Bool → Bool → Text → TlsStatus → Text
  recorded_request w force served request status =
      if force && served
      then (elim w.cleared_generation [ none ↦ request | some g ↦ [] ])
      else if force
      then status.force_renew_request
      else request

  -- the generation after the patch of the force-renew annotation
  abbrev pub or_else_generation : World → ℕ → ℕ
  or_else_generation w generation = elim w.cleared_generation [ none ↦ generation | some g ↦ g ]

  -- the branch of a certificate
  unfoldable pub publish :
      World
      → Text
      → Bool
      → Bool
      → Text
      → ℤ
      → TlsSecret
      → Secret
      → SecretState
      → SecretState × List Call
  unfolding is_served recorded_request
  publish w node force fresh request renew_in o sds s =
      let info = extract_certificate_info x.parsers w.finished_at sds in
      let served = is_served force fresh request o.status info in
      let cleared = clear_force_renew (x.format_time w.finished_at) o.meta in
      let placed = place_secret node (record sds { name = o.name }) s.secret_configs s.counter in
      let patch =
        success_patch x node (format_renew_in x renew_in) info
          (recorded_request w force served request o.status) in
      (
        record s { secret_configs = placed.0; counter = placed.1 },
        (if force && served then patch_force_renew cleared ∷ [] else [])
            ++ write_status
                (if force && served then or_else_generation w o.generation else o.generation) patch
              ∷ [],
      )

  -- what follows the patch of the annotation, by what GetSecret returned
  unfoldable pub conclude :
      World
      → RetryPolicy x.floats
      → Text
      → Bool
      → Bool
      → Text
      → ℤ
      → TlsSecret
      → SecretState
      → Result Error Secret
      → Outcome
  unfolding fail publish
  conclude w policy node force fresh request renew_in o s (err e) =
      if not w.is_leader && awaits_leader e
      then record {
        state = s;
        calls = [];
        reply = requeue (requeue_interval x.status_refresh_interval renew_in);
      }
      else record {
        state = s;
        calls = (fail w policy request o e).0;
        reply = (fail w policy request o e).1;
      }
  conclude w policy node force fresh request renew_in o s (ok sds) = record {
    state = (publish w node force fresh request renew_in o sds s).0;
    calls = (publish w node force fresh request renew_in o sds s).1;
    reply = requeue (requeue_interval x.status_refresh_interval renew_in);
  }

  -- newForceRenewRequest
  abbrev pub is_fresh : TlsSecret → Bool
  is_fresh o =
      is_force_renew x.parse_bool o.meta
      && not (force_renew_request x.parse_bool o.meta == o.status.force_renew_request)

  -- the part of Reconcile from GetSecret on
  unfoldable pub attempt : World → TlsSecret → SecretState → Outcome
  attempt w o s =
      let fresh = is_fresh o in
      let f = w.get_secret fresh in
      let recorded = record_expiration w f.expiration o in
      let end =
        conclude w (retry_policy_for x.floats o.meta x.retry) (node_of x o)
          (is_force_renew x.parse_bool o.meta) fresh (force_renew_request x.parse_bool o.meta)
          f.renew_in recorded.0 s f.secret in
      record end { calls = get_certificate fresh ∷ recorded.1 ++ end.calls }
