-- ===== src/Sds/Reconcile/Backoff.antt =====
-- controllers/sds/tlssecret_controller.go: what a failure of the certificate operation leads to, and
-- what Reconcile does while an object is paused.
use xds_controller.Prelude.{
  ℕ, ◌+◌, ◌-◌, ◌<◌, Bool, true, false, some, Text, Result, err, nat_eq, list_eq, [], ◌∷◌, ◌≡◌, refl,
  arith, beq_of_eq, sym, subst, ap, ◌∙◌,
}
use xds_controller.Registry.Endpoints.{found}
use xds_controller.Sds.{
  ℤ, pos, is_paused, is_force_renew, force_renew_request, delay_for, RetryPolicy, retry_policy_for,
}
use xds_controller.Sds.Errors.{Error}
use xds_controller.Sds.Secrets.{Secret}
use xds_controller.Sds.Status.{TlsStatus, StatusPatch, patched_status}
use xds_controller.Sds.Records.{
  TlsSecret, Setting, World, write_status, SecretState, requeue, Outcome, finished,
}
use xds_controller.Sds.Patches.{
  next_failure, count_of, prepared, paused_patch, failure_patch, node_of,
}
use xds_controller.Sds.Attempt.{fail, record_expiration, conclude, attempt, is_fresh}
use xds_controller.Sds.Reconcile.{begun, reconcile_found, reconcile_tls}
use xds_controller.Sds.Reconcile.Attempts.{
  written, status_by, rewritten, stored_option, found_lem, waiting_does_nothing, written_recorded,
  run_attempts,
}

module _ (x : Setting) where
  -- what a reconcile whose certificate operation fails writes: one failure more, the time and the
  -- length of the backoff, the request that was tried
  abbrev pub failure_of : World → TlsSecret → Error → StatusPatch
  failure_of w o e =
      let seen = (record_expiration x w (w.get_secret (is_fresh x o)).expiration o).0 in
      let count = next_failure seen.status.failure_count in
      let retry_in =
        delay_for x.floats (retry_policy_for x.floats o.meta x.retry) (count_of count) in
      failure_patch x w.failed_at count retry_in (force_renew_request x.parse_bool o.meta) e

  conclude_failed :
      (w : World) (policy : RetryPolicy x.floats) (node : Text) (force fresh : Bool)
      (request : Text) (renew_in : ℤ) (o : TlsSecret) (s : SecretState) (e : Error)
      {p : StatusPatch}
      → let end = conclude x w policy node force fresh request renew_in o s (err e) in
        let count = next_failure o.status.failure_count in
        let retry_in = delay_for x.floats policy (count_of count) in
        written end.calls ≡ some p
        → (p ≡ failure_patch x w.failed_at count retry_in request e)
          × (end.state ≡ s)
          × (end.reply ≡ requeue retry_in)
  unfolding conclude fail written
  conclude_failed w policy node force fresh request renew_in o s e wrote = ground arith

  attempt_failed :
      (w : World) (o : TlsSecret) (s : SecretState) (e : Error) {p : StatusPatch}
      → (w.get_secret (is_fresh x o)).secret ≡ err e
      → written (attempt x w o s).calls ≡ some p
      → (p ≡ failure_of w o e)
        × ((attempt x w o s).state ≡ s)
        × ((attempt x w o s).reply
            ≡ requeue (
                delay_for x.floats
                  (retry_policy_for x.floats o.meta x.retry)
                  (count_of (failure_of w o e).failure_count)))
  unfolding attempt
  attempt_failed w o s e {p} fails wrote =
      let f = w.get_secret (is_fresh x o) in
      let policy = retry_policy_for x.floats o.meta x.retry in
      let request = force_renew_request x.parse_bool o.meta in
      let force = is_force_renew x.parse_bool o.meta in
      let recorded = record_expiration x w f.expiration o in
      let end = λ (r : Result Error Secret).
        conclude x w policy (node_of x o) force (is_fresh x o) request f.renew_in recorded.0 s r in
      let IsFailure = λ (r : Result Error Secret).
        (p ≡ failure_of w o e)
        × ((end r).state ≡ s)
        × ((end r).reply
            ≡ requeue (delay_for x.floats policy (count_of (failure_of w o e).failure_count))) in
      let wrote' : written (end (err e)).calls ≡ some p =
        subst (λ r. written (end r).calls ≡ some p) fails
          (sym (written_recorded x w f.expiration o (end f.secret).calls)
            ∙ unfold written in wrote) in
      subst IsFailure (sym fails) (
        conclude_failed w policy (node_of x o) force (is_fresh x o) request f.renew_in recorded.0 s
          e wrote')

  run_failed :
      (w : World) (o : TlsSecret) (name : Text) (s : SecretState) (e : Error) {p : StatusPatch}
      → let q = prepared x o in
        (w.get_secret (is_fresh x q)).secret ≡ err e
        → w.shutdown ≡ false
        → is_paused x.parse_bool q.meta ≡ false
        → written (reconcile_tls x w (found o) name s).calls ≡ some p
        → (p ≡ failure_of w q e)
          × ((reconcile_tls x w (found o) name s).state ≡ begun s)
          × ((reconcile_tls x w (found o) name s).reply
              ≡ requeue (
                  delay_for x.floats
                    (retry_policy_for x.floats q.meta x.retry)
                    (count_of (failure_of w q e).failure_count)))
  run_failed w o name s e {p} fails on running wrote =
      let q = prepared x o in
      let tried = run_attempts x w o name s on running wrote in
      let IsFailure = λ (r : Outcome).
        (p ≡ failure_of w q e)
        × (r.state ≡ begun s)
        × (r.reply
            ≡ requeue (
                delay_for x.floats (retry_policy_for x.floats q.meta x.retry)
                  (count_of (failure_of w q e).failure_count))) in
      subst IsFailure (sym tried) (
        attempt_failed w q (begun s) e fails
          (subst (λ (r : Outcome). written r.calls ≡ some p) tried wrote))

  -- the status after a failure: what it counts, and what it keeps
  abbrev pub FailedStatus : StatusPatch → TlsStatus → TlsStatus → Type 0
  FailedStatus p latest new =
      (new.failure_count ≡ p.failure_count)
      × (new.backoff_until ≡ p.backoff_until)
      × (new.force_renew_request ≡ p.force_renew_request)
      × (new.certificate_info ≡ latest.certificate_info)
      × (new.snapshots ≡ latest.snapshots)
      × (new.next_renewal ≡ latest.next_renewal)
      × (new.active ≡ latest.active)

  status_failed :
      (w : World) (o : TlsSecret) (e : Error) (at generation : ℕ) (latest : TlsStatus)
      → FailedStatus (failure_of w o e) latest (status_by x at generation (failure_of w o e) latest)
  unfolding patched_status
  status_failed w o e at generation latest = (refl, refl, refl, refl, refl, refl, refl)

  -- A reconcile of an object that is not paused, whose certificate operation fails and which writes a
  -- status, changes no secret and not the counter of changes; it sets that there are domain configurations
  -- and that they are not reconciled, counts itself as running, and comes back after the policy's delay for the number
  -- of failures that it writes. The written status counts one failure more than the object's, and
  -- keeps the certificate, the snapshots, the renewal time and the activity that are stored.
  pub failure_keeps :
      (w : World) (o : TlsSecret) (name : Text) (s : SecretState) (e : Error) (at generation : ℕ)
      (latest : TlsStatus) {p : StatusPatch}
      → let q = prepared x o in
        (w.get_secret (is_fresh x q)).secret ≡ err e
        → w.shutdown ≡ false
        → is_paused x.parse_bool q.meta ≡ false
        → written (reconcile_tls x w (found o) name s).calls ≡ some p
        → (p ≡ failure_of w q e)
          × ((reconcile_tls x w (found o) name s).state ≡ record s {
            has_domain_configs = true;
            domain_configs_reconciled = false;
            reconciling = s.reconciling + 1;
          })
          × ((reconcile_tls x w (found o) name s).reply
              ≡ requeue (
                  delay_for x.floats
                    (retry_policy_for x.floats q.meta x.retry)
                    (count_of p.failure_count)))
          × FailedStatus p latest (status_by x at generation p latest)
  failure_keeps w o name s e at generation latest {p} fails on running wrote =
      let q = prepared x o in
      let (is, state, reply) = run_failed w o name s e fails on running wrote in
      (
        is,
        state,
        subst
            (λ (r : StatusPatch).
              (reconcile_tls x w (found o) name s).reply
              ≡ requeue (
                  delay_for x.floats (retry_policy_for x.floats q.meta x.retry)
                    (count_of r.failure_count)))
            (sym is) reply,
        subst (λ (r : StatusPatch). FailedStatus r latest (status_by x at generation r latest))
            (sym is) (status_failed w q e at generation latest),
      )

  -- After a reconcile of an object that is not paused whose certificate operation failed and which
  -- wrote a status: as long as the annotations stay as they are and the backoff is not over, as the API
  -- server stores its end, a reconcile on that status makes no call and changes no secret. Whatever
  -- event raises it, no certificate is read or ordered before the stored time. That holds for a
  -- requested renewal too. The reconcile only sets that there are domain configurations and that they
  -- are not reconciled, and counts itself as running.
  pub backoff_is_kept :
      (w later : World) (o : TlsSecret) (name : Text) (s again : SecretState) (e : Error)
      (at generation : ℕ) (latest : TlsStatus) (until : ℕ) {p : StatusPatch}
      → let q = prepared x o in
        (w.get_secret (is_fresh x q)).secret ≡ err e
        → w.shutdown ≡ false
        → is_paused x.parse_bool q.meta ≡ false
        → written (reconcile_tls x w (found o) name s).calls ≡ some p
        → p.backoff_until ≡ some until
        → later.shutdown ≡ false
        → later.now < x.stored_time until
        → reconcile_tls x later (found (rewritten x o at generation p latest)) name again ≡ record {
          state = begun again;
          calls = [];
          reply = requeue (pos (x.stored_time until - later.now));
        }
  backoff_is_kept w later o name s again e at generation latest until {p} fails on running wrote set
        on' soon =
      let q = prepared x o in
      let (is, k1, k2, failed_status) =
        failure_keeps w o name s e at generation latest fails on running wrote in
      let new = rewritten x o at generation p latest in
      let same : force_renew_request x.parse_bool q.meta ≡ p.force_renew_request =
        sym (ap (λ (r : StatusPatch). r.force_renew_request) is) in
      waiting_does_nothing x later new name (x.stored_time until) again on' running (
        ap (stored_option x) (failed_status.1 ∙ set),
        soon,
        ground (
          arith,
          failed_status.2,
          same,
          beq_of_eq (force_renew_request x.parse_bool q.meta) new.status.force_renew_request,
        ),
      )

  -- A paused object: Reconcile reads and orders no certificate, changes no secret and no counter, and
  -- is not requeued; it only writes the status. That keeps the recorded failures with their backoff,
  -- the served request, the certificate, the snapshots and the activity, and says that it is paused.
  paused_keeps :
      (w : World) (o : TlsSecret) (name : Text) (s : SecretState) (at generation : ℕ)
      (latest : TlsStatus)
      → let new = status_by x at generation paused_patch latest in
        w.shutdown ≡ false
        → is_paused x.parse_bool (prepared x o).meta ≡ true
        → (reconcile_tls x w (found o) name s ≡ record {
          state = begun s;
          calls = write_status o.generation paused_patch ∷ [];
          reply = finished;
        })
          × (new.paused ≡ true)
          × (new.failure_count ≡ latest.failure_count)
          × (new.backoff_until ≡ latest.backoff_until)
          × (new.force_renew_request ≡ latest.force_renew_request)
          × (new.certificate_info ≡ latest.certificate_info)
          × (new.snapshots ≡ latest.snapshots)
          × (new.active ≡ latest.active)
  unfolding patched_status
  paused_keeps w o name s at generation latest on paused = (
    found_lem x w o name s on ∙ unfold reconcile_found in rw (paused, reconcile_found) refl,
    refl,
    refl,
    refl,
    refl,
    refl,
    refl,
    refl,
  )
