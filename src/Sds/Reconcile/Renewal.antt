-- ===== src/Sds/Reconcile/Renewal.antt =====
-- controllers/sds/tlssecret_controller.go: when a requested renewal counts as served.
use xds_controller.Prelude.{
  ℕ, ◌≤◌, Bool, true, false, not, ◌&&◌, Option, none, some, Text, ok, err, ◌==◌, nat_eq, list_eq,
  any, [], ◌∷◌, ◌≡◌, refl, arith, beq_of_eq, sym, subst, ap, ◌∙◌,
}
use xds_controller.Registry.Endpoints.{found}
use xds_controller.Sds.{is_paused, is_force_renew, force_renew_request}
use xds_controller.Sds.Errors.{Error}
use xds_controller.Sds.Secrets.{Secret}
use xds_controller.Sds.Status.{CertificateInfo, TlsStatus, StatusPatch, patched_status}
use xds_controller.Sds.Records.{TlsSecret, Setting, World, SecretState}
use xds_controller.Sds.Patches.{prepared}
use xds_controller.Sds.Attempt.{is_served, recorded_request, is_fresh}
use xds_controller.Sds.Reconcile.{wait_left, reconcile_tls}
use xds_controller.Sds.Reconcile.Attempts.{written, rewritten, stored_option}
use xds_controller.Sds.Reconcile.Backoff.{failure_keeps}
use xds_controller.Sds.Reconcile.Success.{
  fetches, clears, Keeps, info_of, changed, success_of, request_after, run_ok,
}

some_injective {ℓ} : {A : Type ℓ} (a b : A) → some a ≡ some b → a ≡ b
some_injective a b h = cc

module _ (x : Setting) where
  served_lem :
      (w : World) (q : TlsSecret) (sds : Secret)
      → let force = is_force_renew x.parse_bool q.meta in
        let request = force_renew_request x.parse_bool q.meta in
        is_fresh x q ≡ true
        → w.cleared_generation ≡ none
        → ((force && is_served x force (is_fresh x q) request q.status (info_of x w sds))
            ≡ changed x w q.status sds)
          × ((force && not (request == request_after x w q sds)) ≡ not (changed x w q.status sds))
  unfolding is_served recorded_request
  served_lem w q sds fresh stuck = ground (
    arith,
    beq_of_eq (force_renew_request x.parse_bool q.meta) (force_renew_request x.parse_bool q.meta)
        refl,
  )

  -- A reconcile that acts on a new force-renew request, gets a certificate and fails to remove the
  -- annotation: it has called GetSecret once, with forceRenew, and it tried to remove the annotation
  -- exactly if the certificate is another than the recorded one. On the status that it writes, as it is
  -- read back, the request is new to the next reconcile exactly if the certificate is the same. So
  -- forceRenew is not passed again for a request that has been served, and is for one that has not.
  pub request_is_served :
      (w : World) (o : TlsSecret) (name : Text) (s : SecretState) (sds : Secret) (at generation : ℕ)
      (latest : TlsStatus) {p : StatusPatch}
      → let q = prepared x o in
        let r = reconcile_tls x w (found o) name s in
        w.shutdown ≡ false
        → is_paused x.parse_bool q.meta ≡ false
        → is_fresh x q ≡ true
        → Keeps w.patched_expiration q
        → (w.get_secret true).secret ≡ ok sds
        → w.cleared_generation ≡ none
        → written r.calls ≡ some p
        → (fetches r.calls ≡ true ∷ [])
          × (any clears r.calls ≡ changed x w o.status sds)
          × (is_fresh x (prepared x (rewritten x o at generation p latest))
              ≡ not (changed x w o.status sds))
  request_is_served w o name s sds at generation latest {p} on running fresh keeps succeeds stuck
        wrote' =
      let q = prepared x o in
      let force = is_force_renew x.parse_bool q.meta in
      let request = force_renew_request x.parse_bool q.meta in
      let info : (w.get_secret (is_fresh x q)).secret ≡ ok sds =
        subst (λ b. (w.get_secret b).secret ≡ ok sds) (sym fresh) succeeds in
      let free : wait_left x w.now q ≡ none = unfold wait_left in rw fresh refl in
      let (wrote, fetched, cleared, placed, reply) =
        run_ok x w o name s sds on running free keeps info in
      let patch : success_of x w q sds (w.get_secret (is_fresh x q)).renew_in
            (request_after x w q sds)
          ≡ p =
        some_injective _ _ (sym wrote ∙ wrote') in
      let served = served_lem w q sds fresh stuck in
      (
        fetched ∙ ap (λ (b : Bool). b ∷ []) fresh,
        cleared ∙ served.0,
        subst
            (λ (r : StatusPatch).
              is_fresh x (prepared x (rewritten x o at generation r latest))
              ≡ not (changed x w o.status sds))
            patch (unfold patched_status in served.1),
      )

  wait_over :
      (now until : ℕ) (q : TlsSecret)
      → q.status.backoff_until ≡ some until
      → until ≤ now
      → wait_left x now q ≡ none
  unfolding wait_left
  wait_over now until q set over = ground arith

  served_again :
      (fresh : Bool) (q : TlsSecret) (info : Option CertificateInfo)
      → let force = is_force_renew x.parse_bool q.meta in
        let request = force_renew_request x.parse_bool q.meta in
        force ≡ true
        → request ≡ q.status.force_renew_request
        → (force && is_served x force fresh request q.status info) ≡ true
  unfolding is_served
  served_again fresh q info force same =
      ground (
        arith,
        beq_of_eq (force_renew_request x.parse_bool q.meta) q.status.force_renew_request same,
      )

  -- A force-renew request whose first attempt fails is dropped. The failure records the request; the
  -- next reconcile on that status, once the backoff is over, calls GetSecret once and without
  -- forceRenew, and if that succeeds it removes the annotation. The annotations stay as they are in
  -- between, and the server's answer to the annotation patch keeps the name and the status.
  pub failed_renewal_is_dropped :
      (w later : World) (o : TlsSecret) (name : Text) (s again : SecretState) (e : Error)
      (sds : Secret) (at generation until : ℕ) (latest : TlsStatus) {p : StatusPatch}
      → let q = prepared x o in
        let new = rewritten x o at generation p latest in
        let r = reconcile_tls x later (found new) name again in
        w.shutdown ≡ false
        → is_paused x.parse_bool q.meta ≡ false
        → is_fresh x q ≡ true
        → (w.get_secret true).secret ≡ err e
        → written (reconcile_tls x w (found o) name s).calls ≡ some p
        → p.backoff_until ≡ some until
        → later.shutdown ≡ false
        → x.stored_time until ≤ later.now
        → Keeps later.patched_expiration (prepared x new)
        → (later.get_secret false).secret ≡ ok sds
        → (fetches r.calls ≡ false ∷ []) × (any clears r.calls ≡ true)
  failed_renewal_is_dropped w later o name s again e sds at generation until latest {p} on running
        fresh fails wrote set on' over keeps succeeds =
      let q = prepared x o in
      let new = rewritten x o at generation p latest in
      let request = force_renew_request x.parse_bool q.meta in
      let fails' : (w.get_secret (is_fresh x q)).secret ≡ err e =
        subst (λ b. (w.get_secret b).secret ≡ err e) (sym fresh) fails in
      let (is, k1, k2, status) =
        failure_keeps x w o name s e at generation latest fails' on running wrote in
      let same : request ≡ new.status.force_renew_request =
        sym (status.2 ∙ ap (λ (r : StatusPatch). r.force_renew_request) is) in
      let force : is_force_renew x.parse_bool q.meta ≡ true = ground arith in
      let stale : is_fresh x (prepared x new) ≡ false =
        ground (arith, beq_of_eq request new.status.force_renew_request same) in
      let free : wait_left x later.now (prepared x new) ≡ none =
        wait_over later.now (x.stored_time until) (prepared x new)
          (ap (stored_option x) (status.1 ∙ set)) over in
      let succeeds' : (later.get_secret (is_fresh x (prepared x new))).secret ≡ ok sds =
        subst (λ b. (later.get_secret b).secret ≡ ok sds) (sym stale) succeeds in
      let (wrote', fetched, cleared, placed, reply) =
        run_ok x later new name again sds on' running free keeps succeeds' in
      (
        fetched ∙ ap (λ (b : Bool). b ∷ []) stale,
        cleared
            ∙ served_again (is_fresh x (prepared x new)) (prepared x new) (info_of x later sds)
                force same,
      )
