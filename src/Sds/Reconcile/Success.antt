-- ===== src/Sds/Reconcile/Success.antt =====
-- controllers/sds/tlssecret_controller.go: what a successful certificate operation leads to.
use xds_controller.Prelude.{
  ℕ, Bool, true, false, ◌&&◌, if◌then◌else◌, Option, none, some, Text, Result, ok, ◌==◌, nat_eq,
  list_eq, List, [], ◌∷◌, ◌++◌, any, any-append, ◌≡◌, refl, arith, sym, subst, ap, ◌∙◌,
}
use xds_controller.Registry.Endpoints.{found}
use xds_controller.Registry.View.{find}
use xds_controller.Sds.{
  ℤ, pos, is_paused, is_force_renew, force_renew_request, retry_policy_for, RetryPolicy,
  requeue_interval, certificate_changed, Meta, clear_force_renew,
}
use xds_controller.Sds.Errors.{Error}
use xds_controller.Sds.Secrets.{
  Secret, SecretConfigs, secret_name, secrets_of, without_name, place_secret, place_secret_exact,
}
use xds_controller.Sds.Certificates.{extract_certificate_info}
use xds_controller.Sds.Status.{CertificateInfo, TlsStatus, StatusPatch, patched_status}
use xds_controller.Sds.Records.{
  TlsSecret, Setting, World, Call, get_certificate, patch_expiration, patch_force_renew,
  write_status, SecretState, requeue, Outcome,
}
use xds_controller.Sds.Patches.{fingerprint_of, prepared, node_of, success_patch, format_renew_in}
use xds_controller.Sds.Attempt.{
  or_else_generation, with_expiration, record_expiration, expiration_moved, is_served,
  recorded_request, publish, conclude, attempt, is_fresh,
}
use xds_controller.Sds.Reconcile.{begun, wait_left, reconcile_tls}
use xds_controller.Sds.Reconcile.Attempts.{written, status_by, run_tries, written_recorded}

-- the calls of GetSecret, by their forceRenew
abbrev pub fetches : List Call → List Bool
fetches [] = []
fetches (get_certificate b ∷ cs) = b ∷ fetches cs
fetches (patch_expiration m ∷ cs) = fetches cs
fetches (patch_force_renew m ∷ cs) = fetches cs
fetches (write_status g p ∷ cs) = fetches cs

fetches-append : (cs ds : List Call) → fetches (cs ++ ds) ≡ fetches cs ++ fetches ds
fetches-append [] ds = refl
fetches-append (get_certificate b ∷ cs) ds = ap (λ (l : List Bool). b ∷ l) (fetches-append cs ds)
fetches-append (patch_expiration m ∷ cs) ds = fetches-append cs ds
fetches-append (patch_force_renew m ∷ cs) ds = fetches-append cs ds
fetches-append (write_status g p ∷ cs) ds = fetches-append cs ds

-- The node has the secret as the one of its name, no other node has one of that name, and the secrets
-- of other names are as they were.
abbrev pub Published : Text → Secret → SecretConfigs → SecretConfigs → Type 0
Published node sds before after =
    (other : Text)
    → (find secret_name sds.name (secrets_of other after)
        ≡ (if other == node then some sds else none))
      × (without_name sds.name (secrets_of other after)
          ≡ without_name sds.name (secrets_of other before))

-- the force-renew annotation is removed
abbrev pub clears : Call → Bool
clears (get_certificate b) = false
clears (patch_expiration m) = false
clears (patch_force_renew m) = true
clears (write_status g p) = false

-- What the API server returns for the patch of an annotation has the name and the status as before.
abbrev pub Keeps : Option TlsSecret → TlsSecret → Type 0
Keeps none o = Unit {0}
Keeps (some o') o = (o'.name ≡ o.name) × (o'.status ≡ o.status)

recorded_cases :
    (moved : Bool) (patched : Option TlsSecret) (o changed : TlsSecret) (m : Meta)
    → changed.name ≡ o.name
    → changed.status ≡ o.status
    → Keeps patched o
    → let r : TlsSecret × List Call =
        if moved
        then ((elim patched [ none ↦ changed | some o' ↦ o' ]), patch_expiration m ∷ [])
        else (o, []) in
      (r.0.name ≡ o.name) × (r.0.status ≡ o.status) × (fetches r.1 ≡ []) × (any clears r.1 ≡ false)
recorded_cases true none o changed m name status keeps = (name, status, refl, refl)
recorded_cases true (some o') o changed m name status keeps = (keeps.0, keeps.1, refl, refl)
recorded_cases false patched o changed m name status keeps = (refl, refl, refl, refl)

end_calls :
    (removed : Bool) (m : Meta) (generation : ℕ) (p : StatusPatch)
    → let cs =
        (if removed then patch_force_renew m ∷ [] else []) ++ write_status generation p ∷ [] in
      (written cs ≡ some p) × (fetches cs ≡ []) × (any clears cs ≡ removed)
unfolding written
end_calls true m generation p = (refl, refl, refl)
end_calls false m generation p = (refl, refl, refl)

module _ (x : Setting) where
  recorded-Keeps :
      (w : World) (at : ℕ) (o : TlsSecret)
      → Keeps w.patched_expiration o
      → ((record_expiration x w at o).0.name ≡ o.name)
        × ((record_expiration x w at o).0.status ≡ o.status)
        × (fetches (record_expiration x w at o).1 ≡ [])
        × (any clears (record_expiration x w at o).1 ≡ false)
  unfolding record_expiration
  recorded-Keeps w at o keeps =
      recorded_cases (expiration_moved x at o) w.patched_expiration o (with_expiration x at o)
        (with_expiration x at o).meta refl refl keeps

  -- the certificate that is read, as the status shows it
  abbrev pub info_of : World → Secret → Option CertificateInfo
  info_of w sds = extract_certificate_info x.parsers w.finished_at sds

  abbrev pub changed : World → TlsStatus → Secret → Bool
  changed w status sds =
      certificate_changed (fingerprint_of status.certificate_info) (fingerprint_of (info_of w sds))

  -- what a reconcile whose certificate operation succeeds writes, with the request that it records
  abbrev pub success_of : World → TlsSecret → Secret → ℤ → Text → StatusPatch
  success_of w o sds renew_in request =
      success_patch x (node_of x o) (format_renew_in x renew_in) (info_of w sds) request

  conclude_ok :
      (w : World) (policy : RetryPolicy x.floats) (node : Text) (force fresh : Bool)
      (request : Text) (renew_in : ℤ) (o : TlsSecret) (s : SecretState) (sds : Secret)
      → let end = conclude x w policy node force fresh request renew_in o s (ok sds) in
        let served = is_served x force fresh request o.status (info_of w sds) in
        (written end.calls
          ≡ some (
              success_patch x node
                (format_renew_in x renew_in)
                (info_of w sds)
                (recorded_request x w force served request o.status)))
        × (fetches end.calls ≡ [])
        × (any clears end.calls ≡ (force && served))
        × (end.state.secret_configs
            ≡ (place_secret node (record sds { name = o.name }) s.secret_configs s.counter).0)
        × (end.reply ≡ requeue (requeue_interval x.status_refresh_interval renew_in))
  unfolding conclude publish written
  conclude_ok w policy node force fresh request renew_in o s sds =
      let served = is_served x force fresh request o.status (info_of w sds) in
      let end =
        end_calls (force && served) (clear_force_renew (x.format_time w.finished_at) o.meta)
          (if force && served then or_else_generation x w o.generation else o.generation)
          (success_patch x node (format_renew_in x renew_in) (info_of w sds)
            (recorded_request x w force served request o.status)) in
      (end.0, end.1, end.2, refl, refl)

  -- the request that is recorded after a success
  abbrev pub request_after : World → TlsSecret → Secret → Text
  request_after w o sds =
      let force = is_force_renew x.parse_bool o.meta in
      let request = force_renew_request x.parse_bool o.meta in
      recorded_request x w force (is_served x force (is_fresh x o) request o.status (info_of w sds))
        request o.status

  -- What an attempt that succeeds does: what it writes, how it calls GetSecret and whether it removes
  -- the annotation, where the secret is afterwards, and when it comes back.
  abbrev pub Succeeded : World → TlsSecret → SecretState → Secret → ℤ → Outcome → Type 0
  Succeeded w o s sds renew_in r =
      let force = is_force_renew x.parse_bool o.meta in
      let request = force_renew_request x.parse_bool o.meta in
      (written r.calls ≡ some (success_of w o sds renew_in (request_after w o sds)))
      × (fetches r.calls ≡ is_fresh x o ∷ [])
      × (any clears r.calls
          ≡ (force && is_served x force (is_fresh x o) request o.status (info_of w sds)))
      × Published (node_of x o) (record sds { name = o.name }) s.secret_configs
          r.state.secret_configs
      × (r.reply ≡ requeue (requeue_interval x.status_refresh_interval renew_in))

  attempt_ok :
      (w : World) (o : TlsSecret) (s : SecretState) (sds : Secret)
      → Keeps w.patched_expiration o
      → (w.get_secret (is_fresh x o)).secret ≡ ok sds
      → Succeeded w o s sds (w.get_secret (is_fresh x o)).renew_in (attempt x w o s)
  unfolding attempt
  attempt_ok w o s sds keeps succeeds =
      let fresh = is_fresh x o in
      let f = w.get_secret fresh in
      let force = is_force_renew x.parse_bool o.meta in
      let request = force_renew_request x.parse_bool o.meta in
      let recorded = record_expiration x w f.expiration o in
      let end = λ (r : Result Error Secret).
        conclude x w (retry_policy_for x.floats o.meta x.retry) (node_of x o) force fresh request
          f.renew_in recorded.0 s r in
      let whole = λ (r : Result Error Secret). record (end r) {
        calls = get_certificate fresh ∷ recorded.1 ++ (end r).calls;
      } in
      let (name, status, no_fetch, no_clear) = recorded-Keeps w f.expiration o keeps in
      let (wrote, fetched, cleared, placed, reply) =
        conclude_ok w (retry_policy_for x.floats o.meta x.retry) (node_of x o) force fresh request
          f.renew_in recorded.0 s sds in
      let served = λ (t : TlsStatus). is_served x force fresh request t (info_of w sds) in
      let patch = λ (t : TlsStatus).
        success_of w o sds f.renew_in (recorded_request x w force (served t) request t) in
      let all_written : written (whole (ok sds)).calls ≡ some (patch o.status) =
        unfold written in
        written_recorded x w f.expiration o (end (ok sds)).calls
        ∙ (wrote ∙ ap (λ (t : TlsStatus). some (patch t)) status) in
      let all_fetched : fetches (whole (ok sds)).calls ≡ fresh ∷ [] =
        ground (arith, fetches-append recorded.1 (end (ok sds)).calls, no_fetch, fetched) in
      let all_cleared : any clears (whole (ok sds)).calls ≡ (force && served o.status) = ground (
        arith,
        any-append clears recorded.1 (end (ok sds)).calls,
        no_clear,
        cleared ∙ ap (λ (t : TlsStatus). force && served t) status,
      ) in
      let node = node_of x o in
      let at : Published node (record sds { name = o.name }) s.secret_configs
          (end (ok sds)).state.secret_configs =
        subst (Published node (record sds { name = o.name }) s.secret_configs) (sym placed) (
          subst
            (λ (n : Text).
              Published node (record sds { name = n }) s.secret_configs
                (place_secret node (record sds { name = recorded.0.name }) s.secret_configs
                  s.counter).0)
            name
            (λ other.
              place_secret_exact node other (record sds { name = recorded.0.name }) s.secret_configs
                s.counter)) in
      subst (λ r. Succeeded w o s sds f.renew_in (whole r)) (sym succeeds)
        (all_written, all_fetched, all_cleared, at, reply)

  pub run_ok :
      (w : World) (o : TlsSecret) (name : Text) (s : SecretState) (sds : Secret)
      → let q = prepared x o in
        w.shutdown ≡ false
        → is_paused x.parse_bool q.meta ≡ false
        → wait_left x w.now q ≡ none
        → Keeps w.patched_expiration q
        → (w.get_secret (is_fresh x q)).secret ≡ ok sds
        → Succeeded w q s sds
            (w.get_secret (is_fresh x q)).renew_in
            (reconcile_tls x w (found o) name s)
  run_ok w o name s sds on running free keeps succeeds =
      subst
        (λ r.
          Succeeded w (prepared x o) s sds (w.get_secret (is_fresh x (prepared x o))).renew_in r)
        (sym (run_tries x w o name s on running free))
        (attempt_ok w (prepared x o) (begun s) sds keeps succeeds)

  -- A reconcile of an object that is not paused, that no backoff holds up and whose certificate
  -- operation succeeds: the object's node has the certificate that was read under the object's name
  -- afterwards, no other node has a secret of that name, wherever copies were, and all secrets of other
  -- names are as they were. The status it leads to is active, shows the certificate that was read, and
  -- has no failure and no backoff, so that the next error starts from the base delay. It comes back
  -- when the renewal is due, or after the refresh interval. The server's answer to the annotation patch
  -- keeps the name and the status.
  pub success_publishes :
      (w : World) (o : TlsSecret) (name : Text) (s : SecretState) (sds : Secret) (at generation : ℕ)
      (latest : TlsStatus)
      → let q = prepared x o in
        let f = w.get_secret (is_fresh x q) in
        let r = reconcile_tls x w (found o) name s in
        let new =
          status_by x at generation
            (success_of w q sds f.renew_in (request_after w q sds))
            latest in
        w.shutdown ≡ false
        → is_paused x.parse_bool q.meta ≡ false
        → wait_left x w.now q ≡ none
        → Keeps w.patched_expiration q
        → f.secret ≡ ok sds
        → Published
            (node_of x q)
            (record sds { name = o.name })
            s.secret_configs
            r.state.secret_configs
          × (written r.calls ≡ some (success_of w q sds f.renew_in (request_after w q sds)))
          × (r.reply ≡ requeue (requeue_interval x.status_refresh_interval f.renew_in))
          × (new.active ≡ true)
          × (new.certificate_info ≡ info_of w sds)
          × (new.failure_count ≡ pos 0)
          × (new.backoff_until ≡ none)
  unfolding patched_status
  success_publishes w o name s sds at generation latest on running free keeps succeeds =
      let (wrote, fetched, cleared, placed, reply) =
        run_ok w o name s sds on running free keeps succeeds in
      (placed, wrote, reply, refl, refl, refl, refl)
