-- ===== src/Sds/Reconcile/Attempts.antt =====
-- controllers/sds/tlssecret_controller.go: when Reconcile makes an attempt, and what it does while it
-- waits out a backoff.
use xds_controller.Prelude.{
  ℕ, ◌-◌, ◌<◌, false, Option, none, some, Text, nat_eq, list_eq, List, [], ◌∷◌, ◌++◌, ◌≡◌, refl,
  arith, inl, inr, if_cases, Option-cases, subst, ◌∙◌,
}
use xds_controller.Registry.Endpoints.{found}
use xds_controller.Sds.{pos, is_paused}
use xds_controller.Objects.{SnapshotInfo}
use xds_controller.Sds.Conditions.{Condition}
use xds_controller.Sds.Status.{CertificateInfo, TlsStatus, StatusPatch, patched_status}
use xds_controller.Sds.Records.{
  TlsSecret, Setting, World, Call, get_certificate, patch_expiration, patch_force_renew,
  write_status, SecretState, requeue, Outcome,
}
use xds_controller.Sds.Patches.{prepared}
use xds_controller.Sds.Attempt.{record_expiration, expiration_moved, attempt, is_fresh}
use xds_controller.Sds.Reconcile.{begun, wait_left, resume, reconcile_found, reconcile_tls}

-- waiting out a backoff: the time of the next attempt is set, is not over, and no new renewal is
-- requested
abbrev pub IsWaiting : (x : Setting) → ℕ → ℕ → TlsSecret → Type 0
IsWaiting x now until o =
    (o.status.backoff_until ≡ some until) × (now < until) × (is_fresh x o ≡ false)

-- the patch of the status that is written
unfoldable pub written : List Call → Option StatusPatch
written [] = none
written (get_certificate b ∷ cs) = written cs
written (patch_expiration m ∷ cs) = written cs
written (patch_force_renew m ∷ cs) = written cs
written (write_status g p ∷ cs) = some p

module _ (x : Setting) where
  -- the times of a status as the API server stores them
  abbrev pub stored_option : Option ℕ → Option ℕ
  stored_option none = none
  stored_option (some t) = some (x.stored_time t)

  abbrev pub stored_certificate : Option CertificateInfo → Option CertificateInfo
  stored_certificate none = none
  stored_certificate (some c) =
      some (record c {
        not_before = x.stored_time c.not_before;
        not_after = x.stored_time c.not_after;
      })

  abbrev pub stored_snapshots : List SnapshotInfo → List SnapshotInfo
  stored_snapshots [] = []
  stored_snapshots (s ∷ ss) =
      record s { last_updated = x.stored_time s.last_updated } ∷ stored_snapshots ss

  abbrev pub stored_conditions : List Condition → List Condition
  stored_conditions [] = []
  stored_conditions (c ∷ cs) =
      record c { last_transition_time = x.stored_time c.last_transition_time }
      ∷ stored_conditions cs

  -- the status that a patch leads to, at a time and a generation, on what is stored
  abbrev pub status_by : ℕ → ℕ → StatusPatch → TlsStatus → TlsStatus
  status_by = patched_status x.defaults.codec x.sprintf

  -- a status as the API server gives it back
  abbrev pub read_back : TlsStatus → TlsStatus
  read_back t = record t {
    certificate_info = stored_certificate t.certificate_info;
    snapshots = stored_snapshots t.snapshots;
    last_reconciled = x.stored_time t.last_reconciled;
    conditions = stored_conditions t.conditions;
    last_failure_time = stored_option t.last_failure_time;
    backoff_until = stored_option t.backoff_until;
  }

  -- the object with the status that a patch leads to, as the next reconcile reads it
  abbrev pub rewritten : TlsSecret → ℕ → ℕ → StatusPatch → TlsStatus → TlsSecret
  rewritten o at generation p latest = record o {
    status = read_back (status_by at generation p latest);
  }

  pub found_lem :
      (w : World) (o : TlsSecret) (name : Text) (s : SecretState)
      → w.shutdown ≡ false
      → reconcile_tls x w (found o) name s ≡ reconcile_found x w (prepared x o) (begun s)
  unfolding reconcile_tls
  found_lem w o name s on = rw (on, reconcile_tls) refl

  running_lem :
      (w : World) (o : TlsSecret) (s : SecretState) {wait : Option ℕ}
      → is_paused x.parse_bool o.meta ≡ false
      → wait_left x w.now o ≡ wait
      → reconcile_found x w o s ≡ resume x w o s wait
  unfolding reconcile_found
  running_lem w o s running e = rw (running, reconcile_found) (rw e refl)

  wait_left_lem :
      (now until : ℕ) (o : TlsSecret)
      → IsWaiting x now until o
      → wait_left x now o ≡ some (until - now)
  unfolding wait_left
  wait_left_lem now until o (set, left, stale) = rw (stale, set) (ground arith)

  -- An object that waits out a backoff and is not paused: Reconcile makes no call at all, leaves the
  -- secrets and the counter as they are, and comes back when the backoff ends.
  pub waiting_does_nothing :
      (w : World) (o : TlsSecret) (name : Text) (until : ℕ) (s : SecretState)
      → w.shutdown ≡ false
      → is_paused x.parse_bool (prepared x o).meta ≡ false
      → IsWaiting x w.now until (prepared x o)
      → reconcile_tls x w (found o) name s
        ≡ record { state = begun s; calls = []; reply = requeue (pos (until - w.now)) }
  waiting_does_nothing w o name until s on running waits =
      found_lem w o name s on
      ∙ (running_lem w (prepared x o) (begun s) running
            (wait_left_lem w.now until (prepared x o) waits)
          ∙ unfold resume in refl)

  pub written_recorded :
      (w : World) (at : ℕ) (o : TlsSecret) (cs : List Call)
      → written ((record_expiration x w at o).1 ++ cs) ≡ written cs
  unfolding record_expiration written
  written_recorded w at o cs =
      if_cases (λ (r : TlsSecret × List Call). written (r.1 ++ cs) ≡ written cs)
        (expiration_moved x at o) (λ e. refl) (λ e. refl)

  -- A reconcile of an object that is neither paused nor held up tries.
  pub run_tries :
      (w : World) (o : TlsSecret) (name : Text) (s : SecretState)
      → w.shutdown ≡ false
      → is_paused x.parse_bool (prepared x o).meta ≡ false
      → wait_left x w.now (prepared x o) ≡ none
      → reconcile_tls x w (found o) name s ≡ attempt x w (prepared x o) (begun s)
  run_tries w o name s on running free =
      found_lem w o name s on
      ∙ (running_lem w (prepared x o) (begun s) running free ∙ unfold resume in refl)

  -- A reconcile that writes, of an object that is not paused, has tried.
  pub run_attempts :
      (w : World) (o : TlsSecret) (name : Text) (s : SecretState) {p : StatusPatch}
      → w.shutdown ≡ false
      → is_paused x.parse_bool (prepared x o).meta ≡ false
      → written (reconcile_tls x w (found o) name s).calls ≡ some p
      → reconcile_tls x w (found o) name s ≡ attempt x w (prepared x o) (begun s)
  run_attempts w o name s {p} on running wrote =
      let q = prepared x o in
      let run = found_lem w o name s on in
      elim (Option-cases (wait_left x w.now q)) [
        | inl free ↦ run_tries w o name s on running free
        | inr (wait, left) ↦
            let waits : reconcile_tls x w (found o) name s ≡ resume x w q (begun s) (some wait) =
              run ∙ running_lem w q (begun s) running left in
            let none_written : written (resume x w q (begun s) (some wait)).calls ≡ none =
              unfold resume written in refl in
            let both : written (resume x w q (begun s) (some wait)).calls ≡ some p =
              subst (λ (r : Outcome). written r.calls ≡ some p) waits wrote in
            cc
      ]
