-- ===== src/Sds/Status/Writes.antt =====
-- controllers/sds/tlssecret_controller.go: when the status of a TLSSecret is written.
use xds_controller.Prelude.{
  ℕ, ◌-◌, ◌<◌, ◌≤◌, true, false, not, ◌||◌, ◌&&◌, if_cases, if◌then◌else◌, Option, none, some, Text,
  nat_eq, list_eq, List, ◌∷◌, codes, is_empty, join, Bool, leb, ◌≡◌, refl, arith, sym, subst, ap,
  length, list_beq,
}
use xds_controller.Util.{Codec, NodeInfo, parse_csv}
use xds_controller.Util.Csv.{parse_csv-IsClean, parse_csv-join}
use xds_controller.Sds.{ℤ, pos, negsuc}
use xds_controller.Sds.Conditions.{Condition}
use xds_controller.Objects.{snapshot_infos, joined}
use xds_controller.Sds.Status.{
  tls_ready, tls_reconciled, tls_paused, TlsStatus, StatusPatch, status_heartbeat, normalize_status,
  timeless_snapshots, timeless_conditions, CertificateInfo, pick_certificate, keeps_snapshots,
  patch_conditions, patched_status, min_status_heartbeat,
}
use xds_controller.Sds.Status.Equal.{tls_status_equal, tls_status_equal_same}
use xds_controller.Sds.Status.Times.{
  Apart, timeless, updates_again, timeless-snapshot_infos, length-snapshot_infos,
}

-- The status after an update.
abbrev pub tls_stored : Option TlsStatus → TlsStatus → TlsStatus
tls_stored none latest = latest
tls_stored (some new) latest = new

names_again :
    (old : Text)
    → join (codes ",") (parse_csv (join (codes ",") (parse_csv old)))
      ≡ join (codes ",") (parse_csv old)
names_again old = ap (join (codes ",")) (parse_csv-join (parse_csv old) (parse_csv-IsClean old))

-- What is kept once is kept again.
again_kept {ℓ} :
    {A : Type ℓ} (f : A → A) (k : Bool) (old x y : A)
    → f x ≡ f y
    → f (if k then (if k then old else x) else y) ≡ f (if k then old else x)
again_kept f true old x y h = refl
again_kept f false old x y h = sym h

length_kept {ℓ} :
    {A : Type ℓ} (k : Bool) (old x y : List A)
    → length x ≡ length y
    → length (if k then (if k then old else x) else y) ≡ length (if k then old else x)
length_kept true old x y h = refl
length_kept false old x y h = sym h

names_kept :
    (k : Bool) (old x : Text)
    → (if k
        then join (codes ",") (parse_csv (if k then join (codes ",") (parse_csv old) else x))
        else x)
      ≡ (if k then join (codes ",") (parse_csv old) else x)
names_kept true old x = names_again old
names_kept false old x = refl

certificate_again :
    (k : Bool) (new old : Option CertificateInfo)
    → pick_certificate k new (pick_certificate k new old) ≡ pick_certificate k new old
certificate_again true none old = refl
certificate_again true (some c) old = refl
certificate_again false new old = refl

active_again : (k a old : Bool) → (a || (k && (a || (k && old)))) ≡ (a || (k && old))
active_again k a old = ground arith

backoff_again {ℓ} :
    {A : Type ℓ} (k : Bool) (old new : A)
    → (if k then (if k then old else new) else new) ≡ (if k then old else new)
backoff_again true old new = refl
backoff_again false old new = refl

timeless_if :
    (k : Bool) (a b c d : List Condition)
    → timeless_conditions a ≡ timeless_conditions c
    → timeless_conditions b ≡ timeless_conditions d
    → timeless_conditions (if k then a else b) ≡ timeless_conditions (if k then c else d)
timeless_if true a b c d p q = p
timeless_if false a b c d p q = q

module _ (codec : Codec) (sprintf : Text → List ℕ → Text) where
  -- One attempt of updateTLSSecretStatus on the status that is stored: what it writes, if it writes.
  unfoldable pub update_tls_status : ℤ → ℕ → ℕ → StatusPatch → TlsStatus → Option TlsStatus
  update_tls_status configured now generation p latest =
      let new = patched_status codec sprintf now generation p latest in
      let stale = leb (status_heartbeat configured) (now - latest.last_reconciled) in
      if stale || not (tls_status_equal latest new) then some new else none

  -- The conditions of an update are those of its repetition, but for the times.
  conditions_same :
      (now later generation : ℕ) (p : StatusPatch) (latest : TlsStatus)
      → timeless_conditions (
          patch_conditions codec sprintf later generation p
            (patched_status codec sprintf now generation p latest))
        ≡ timeless_conditions (patch_conditions codec sprintf now generation p latest)
  unfolding patch_conditions patched_status
  conditions_same now later generation p latest =
      let snaps = λ (t : ℕ). snapshot_infos codec sprintf t p.active_nodes in
      let ready = timeless (tls_ready codec sprintf now generation p latest) in
      let many =
        length_kept (keeps_snapshots p) latest.snapshots (snaps now) (snaps later)
          (length-snapshot_infos codec sprintf now later p.active_nodes) in
      rw
        (
          many,
          active_again p.preserve_existing p.active latest.active,
          certificate_again p.preserve_existing p.cert_info latest.certificate_info,
        )
        (ap
          (λ (l : List Condition).
            ready
            ∷ timeless (tls_reconciled now generation)
            ∷ timeless (tls_paused now generation p)
            ∷ l)
          (timeless_if p.preserve_backoff _ _ _ _ refl refl))

  conditions-Apart :
      (now generation : ℕ) (p : StatusPatch) (latest : TlsStatus)
      → Apart (timeless_conditions (patch_conditions codec sprintf now generation p latest))
  unfolding patch_conditions list_beq
  conditions-Apart now generation p latest =
      let r = tls_ready codec sprintf now generation p latest in
      let k = tls_reconciled now generation in
      let u = tls_paused now generation p in
      if_cases (λ (l : List Condition). Apart (timeless_conditions (r ∷ k ∷ u ∷ l)))
        p.preserve_backoff
        (λ e. ((refl, (refl, (refl, tt))), ((refl, (refl, tt)), ((refl, tt), (tt, tt)))))
        (λ e. (
          (refl, (refl, (refl, (refl, tt)))),
          ((refl, (refl, (refl, tt))), ((refl, (refl, tt)), ((refl, tt), (tt, tt)))),
        ))

  patched_again :
      (now later generation : ℕ) (p : StatusPatch) (latest : TlsStatus)
      → normalize_status (
          patched_status codec sprintf later generation p
            (patched_status codec sprintf now generation p latest))
        ≡ normalize_status (patched_status codec sprintf now generation p latest)
  unfolding normalize_status
  patched_again now later generation p latest =
      let snaps = λ (t : ℕ). snapshot_infos codec sprintf t p.active_nodes in
      let new = patched_status codec sprintf now generation p latest in
      let conditions =
        updates_again latest.conditions (patch_conditions codec sprintf now generation p latest)
          (patch_conditions codec sprintf later generation p new)
          (conditions-Apart now generation p latest)
          (conditions_same now later generation p latest) in
      let snapshots =
        again_kept timeless_snapshots (keeps_snapshots p) latest.snapshots (snaps now) (snaps later)
          (timeless-snapshot_infos codec sprintf now later p.active_nodes) in
      let nodes =
        names_kept (keeps_snapshots p) latest.nodes
          (joined codec sprintf (λ (i : NodeInfo). i.nodes) p.active_nodes) in
      let clusters =
        names_kept (keeps_snapshots p) latest.clusters
          (joined codec sprintf (λ (i : NodeInfo). i.clusters) p.active_nodes) in
      let active = active_again p.preserve_existing p.active latest.active in
      let certificate = certificate_again p.preserve_existing p.cert_info latest.certificate_info in
      let renewal =
        backoff_again (p.preserve_existing && is_empty p.next_renewal) latest.next_renewal
          p.next_renewal in
      unfold patched_status in
      λ i. record {
        active = active i;
        certificate_info = certificate i;
        next_renewal = renewal i;
        snapshots = snapshots i;
        nodes = nodes i;
        clusters = clusters i;
        last_reconciled = 0;
        observed_generation = generation;
        conditions = conditions i;
        message = p.message;
        failure_count = backoff_again p.preserve_backoff latest.failure_count p.failure_count i;
        last_failure_time = none;
        backoff_until = none;
        next_retry_delay = backoff_again p.preserve_backoff latest.next_retry_delay p.next_retry i;
        paused = p.paused;
        force_renew_request =
            backoff_again p.preserve_backoff latest.force_renew_request p.force_renew_request i;
      }

  equal_again :
      (now later generation : ℕ) (p : StatusPatch) (latest : TlsStatus)
      → let new = patched_status codec sprintf now generation p latest in
        tls_status_equal new (patched_status codec sprintf later generation p new) ≡ true
  equal_again now later generation p latest =
      let new = patched_status codec sprintf now generation p latest in
      tls_status_equal_same new (patched_status codec sprintf later generation p new)
        (patched_again now later generation p latest)

  again-none :
      (configured : ℤ) (now later generation : ℕ) (p : StatusPatch) (latest : TlsStatus)
      → later - now < status_heartbeat configured
      → update_tls_status configured later generation p
          (patched_status codec sprintf now generation p latest)
        ≡ none
  unfolding update_tls_status
  again-none configured now later generation p latest soon =
      let at : (patched_status codec sprintf now generation p latest).last_reconciled ≡ now =
        unfold patched_status in refl in
      ground (arith, equal_again now later generation p latest, at)

  update-patched :
      (configured : ℤ) (now generation : ℕ) (p : StatusPatch) (latest : TlsStatus) {new : TlsStatus}
      → update_tls_status configured now generation p latest ≡ some new
      → patched_status codec sprintf now generation p latest ≡ new
  unfolding update_tls_status
  update-patched configured now generation p latest wrote = ground arith

  -- An update that is repeated within the heartbeat of a write writes nothing, also one that keeps
  -- what is stored: a write does not lead to another by the event that it raises.
  pub update_tls_settles :
      (configured : ℤ) (now later generation : ℕ) (p : StatusPatch) (latest : TlsStatus)
      {new : TlsStatus}
      → update_tls_status configured now generation p latest ≡ some new
      → later - now < status_heartbeat configured
      → update_tls_status configured later generation p new ≡ none
  update_tls_settles configured now later generation p latest wrote soon =
      subst (λ s. update_tls_status configured later generation p s ≡ none)
        (update-patched configured now generation p latest wrote)
        (again-none configured now later generation p latest soon)

  heartbeat_positive : (configured : ℤ) → 0 < status_heartbeat configured
  unfolding status_heartbeat
  heartbeat_positive (pos n) = ground arith
  heartbeat_positive (negsuc n) = ground arith

  -- After an update, whether it writes or not, the recorded time is less than a heartbeat ago.
  update_tls_fresh :
      (configured : ℤ) (now generation : ℕ) (p : StatusPatch) (latest : TlsStatus)
      → now
          - (tls_stored
              (update_tls_status configured now generation p latest)
              latest).last_reconciled
        < status_heartbeat configured
  unfolding update_tls_status
  update_tls_fresh configured now generation p latest =
      let at : (patched_status codec sprintf now generation p latest).last_reconciled ≡ now =
        unfold patched_status in refl in
      ground (arith, heartbeat_positive configured, at)

  -- With a refresh interval of at least five seconds, an update that comes a whole interval after the
  -- recorded time is written, even if nothing else has changed, and records the time.
  pub update_tls_due :
      (refresh now generation : ℕ) (p : StatusPatch) (latest : TlsStatus)
      → min_status_heartbeat ≤ refresh
      → refresh ≤ now - latest.last_reconciled
      → (new : TlsStatus) × (update_tls_status (pos refresh) now generation p latest ≡ some new)
        × (new.last_reconciled ≡ now)
  unfolding update_tls_status
  update_tls_due refresh now generation p latest long due =
      let new = patched_status codec sprintf now generation p latest in
      let within : status_heartbeat (pos refresh) ≤ refresh =
        unfold status_heartbeat in ground arith in
      (new, ground arith, unfold patched_status in refl)
