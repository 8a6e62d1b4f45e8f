-- ===== src/Serv/Versions.antt =====
-- pkg/serv/serv.go: the recorded versions and the snapshots in the cache.
use xds_controller.Prelude.{
  true, false, some, Text, lookup, insert, lookup-insert, ◌==◌, nat_eq, list_eq, List, [], ◌∷◌, ◌≡◌,
  ◌≢◌, ◌⊎◌, inl, inr, refl, arith, All, sym, ◌∙◌, subst, Bool-cases, eq_of_beq, beq_of_eq,
  ne_of_beq,
}
use xds_controller.Util.{Codec}
use xds_controller.Serv.{
  SnapshotConfig, SnapshotCache, ServerState, SnapVersions, is_snap_to_update, Outcome, passed,
  refused, panicked, is_known, is_named, apply_snapshot, process_snapshots, with_inconsistent,
}

module _ {Snapshot : Type 0} (x : SnapshotCache Snapshot) (version_of : Snapshot → Text) where
  -- Every node with a recorded version is served a snapshot of that version.
  abbrev pub Agrees : ServerState x → Type 0
  Agrees s =
      (n v : Text)
      → lookup n s.snap_versions ≡ some v
      → (p : Snapshot) × (x.get_snapshot n s.cache ≡ some p) × (version_of p ≡ v)

  -- The configuration carries the version of its snapshot.
  abbrev pub IsVersioned : SnapshotConfig Snapshot → Type 0
  IsVersioned conf = version_of conf.snapshot ≡ conf.version

  check_cases :
      (conf : SnapshotConfig Snapshot) (versions : SnapVersions)
      → (is_snap_to_update conf versions ≡ (false, versions))
        ⊎ (is_snap_to_update conf versions ≡ (true, insert conf.node_id conf.version versions))
  unfolding is_snap_to_update
  check_cases conf versions = ground arith

  apply_snapshot-Agrees :
      (conf : SnapshotConfig Snapshot) (s : ServerState x)
      → IsVersioned conf
      → Agrees s
      → (apply_snapshot x conf s).0 ≡ true
      → Agrees (apply_snapshot x conf s).1
  unfolding apply_snapshot
  apply_snapshot-Agrees conf s v h e = elim (check_cases conf s.snap_versions) [
    | inl c ↦ rw (c, apply_snapshot) h
    | inr c ↦
        let accepted : (x.set_snapshot conf.node_id conf.snapshot s.cache).0 ≡ true =
          ground arith in
        rw (c, apply_snapshot)
          (λ n w l. elim (Bool-cases (conf.node_id == n)) [
            | inl q ↦ (
              conf.snapshot,
              subst
                  (λ m.
                    x.get_snapshot m (x.set_snapshot conf.node_id conf.snapshot s.cache).1
                    ≡ some conf.snapshot)
                  (eq_of_beq conf.node_id n q)
                  (x.get-set conf.node_id conf.snapshot s.cache accepted),
              ground (arith, lookup-insert conf.node_id n conf.version s.snap_versions),
            )
            | inr q ↦
                let (p, g, f) =
                  h n w
                    (ground (arith, lookup-insert conf.node_id n conf.version s.snap_versions)) in
                (
                  p,
                  x.get-set_other conf.node_id n conf.snapshot s.cache
                        (λ r. ne_of_beq conf.node_id n q (sym r))
                      ∙ g,
                  f,
                )
          ])
  ]

  passed_before :
      (node : Text) (o : Outcome) (ns : List Text)
      → with_inconsistent node o ≡ passed ns
      → (ms : List Text) × (o ≡ passed ms)
  passed_before node (passed ms) ns h = (ms, refl)
  passed_before node (refused n) ns h = cc
  passed_before node panicked ns h = cc

module _ (c : Codec) {Snapshot : Type 0} (x : SnapshotCache Snapshot)
    (version_of : Snapshot → Text) where
  -- If every recorded version is the one its node is served, the same holds after any pass that no
  -- refusal of SetSnapshot and no panic cut short. Each snapshot of the pass has the version that comes with it.
  pub process_snapshots-Agrees :
      (confs : List (SnapshotConfig Snapshot)) (s : ServerState x) (ns : List Text)
      → All (IsVersioned x version_of) confs
      → Agrees x version_of s
      → (process_snapshots c x confs s).0 ≡ passed ns
      → Agrees x version_of (process_snapshots c x confs s).1
  unfolding process_snapshots
  process_snapshots-Agrees [] s ns v h e = h
  process_snapshots-Agrees (conf ∷ confs) s ns v h e = elim (Bool-cases (is_known c conf)) [
    | inr k ↦
        let same : (process_snapshots c x (conf ∷ confs) s).1 ≡ (process_snapshots c x confs s).1 =
          ground arith in
        subst (Agrees x version_of) (sym same)
          (process_snapshots-Agrees confs s ns v.1 h (ground arith))
    | inl k ↦ elim (Bool-cases (is_named c conf)) [
      | inr m ↦ ground arith
      | inl m ↦ elim (Bool-cases conf.inconsistent) [
        | inl i ↦
            let (ms, f) =
              passed_before x version_of conf.node_id (process_snapshots c x confs s).0 ns
                (ground arith) in
            let same : (process_snapshots c x (conf ∷ confs) s).1
                ≡ (process_snapshots c x confs s).1 =
              ground arith in
            subst (Agrees x version_of) (sym same) (process_snapshots-Agrees confs s ms v.1 h f)
        | inr i ↦ elim (Bool-cases (apply_snapshot x conf s).0) [
          | inr a ↦ ground arith
          | inl a ↦
              let same : (process_snapshots c x (conf ∷ confs) s).1
                  ≡ (process_snapshots c x confs (apply_snapshot x conf s).1).1 =
                ground arith in
              subst (Agrees x version_of) (sym same) (
                process_snapshots-Agrees confs (apply_snapshot x conf s).1 ns v.1
                  (apply_snapshot-Agrees x version_of conf s v.0 h a) (ground arith))
        ]
      ]
    ]
  ]

module _ {Snapshot : Type 0} (x : SnapshotCache Snapshot) where
  apply_snapshot-keeps :
      (node : Text) (conf : SnapshotConfig Snapshot) (s : ServerState x)
      → conf.node_id ≢ node
      → x.get_snapshot node (apply_snapshot x conf s).1.cache ≡ x.get_snapshot node s.cache
  unfolding apply_snapshot
  apply_snapshot-keeps node conf s ne = elim (check_cases x (λ _. []) conf s.snap_versions) [
    | inl c ↦ rw (c, apply_snapshot) refl
    | inr c ↦
        rw (c, apply_snapshot)
          (x.get-set_other conf.node_id node conf.snapshot s.cache (λ r. ne (sym r)))
  ]

  -- The version is recorded once the node has been seen.
  recorded :
      (conf : SnapshotConfig Snapshot) (s : ServerState x)
      → is_snap_to_update conf (apply_snapshot x conf s).1.snap_versions
        ≡ (false, (apply_snapshot x conf s).1.snap_versions)
  unfolding apply_snapshot is_snap_to_update
  recorded conf s = ground (
    arith,
    lookup-insert conf.node_id conf.node_id conf.version s.snap_versions,
    beq_of_eq conf.node_id conf.node_id refl,
    beq_of_eq conf.version conf.version refl,
    eq_of_beq conf.version,
  )

  -- A second attempt for the same snapshot reports success and leaves the cache as it is, also when
  -- the first attempt's SetSnapshot failed: the version had been recorded before the call.
  pub apply_again :
      (conf : SnapshotConfig Snapshot) (s : ServerState x)
      → let t = (apply_snapshot x conf s).1 in
        ((apply_snapshot x conf t).0 ≡ true)
        × ((apply_snapshot x conf t).1.cache ≡ t.cache)
        × ((apply_snapshot x conf t).1.snapshot_generated ≡ true)
  unfolding apply_snapshot
  apply_again conf s =
      let again : is_snap_to_update conf (apply_snapshot x conf s).1.snap_versions
          ≡ (false, (apply_snapshot x conf s).1.snap_versions) =
        recorded conf s in
      (ground arith, ground arith, ground arith)

module _ (c : Codec) {Snapshot : Type 0} (x : SnapshotCache Snapshot) where
  -- The configuration is not one that a pass writes for the node.
  abbrev pub Spares : Text → SnapshotConfig Snapshot → Type 0
  Spares node conf =
      (conf.inconsistent ≡ true) ⊎ ((is_known c conf ≡ false) ⊎ (conf.node_id ≢ node))

  -- A node whose snapshots of a pass are all inconsistent, or have an ID that does not decode, keeps
  -- the snapshot it was served, whatever the pass does for the other nodes, and even if a refusal
  -- or a panic cuts it short.
  inconsistent_keeps_last_good :
      (node : Text) (confs : List (SnapshotConfig Snapshot)) (s : ServerState x)
      → All (Spares node) confs
      → x.get_snapshot node (process_snapshots c x confs s).1.cache ≡ x.get_snapshot node s.cache
  unfolding process_snapshots
  inconsistent_keeps_last_good node [] s a = refl
  inconsistent_keeps_last_good node (conf ∷ confs) s a = ground (
    arith,
    inconsistent_keeps_last_good node confs s a.1,
    inconsistent_keeps_last_good node confs (apply_snapshot x conf s).1 a.1,
    apply_snapshot-keeps x node conf s,
  )
