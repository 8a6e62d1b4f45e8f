-- ===== src/Serv/Progress.antt =====
-- pkg/serv/serv.go: a tick that finds something new brings the nodes up to date.
use xds_controller.Prelude.{
  ℕ, true, false, ◌&&◌, if◌then◌else◌, Option, some, Text, lookup, lookup-insert, ◌==◌, nat_eq,
  list_eq, List, [], ◌∷◌, ◌≡◌, inl, inr, refl, arith, All, Bool-cases, Option-cases, eq_of_beq, sym,
  ap, ◌∙◌,
}
use xds_controller.Serv.{
  SnapshotConfig, SnapshotCache, ServerState, SnapVersions, is_snap_to_update, passed, is_known,
  is_named, apply_snapshot, process_snapshots, process_snapshot, serve_tick,
}
use xds_controller.Serv.Versions.{Agrees, IsVersioned, process_snapshots-Agrees}
use xds_controller.Util.{Codec}

-- The version that a node has after the snapshots, if it had the given one before.
abbrev pub latest :
    {Snapshot : Type 0} → Codec → Text → List (SnapshotConfig Snapshot) → Option Text → Option Text
latest c node [] old = old
latest c node (conf ∷ confs) old =
    latest c node confs (if is_known c conf && conf.node_id == node then some conf.version else old)

module _ {Snapshot : Type 0} (x : SnapshotCache Snapshot) where
  -- SetSnapshot refuses nothing.
  abbrev pub Accepts : Type 0
  Accepts = (n : Text) (p : Snapshot) (c : x.Cache) → (x.set_snapshot n p c).0 ≡ true

  recorded_version :
      (conf : SnapshotConfig Snapshot) (versions : SnapVersions) (node : Text)
      → lookup node (is_snap_to_update conf versions).1
        ≡ (if conf.node_id == node then some conf.version else lookup node versions)
  unfolding is_snap_to_update
  recorded_version conf versions node = elim (Option-cases (lookup conf.node_id versions)) [
    | inl e ↦ rw (e, is_snap_to_update) (lookup-insert conf.node_id node conf.version versions)
    | inr (current, e) ↦
        rw (e, is_snap_to_update)
          (ground (
            arith,
            lookup-insert conf.node_id node conf.version versions,
            eq_of_beq current conf.version,
            eq_of_beq conf.node_id node,
          ))
  ]

  same_versions :
      (conf : SnapshotConfig Snapshot) (versions : SnapVersions)
      → (is_snap_to_update conf versions).0 ≡ false
      → (is_snap_to_update conf versions).1 ≡ versions
  unfolding is_snap_to_update
  same_versions conf versions e = elim (Option-cases (lookup conf.node_id versions)) [
    | inl l ↦ ground arith
    | inr (current, l) ↦ ground arith
  ]

  apply_accepted :
      Accepts
      → (conf : SnapshotConfig Snapshot) (s : ServerState x) (node : Text)
      → ((apply_snapshot x conf s).0 ≡ true)
        × (lookup node (apply_snapshot x conf s).1.snap_versions
            ≡ (if conf.node_id == node then some conf.version else lookup node s.snap_versions))
  unfolding apply_snapshot
  apply_accepted accepts conf s node =
      elim (Bool-cases (is_snap_to_update conf s.snap_versions).0) [
        | inl e ↦
            rw (e, apply_snapshot)
              (
                accepts conf.node_id conf.snapshot s.cache,
                recorded_version conf s.snap_versions node,
              )
        | inr e ↦
            rw (e, apply_snapshot)
              (
                refl,
                ap (lookup node) (sym (same_versions conf s.snap_versions e))
                    ∙ recorded_version conf s.snap_versions node,
              )
      ]

module _ (c : Codec) {Snapshot : Type 0} (x : SnapshotCache Snapshot) where
  -- A snapshot that a pass can take: if its node ID decodes, then to one with names, and it is
  -- consistent.
  abbrev pub IsFine : SnapshotConfig Snapshot → Type 0
  IsFine conf = is_known c conf ≡ true → (is_named c conf ≡ true) × (conf.inconsistent ≡ false)

  process_accepted :
      Accepts x
      → (confs : List (SnapshotConfig Snapshot)) (s : ServerState x) → All IsFine confs
      → ((process_snapshots c x confs s).0 ≡ passed [])
        × ((node : Text)
            → lookup node (process_snapshots c x confs s).1.snap_versions
              ≡ latest c node confs (lookup node s.snap_versions))
  unfolding process_snapshots
  process_accepted accepts [] s a = (refl, λ node. refl)
  process_accepted accepts (conf ∷ confs) s a = elim (Bool-cases (is_known c conf)) [
    | inr k ↦
        let (fine, at) = process_accepted accepts confs s a.1 in
        (ground arith, λ node. ground (arith, at node))
    | inl k ↦
        let (m, i) = a.0 k in
        let done = (apply_snapshot x conf s).1 in
        let (fine, at) = process_accepted accepts confs done a.1 in
        let ok = (apply_accepted x accepts conf s conf.node_id).0 in
        (
          ground arith,
          λ node.
              let (_, now) = apply_accepted x accepts conf s node in
              let later : lookup node (process_snapshots c x (conf ∷ confs) s).1.snap_versions
                  ≡ lookup node (process_snapshots c x confs done).1.snap_versions =
                ground arith in
              let start : lookup node done.snap_versions ≡ (
                  if is_known c conf && conf.node_id == node
                  then some conf.version
                  else lookup node s.snap_versions) =
                ground arith in
              later ∙ at node ∙ ap (latest c node confs) start,
        )
  ]

  -- If the controllers are done and the counter has moved, one tick processes the snapshots to the
  -- end, without a panic: the counter becomes the last processed one, every node has the recorded
  -- version of its last snapshot of the pass, or the one it had if there is none, and every node with a
  -- recorded version is served a snapshot of that version. The snapshots were generated and each has
  -- the version that comes with it, the IDs that decode have a node and a cluster, their snapshots are
  -- consistent, SetSnapshot refuses nothing, and the recorded versions were the served ones before.
  pub tick_catches_up :
      (version_of : Snapshot → Text)
      → Accepts x
      → (counter last : ℕ) (confs : List (SnapshotConfig Snapshot)) (s : ServerState x)
      → (counter == last) ≡ false
      → All IsFine confs
      → All (IsVersioned x version_of) confs
      → Agrees x version_of s
      → (out : ServerState x) × (serve_tick c x true counter (some confs) last s
          ≡ some (counter, out))
        × ((node : Text)
            → lookup node out.snap_versions ≡ latest c node confs (lookup node s.snap_versions))
        × Agrees x version_of out
  unfolding serve_tick process_snapshot
  tick_catches_up version_of accepts counter last confs s ne a v h =
      let (fine, at) = process_accepted accepts confs s a in
      (
        (process_snapshots c x confs s).1,
        rw (ne, fine, serve_tick) refl,
        at,
        process_snapshots-Agrees c x version_of confs s [] v h fine,
      )
