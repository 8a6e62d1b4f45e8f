-- ===== src/Serv.antt =====
-- pkg/serv/serv.go: how the server pushes snapshots to the cache from which Envoy is served. The
-- cache is the control plane library's: it is an interface of what the server relies on. Metrics and
-- log lines are left out.
pub mod Versions
pub mod Progress
pub mod Callbacks
pub mod Streams
use xds_controller.Prelude.{
  ℕ, Bool, true, false, not, ◌&&◌, ◌||◌, if◌then◌else◌, Option, none, some, Text, Map, lookup,
  insert, ◌==◌, nat_eq, list_eq, List, [], ◌∷◌, is_empty, ◌≡◌, ◌≢◌,
}
use xds_controller.Util.{Codec, get_node_info}

-- xds.SnapshotConfig; `inconsistent` tells whether Snapshot.Consistent found an error
pub record SnapshotConfig (Snapshot : Type 0) : Type 0 where
  pub node_id : Text
  pub version : Text
  pub snapshot : Snapshot
  pub inconsistent : Bool

-- The snapshot cache: SetSnapshot answers whether it succeeded. A success stores the snapshot for the
-- node; no call touches another node.
pub record SnapshotCache (Snapshot : Type 0) : Type 1 where
  pub Cache : Type 0
  pub get_snapshot : Text → Cache → Option Snapshot
  pub set_snapshot : Text → Snapshot → Cache → Bool × Cache
  pub get-set :
      (n : Text) (s : Snapshot) (c : Cache)
      → (set_snapshot n s c).0 ≡ true
      → get_snapshot n (set_snapshot n s c).1 ≡ some s
  pub get-set_other :
      (n m : Text) (s : Snapshot) (c : Cache)
      → m ≢ n
      → get_snapshot m (set_snapshot n s c).1 ≡ get_snapshot m c

abbrev pub SnapVersions : Type 0
SnapVersions = Map Text Text

module _ {Snapshot : Type 0} (x : SnapshotCache Snapshot) where
  -- what processSnapshot changes: the package's snapVersions, the cache, and the status flag
  pub record ServerState : Type 0 where
    pub snap_versions : SnapVersions
    pub cache : x.Cache
    pub snapshot_generated : Bool

-- isSnapToUpdate
unfoldable pub is_snap_to_update :
    {Snapshot : Type 0} → SnapshotConfig Snapshot → SnapVersions → Bool × SnapVersions
is_snap_to_update snap versions =
    let changed : Bool × SnapVersions = (true, insert snap.node_id snap.version versions) in
    elim (lookup snap.node_id versions) [
      | none ↦ changed
      | some current ↦ if not (current == snap.version) then changed else (false, versions)
    ]

-- how a pass ends: with the nodes that were inconsistent, with the node whose snapshot was refused, or
-- with a panic
pub data Outcome : Type 0 where
  passed : List Text → Outcome
  refused : Text → Outcome
  panicked : Outcome

abbrev pub with_inconsistent : Text → Outcome → Outcome
with_inconsistent node (passed ns) = passed (node ∷ ns)
with_inconsistent node (refused n) = refused n
with_inconsistent node panicked = panicked

-- whether a pass returns no error, and what it leaves; errors.Join of no error is nil
abbrev pub returned {ℓ} : {S : Type ℓ} → Outcome → S → Option (Bool × S)
returned (passed ns) s = some (is_empty ns, s)
returned (refused n) s = some (false, s)
returned panicked s = none

module _ {Snapshot : Type 0} (x : SnapshotCache Snapshot) where
  -- the update of one consistent snapshot; `false` is a failure of SetSnapshot
  unfoldable pub apply_snapshot : SnapshotConfig Snapshot → ServerState x → Bool × ServerState x
  unfolding is_snap_to_update
  apply_snapshot conf s =
      let check = is_snap_to_update conf s.snap_versions in
      if check.0
      then (let set = x.set_snapshot conf.node_id conf.snapshot s.cache in
          (
            set.0,
            record {
              snap_versions = check.1;
              cache = set.1;
              snapshot_generated = s.snapshot_generated || set.0;
            },
          ))
      else (true, record s { snapshot_generated = true })

module _ (c : Codec) where
  -- the node ID decodes
  unfoldable pub is_known : {Snapshot : Type 0} → SnapshotConfig Snapshot → Bool
  is_known conf = elim (get_node_info c conf.node_id) [ none ↦ false | some info ↦ true ]

  -- Clusters[0] and Nodes[0] are there
  unfoldable pub is_named : {Snapshot : Type 0} → SnapshotConfig Snapshot → Bool
  is_named conf = elim (get_node_info c conf.node_id) [
    | none ↦ false
    | some info ↦ not (is_empty info.clusters) && not (is_empty info.nodes)
  ]

module _ (c : Codec) {Snapshot : Type 0} (x : SnapshotCache Snapshot) where
  -- The loop of processSnapshot over the snapshots of all nodes. Each branch takes the first cluster and
  -- the first node of the ID.
  unfoldable pub process_snapshots :
      List (SnapshotConfig Snapshot) → ServerState x → Outcome × ServerState x
  unfolding is_known is_named
  process_snapshots [] s = (passed [], s)
  process_snapshots (conf ∷ confs) s =
      let skip = process_snapshots confs s in
      let done = apply_snapshot x conf s in
      let rest = process_snapshots confs done.1 in
      if not (is_known c conf)
      then skip
      else if not (is_named c conf)
      then (panicked, s)
      else if conf.inconsistent
      then (with_inconsistent conf.node_id skip.0, skip.1)
      else if done.0
      then rest
      else (refused conf.node_id, done.1)

  -- processSnapshot: the argument is `none` on a failure to generate the snapshots, the result on a
  -- panic
  unfoldable pub process_snapshot :
      Option (List (SnapshotConfig Snapshot)) → ServerState x → Option (Bool × ServerState x)
  unfolding process_snapshots
  process_snapshot none s = some (false, s)
  process_snapshot (some confs) s = let (out, t) = process_snapshots confs s in returned out t

  -- one firing of the ticker of Start: what AllReconciled, GetConfigCounter and GenerateSnapshotsV2
  -- answer, and the last processed counter; `none` is a panic
  unfoldable pub serve_tick :
      Bool
      → ℕ
      → Option (List (SnapshotConfig Snapshot))
      → ℕ
      → ServerState x
      → Option (ℕ × ServerState x)
  unfolding process_snapshot
  serve_tick all_reconciled counter generated last s =
      if not all_reconciled
      then some (last, s)
      else if counter == last
      then some (last, s)
      else elim (process_snapshot generated s) [
        | none ↦ none
        | some (fine, t) ↦ some (if fine then (counter, t) else (last, t))
      ]
