-- ===== src/Examples/Server.antt =====
-- pkg/serv/serv.go with a cache that refuses empty snapshots; a snapshot is its version. At the end,
-- the callbacks with the coding of Examples.Ids.
use xds_controller.Prelude.{
  Bool, true, false, some, Text, Map, lookup, insert, lookup-insert, list_eq, nat_eq, List, [], ◌∷◌,
  codes, is_empty, All, list_beq, none, split, trim_space, trim_left, trim_right, if◌then◌else◌,
  ◌≡◌, ◌≢◌, refl, arith, beq_of_eq, eq_of_beq,
}
use xds_controller.Serv.{
  is_known, is_named, SnapshotConfig, SnapshotCache, ServerState, passed, process_snapshots,
  apply_snapshot, is_snap_to_update, serve_tick,
}
use xds_controller.Serv.Progress.{latest, IsFine, tick_catches_up}
use xds_controller.Serv.Callbacks.{
  EnvoyNode, Callbacks, Stream, on_stream_request, on_stream_response,
}
use xds_controller.Serv.Streams.{response-after_request, nameless_panics}
use xds_controller.Examples.Ids.{
  plain, plain_encode, edge, main_cluster, edge-IsClean, main-IsClean,
}
use xds_controller.Util.{parse_csv, get_node_info}
use xds_controller.Serv.Versions.{Agrees, process_snapshots-Agrees, apply_again}

abbrev set_text : Text → Text → Map Text Text → Bool × Map Text Text
set_text n s c = if is_empty s then (false, c) else (true, insert n s c)

pub text_get-set :
    (n s : Text) (c : Map Text Text)
    → (set_text n s c).0 ≡ true
    → lookup n (set_text n s c).1 ≡ some s
text_get-set n s c h = ground (arith, lookup-insert n n s c, beq_of_eq n n refl)

pub text_get-set_other :
    (n m s : Text) (c : Map Text Text) → m ≢ n → lookup m (set_text n s c).1 ≡ lookup m c
text_get-set_other n m s c ne = ground (arith, lookup-insert n m s c, eq_of_beq n m, ne)

abbrev texts : SnapshotCache Text
texts = record {
  Cache = Map Text Text;
  get_snapshot = λ n c. lookup n c;
  set_snapshot = λ n s c. set_text n s c;
  get-set = λ n s c h. text_get-set n s c h;
  get-set_other = λ n m s c h. text_get-set_other n m s c h;
}

abbrev conf : Text → Text → Bool → SnapshotConfig Text
conf n v inconsistent = record {
  node_id = n;
  version = v;
  snapshot = v;
  inconsistent = inconsistent;
}

abbrev node_a : Text
node_a = plain_encode (record { nodes = codes "a" ∷ []; clusters = main_cluster ∷ [] })

abbrev node_b : Text
node_b = plain_encode (record { nodes = codes "b" ∷ []; clusters = main_cluster ∷ [] })

abbrev idle : ServerState texts
idle = record { snap_versions = []; cache = []; snapshot_generated = false }

abbrev confs : List (SnapshotConfig Text)
confs = conf node_a (codes "v1") false ∷ conf node_b (codes "v1") true ∷ []

idle-Agrees : Agrees texts (λ s. s) idle
unfolding lookup
idle-Agrees n v h = cc

passes : (process_snapshots plain texts confs idle).0 ≡ passed (node_b ∷ [])
unfolding process_snapshots apply_snapshot is_snap_to_update lookup insert is_known is_named
    get_node_info list_beq
passes = refl

process_snapshots-Agrees_example :
    Agrees texts (λ s. s) (process_snapshots plain texts confs idle).1
process_snapshots-Agrees_example =
    process_snapshots-Agrees plain texts (λ s. s) confs idle (node_b ∷ []) (refl, (refl, tt))
      idle-Agrees passes

apply_again_example :
    let t = (apply_snapshot texts (conf node_a [] false) idle).1 in
    ((apply_snapshot texts (conf node_a [] false) t).0 ≡ true)
    × ((apply_snapshot texts (conf node_a [] false) t).1.cache ≡ t.cache)
    × ((apply_snapshot texts (conf node_a [] false) t).1.snapshot_generated ≡ true)
apply_again_example = apply_again texts (conf node_a [] false) idle

pub map_get-set : (n s : Text) (c : Map Text Text) → lookup n (insert n s c) ≡ some s
map_get-set n s c = ground (arith, lookup-insert n n s c, beq_of_eq n n refl)

pub map_get-set_other :
    (n m s : Text) (c : Map Text Text) → m ≢ n → lookup m (insert n s c) ≡ lookup m c
map_get-set_other n m s c ne = ground (arith, lookup-insert n m s c, eq_of_beq n m, ne)

-- a cache that refuses nothing
abbrev open_cache : SnapshotCache Text
open_cache = record {
  Cache = Map Text Text;
  get_snapshot = λ n c. lookup n c;
  set_snapshot = λ n s c. (true, insert n s c);
  get-set = λ n s c h. map_get-set n s c;
  get-set_other = λ n m s c h. map_get-set_other n m s c h;
}

abbrev fresh : ServerState open_cache
fresh = record { snap_versions = []; cache = []; snapshot_generated = false }

abbrev two_nodes : List (SnapshotConfig Text)
two_nodes = conf node_a (codes "v1") false ∷ conf node_b (codes "v2") false ∷ []

fresh-Agrees : Agrees open_cache (λ s. s) fresh
unfolding lookup
fresh-Agrees n v h = cc

two_nodes-IsFine : All (IsFine plain open_cache) two_nodes
unfolding is_known is_named get_node_info
two_nodes-IsFine = (λ k. (refl, refl), (λ k. (refl, refl), tt))

tick_catches_up_example :
    (out : ServerState open_cache) × (serve_tick plain open_cache true 5 (some two_nodes) 3 fresh
      ≡ some (5, out))
    × ((node : Text) → lookup node out.snap_versions ≡ latest plain node two_nodes (lookup node []))
    × Agrees open_cache (λ s. s) out
tick_catches_up_example =
    tick_catches_up plain open_cache (λ s. s) (λ n p c. refl) 5 3 two_nodes fresh refl
      two_nodes-IsFine (refl, (refl, tt)) fresh-Agrees

abbrev listening : Callbacks
listening = record {
  has_signal = true;
  closes = 0;
  fetches = 0;
  requests = 0;
  delta_requests = 0;
  delta_responses = 0;
  streams = [];
  snapshots = record { node = edge; cluster = main_cluster; version = codes "v2" } ∷ [];
}

abbrev envoy : EnvoyNode
envoy = record { id = edge; cluster = main_cluster; version = codes "1.30" }

response-after_request_example :
    let asked = on_stream_request plain envoy listening in
    (s' : Callbacks) × (on_stream_response plain 7 asked.0 (codes "v1") asked.1 ≡ some (envoy, s'))
    × (t : Stream) × (lookup 7 s'.streams ≡ some t)
    × (t.node ≡ edge)
    × (t.cluster ≡ main_cluster)
    × (t.client_version ≡ codes "v1")
response-after_request_example =
    response-after_request plain 7 envoy (codes "v1") listening edge-IsClean main-IsClean

abbrev nameless : EnvoyNode
nameless = record { id = []; cluster = main_cluster; version = codes "1.30" }

nameless_panics_example :
    let asked = on_stream_request plain nameless listening in
    on_stream_response plain 7 asked.0 (codes "v1") asked.1 ≡ none
unfolding parse_csv split trim_space trim_left trim_right
nameless_panics_example = nameless_panics plain 7 nameless (codes "v1") listening refl
