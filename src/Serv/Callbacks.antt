-- ===== src/Serv/Callbacks.antt =====
-- pkg/serv/callbacks.go with the streams of pkg/xds/xdsMetrics.go: what the server does when Envoy
-- opens a stream, requests, and is answered. A request and its response share the node of the
-- request. Gauges and log lines are left out; the version of Envoy is a text.
use xds_controller.Prelude.{
  ℕ, suc, Bool, false, ◌&&◌, if◌then◌else◌, Option, none, some, Text, Map, insert, delete, ◌==◌,
  nat_eq, list_eq, List, [], ◌∷◌,
}
use xds_controller.Util.{Codec, get_node_id, get_node_info, pair}

pub record Stream : Type 0 where
  pub node : Text
  pub cluster : Text
  pub envoy_version : Text
  pub client_version : Text
  pub server_version : Text

-- CurrentServerSnapshot
pub record ServerSnapshot : Type 0 where
  pub node : Text
  pub cluster : Text
  pub version : Text

-- Callbacks, with how often its signal has been closed, and the package's Streams and Snapshots
pub record Callbacks : Type 0 where
  pub has_signal : Bool
  pub closes : ℕ
  pub fetches : ℕ
  pub requests : ℕ
  pub delta_requests : ℕ
  pub delta_responses : ℕ
  pub streams : Map ℕ Stream
  pub snapshots : List ServerSnapshot

-- the node of a request
pub record EnvoyNode : Type 0 where
  pub id : Text
  pub cluster : Text
  pub version : Text

abbrev pub is_of : Text → Text → Stream → Bool
is_of node cluster s = s.node == node && s.cluster == cluster

-- the loop of the next two over the streams
unfoldable pub map_streams : (Stream → Stream) → Map ℕ Stream → Map ℕ Stream
map_streams f [] = []
map_streams f ((i, s) ∷ rest) = (i, f s) ∷ map_streams f rest

abbrev pub with_client : Text → Text → Text → Stream → Stream
with_client node cluster version s =
    if is_of node cluster s then record s { client_version = version } else s

abbrev pub with_server : ServerSnapshot → Stream → Stream
with_server new s =
    if is_of new.node new.cluster s then record s { server_version = new.version } else s

-- SetSnapshotClientVersion
unfoldable pub set_client_version : Text → Text → Text → Map ℕ Stream → Map ℕ Stream
set_client_version node cluster version = map_streams (with_client node cluster version)

-- SetSnapshotServerVersion, for all snapshots
unfoldable pub set_server_versions : List ServerSnapshot → Map ℕ Stream → Map ℕ Stream
set_server_versions [] streams = streams
set_server_versions (s ∷ ss) streams = set_server_versions ss (map_streams (with_server s) streams)

-- AddSnapshot
unfoldable pub add_snapshot : ServerSnapshot → List ServerSnapshot → List ServerSnapshot
add_snapshot new [] = new ∷ []
add_snapshot new (s ∷ ss) =
    if s.node == new.node && s.cluster == new.cluster
    then record s { version = new.version } ∷ ss
    else s ∷ add_snapshot new ss

-- OnStreamOpen
unfoldable pub on_stream_open : ℕ → Callbacks → Callbacks
on_stream_open i s = record s {
  streams =
      insert i
        (record {
          node = [];
          cluster = [];
          envoy_version = [];
          client_version = [];
          server_version = [];
        })
        s.streams;
}

-- OnStreamClosed
unfoldable pub on_stream_closed : ℕ → Callbacks → Callbacks
on_stream_closed i s = record s { streams = delete i s.streams }

-- close(cb.Signal), once
abbrev pub signalled : Callbacks → Callbacks
signalled s = if s.has_signal then record s { has_signal = false; closes = suc s.closes } else s

-- OnFetchRequest
unfoldable pub on_fetch_request : Callbacks → Callbacks
on_fetch_request s = signalled (record s { fetches = suc s.fetches })

-- OnStreamDeltaResponse
unfoldable pub on_stream_delta_response : Callbacks → Callbacks
on_stream_delta_response s = record s { delta_responses = suc s.delta_responses }

-- the streams after a response to a node of a cluster
abbrev pub answered :
    ℕ → Text → Text → Text → Text → List ServerSnapshot → Map ℕ Stream → Map ℕ Stream
answered i node cluster envoy version snapshots streams = set_client_version node cluster version (
    set_server_versions snapshots (
      insert i
        (record {
          node = node;
          cluster = cluster;
          envoy_version = envoy;
          client_version = [];
          server_version = [];
        })
        streams))

module _ (c : Codec) where
  -- the node that a request goes on with
  abbrev pub addressed : EnvoyNode → EnvoyNode
  addressed n = record n { id = get_node_id c (pair n.cluster n.id) }

  -- OnStreamRequest
  unfoldable pub on_stream_request : EnvoyNode → Callbacks → EnvoyNode × Callbacks
  on_stream_request n s = (addressed n, signalled (record s { requests = suc s.requests }))

  -- OnStreamDeltaRequest
  unfoldable pub on_stream_delta_request : EnvoyNode → Callbacks → EnvoyNode × Callbacks
  on_stream_delta_request n s =
      (addressed n, signalled (record s { delta_requests = suc s.delta_requests }))

  -- OnStreamResponse; `none` is a panic, of an index out of range
  unfoldable pub on_stream_response :
      ℕ → EnvoyNode → Text → Callbacks → Option (EnvoyNode × Callbacks)
  on_stream_response i n version s = elim (get_node_info c n.id) [
    | none ↦ some (n, s)
    | some info ↦ elim info.nodes [
      | [] ↦ none
      | node ∷ nodes ↦ elim info.clusters [
        | [] ↦ none
        | cluster ∷ clusters ↦ some (
          record n { id = node },
          record s { streams = answered i node cluster n.version version s.snapshots s.streams },
        )
      ]
    ]
  ]
