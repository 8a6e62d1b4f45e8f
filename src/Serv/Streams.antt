-- ===== src/Serv/Streams.antt =====
-- pkg/serv/callbacks.go: what a request and its response do to the node and its stream.
use xds_controller.Prelude.{
  ℕ, true, ◌||◌, Option, none, some, Text, Map, lookup, insert, lookup-insert, nat_eq, list_eq,
  List, [], ◌∷◌, is_empty, sort_strings, sort_insert, ◌≡◌, refl, arith, beq_of_eq, ◌∙◌,
}
use xds_controller.Util.{Codec, get_node_id, get_node_info, parse_csv, pair}
use xds_controller.Util.Csv.{IsClean}
use xds_controller.Util.Ids.{decode_pair, get_node_id-pair}
use xds_controller.Serv.Callbacks.{
  Stream, ServerSnapshot, Callbacks, EnvoyNode, map_streams, with_client, with_server,
  set_client_version, set_server_versions, answered, on_stream_request, on_stream_response,
}

-- a stream of the node and the cluster is at the number
abbrev IsAt : ℕ → Text → Text → Map ℕ Stream → Type 0
IsAt i node cluster streams =
    (s : Stream) × (lookup i streams ≡ some s) × (s.node ≡ node) × (s.cluster ≡ cluster)

lookup-map :
    (i : ℕ) (f : Stream → Stream) (streams : Map ℕ Stream) {s : Stream}
    → lookup i streams ≡ some s
    → lookup i (map_streams f streams) ≡ some (f s)
unfolding lookup map_streams
lookup-map i f [] {s} h = cc
lookup-map i f ((j, t) ∷ rest) {s} h = ground (arith, lookup-map i f rest {s = s})

server-IsAt :
    (i : ℕ) (node cluster : Text) (ss : List ServerSnapshot) (streams : Map ℕ Stream)
    → IsAt i node cluster streams
    → IsAt i node cluster (set_server_versions ss streams)
unfolding set_server_versions
server-IsAt i node cluster [] streams at = at
server-IsAt i node cluster (new ∷ ss) streams (s, is, n, k) =
    server-IsAt i node cluster ss (map_streams (with_server new) streams)
      (with_server new s, lookup-map i (with_server new) streams is, ground arith, ground arith)

-- A node with a clean name, of a cluster with a clean name, requests and is answered: the callbacks do
-- not panic, the node has its own name again, and its stream is recorded under its name and its
-- cluster, with the version that it was sent.
pub response-after_request :
    (c : Codec) (i : ℕ) (n : EnvoyNode) (version : Text) (s : Callbacks)
    → IsClean n.id
    → IsClean n.cluster
    → let asked = on_stream_request c n s in
      (s' : Callbacks) × (on_stream_response c i asked.0 version asked.1 ≡ some (n, s'))
      × (t : Stream) × (lookup i s'.streams ≡ some t)
      × (t.node ≡ n.id)
      × (t.cluster ≡ n.cluster)
      × (t.client_version ≡ version)
unfolding on_stream_response on_stream_request get_node_info set_client_version map_streams
response-after_request c i n version s id cluster =
    let asked = on_stream_request c n s in
    let info = decode_pair c n.id n.cluster id cluster in
    let blank : Stream = record {
      node = n.id;
      cluster = n.cluster;
      envoy_version = n.version;
      client_version = [];
      server_version = [];
    } in
    let start = insert i blank asked.1.streams in
    let first : lookup i start ≡ some blank =
      lookup-insert i i blank asked.1.streams ∙ rw (beq_of_eq i i refl) refl in
    let (t, at, node, of_cluster) =
      server-IsAt i n.id n.cluster asked.1.snapshots start (blank, first, refl, refl) in
    let last = with_client n.id n.cluster version t in
    (
      record asked.1 {
        streams = answered i n.id n.cluster n.version version asked.1.snapshots asked.1.streams;
      },
      rw (info, on_stream_response) refl,
      last,
      lookup-map i (with_client n.id n.cluster version)
          (set_server_versions asked.1.snapshots start) at,
      ground arith,
      ground arith,
      ground (arith, beq_of_eq t.node n.id, beq_of_eq t.cluster n.cluster),
    )

unnamed :
    {A : Type 0} (f : Text → Text → A) (ids clusters : List Text)
    → (is_empty ids || is_empty clusters) ≡ true
    → (elim (sort_strings ids) [
      | [] ↦ none
      | node ∷ nodes ↦ elim (sort_strings clusters) [
        | [] ↦ none
        | cluster ∷ rest ↦ some (f node cluster)
      ]
    ])
      ≡ none
unfolding sort_strings
unnamed f [] clusters h = refl
unnamed {A} f (n ∷ ids) [] h =
    elim (sort_insert n (sort_strings ids))
      as (λ l. ◌≡◌ {A = Option A} (elim l [ [] ↦ none | node ∷ nodes ↦ none ]) none) [
        | [] ↦ refl
        | node ∷ nodes ↦ refl
      ]
unnamed f (n ∷ ids) (k ∷ clusters) h = absurd (ground arith)

-- A node whose name or whose cluster has no name in it, such as the empty text: the response to its
-- request panics.
pub nameless_panics :
    (c : Codec) (i : ℕ) (n : EnvoyNode) (version : Text) (s : Callbacks)
    → (is_empty (parse_csv n.id) || is_empty (parse_csv n.cluster)) ≡ true
    → let asked = on_stream_request c n s in on_stream_response c i asked.0 version asked.1 ≡ none
unfolding on_stream_response on_stream_request get_node_info
nameless_panics c i n version s nameless =
    let info = c.decode-encode (record {
      nodes = sort_strings (parse_csv n.id);
      clusters = sort_strings (parse_csv n.cluster);
    }) in
    let decodes : c.decode (get_node_id c (pair n.cluster n.id))
        ≡ some (record {
          nodes = sort_strings (parse_csv n.id);
          clusters = sort_strings (parse_csv n.cluster);
        }) =
      rw (get_node_id-pair c n.id n.cluster) info in
    rw (decodes, on_stream_response) (unnamed _ (parse_csv n.id) (parse_csv n.cluster) nameless)
