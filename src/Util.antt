-- ===== src/Util.antt =====
-- controllers/util/util.go: the names of Envoy nodes in annotations, the node IDs made of them, and
-- the age order of routes. A node ID is the base64 text of the JSON of a NodeInfo; the coding is an
-- interface whose one law is that it can be undone.
pub mod Csv
pub mod Ids
pub mod Age
use xds_controller.Prelude.{
  ℕ, Bool, true, false, not, ◌&&◌, ◌||◌, if◌then◌else◌, Option, none, some, Text, Map, lookup,
  insert, ◌==◌, list_eq, nat_eq, ◌≡◌, List, [], ◌∷◌, ◌++◌, map, any, keep, is_empty, codes, split,
  trim_space, text_lt, sort_strings, ltb, contains,
}

pub record NodeInfo : Type 0 where
  pub nodes : List Text
  pub clusters : List Text

-- base64.StdEncoding over encoding/json, both ways; `none` is a text that does not decode
pub record Codec : Type 0 where
  pub encode : NodeInfo → Text
  pub decode : Text → Option NodeInfo
  pub decode-encode : (n : NodeInfo) → decode (encode n) ≡ some n

abbrev pub empty_info : NodeInfo
empty_info = record { nodes = []; clusters = [] }

abbrev pub trim_all : List Text → List Text
trim_all [] = []
trim_all (p ∷ ps) = trim_space p ∷ trim_all ps

abbrev pub nonempty : Text → Bool
nonempty p = not (is_empty p)

-- ParseCSV
unfoldable pub parse_csv : Text → List Text
parse_csv s = keep nonempty (trim_all (split b',' s))

-- a missing annotation reads as the empty text
abbrev pub annotation : Map Text Text → Text → Text
annotation an key = elim (lookup key an) [ none ↦ [] | some v ↦ v ]

abbrev pub nodes_key : Text
nodes_key = codes "nodes"

abbrev pub clusters_key : Text
clusters_key = codes "clusters"

-- m[k] = v where m[k] is empty
abbrev pub set_default : Text → Text → Map Text Text → Map Text Text
set_default key default an = if is_empty (annotation an key) then insert key default an else an

-- the default nodes and clusters, which the controllers set in annotations that lack them
unfoldable pub with_defaults : Text → Text → Map Text Text → Map Text Text
with_defaults node cluster an = set_default clusters_key cluster (set_default nodes_key node an)

-- the pair of names that NodeIDs and targetNodes put into a map for GetNodeID
abbrev pub pair : Text → Text → Map Text Text
pair cluster node = (clusters_key, cluster) ∷ (nodes_key, node) ∷ []

-- `ParseCSV(annotations[key])`, or the default's names if there are none
unfoldable pub names_or : Map Text Text → Text → Text → List Text
names_or an key default =
    let names = parse_csv (annotation an key) in if is_empty names then parse_csv default else names

unfoldable pub pair_matches : List Text → List Text → Bool
pair_matches xs ys = any (contains ys) xs

module _ (c : Codec) where
  -- GetNodeID
  unfoldable pub get_node_id : Map Text Text → Text
  get_node_id an = c.encode (record {
    nodes = sort_strings (parse_csv (annotation an nodes_key));
    clusters = sort_strings (parse_csv (annotation an clusters_key));
  })

  -- GetNodeInfo
  unfoldable pub get_node_info : Text → Option NodeInfo
  get_node_info id = c.decode id

  -- FindNodeAndCluster: the loops stop at the first match
  unfoldable pub find_node_and_cluster : NodeInfo → Text → Bool
  find_node_and_cluster n id = elim (c.decode id) [
    | none ↦ false
    | some other ↦ pair_matches n.nodes other.nodes && pair_matches n.clusters other.clusters
  ]

  unfoldable pub ids_of_cluster : List Text → Text → List Text
  unfolding get_node_id
  ids_of_cluster [] cluster = []
  ids_of_cluster (node ∷ ns) cluster = get_node_id (pair cluster node) ∷ ids_of_cluster ns cluster

  unfoldable pub ids_of : List Text → List Text → List Text
  unfolding ids_of_cluster
  ids_of [] ns = []
  ids_of (cluster ∷ cs) ns = ids_of_cluster ns cluster ++ ids_of cs ns

  -- NodeIDs
  unfoldable pub node_ids : Map Text Text → Text → Text → List Text
  unfolding ids_of names_or
  node_ids an default_node default_cluster =
      ids_of (sort_strings (names_or an clusters_key default_cluster))
        (sort_strings (names_or an nodes_key default_node))

-- A route's name and creation time, by which routes take precedence.
pub record RouteAge : Type 0 where
  pub name : Text
  pub created : ℕ

-- OlderRoute
unfoldable pub older_route : RouteAge → RouteAge → Bool
older_route a b =
    if not (a.created == b.created) then ltb a.created b.created else text_lt a.name b.name
