-- ===== src/Examples/Ids.antt =====
-- controllers/util/util.go at concrete annotations. The coding of node IDs is a simple one: a number
-- before each name, its characters moved up by two, and a zero between nodes and clusters.
use xds_controller.Prelude.{
  ℕ, zero, suc, Option, some, Text, Map, lookup, list_eq, nat_eq, List, [], ◌∷◌, ◌++◌, codes, ◌≡◌,
  refl, arith, Memᴰ, split, trim_space, trim_left, trim_right, is_space, list_beq,
}
use mathlib.Core.List.{append-nil}
use xds_controller.Util.{
  NodeInfo, Codec, get_node_info, names_or, clusters_key, nodes_key, node_ids, parse_csv, RouteAge,
}
use xds_controller.Util.Csv.{IsClean}
use xds_controller.Util.Ids.{single, node_ids_sound, node_ids_complete}

record Parse : Type 0 where
  cur : Text
  texts : List Text
  after : List Text

abbrev token : ℕ → Parse → Parse
token zero p = record { cur = p.cur; texts = []; after = p.texts }
token (suc zero) p = record { cur = []; texts = p.cur ∷ p.texts; after = p.after }
token (suc (suc c)) p = record { cur = c ∷ p.cur; texts = p.texts; after = p.after }

abbrev parse : Text → Parse
parse [] = record { cur = []; texts = []; after = [] }
parse (c ∷ s) = token c (parse s)

abbrev write_text : Text → Text → Text
write_text [] k = k
write_text (c ∷ t) k = suc (suc c) ∷ write_text t k

abbrev write_texts : List Text → Text → Text
write_texts [] k = k
write_texts (t ∷ ts) k = 1 ∷ write_text t (write_texts ts k)

parse_text :
    (t k : Text)
    → parse (write_text t k)
      ≡ record { cur = t ++ (parse k).cur; texts = (parse k).texts; after = (parse k).after }
parse_text [] k = refl
parse_text (c ∷ t) k = rw (parse_text t k) refl

parse_texts :
    (ts : List Text) (k : Text)
    → (parse k).cur ≡ []
    → ((parse (write_texts ts k)).cur ≡ [])
      × ((parse (write_texts ts k)).texts ≡ ts ++ (parse k).texts)
      × ((parse (write_texts ts k)).after ≡ (parse k).after)
parse_texts [] k h = (h, refl, refl)
parse_texts (t ∷ ts) k h =
    let (a, b, c) = parse_texts ts k h in
    rw (parse_text t (write_texts ts k), a, b, c, append-nil t) (refl, refl, refl)

abbrev pub plain_encode : NodeInfo → Text
plain_encode n = write_texts n.nodes (0 ∷ write_texts n.clusters [])

abbrev pub plain_decode : Text → Option NodeInfo
plain_decode s = some (record { nodes = (parse s).texts; clusters = (parse s).after })

pub plain_decode-encode : (n : NodeInfo) → plain_decode (plain_encode n) ≡ some n
plain_decode-encode n =
    let (a, b, c) = parse_texts n.clusters [] refl in
    let (d, e, f) = parse_texts n.nodes (0 ∷ write_texts n.clusters []) a in
    rw (e, f, b, append-nil n.nodes, append-nil n.clusters) refl

abbrev pub plain : Codec
plain = record { encode = plain_encode; decode = plain_decode; decode-encode = plain_decode-encode }

abbrev pub edge : Text
edge = codes "edge"

abbrev pub main_cluster : Text
main_cluster = codes "main"

abbrev annotations : Map Text Text
annotations = (codes "nodes", codes " edge, core") ∷ []

pub edge-IsClean : IsClean edge
unfolding trim_space trim_left trim_right is_space
edge-IsClean = record {
  nonempty = refl;
  no_comma = (
    λ h. omega (arith, h),
    (λ h. omega (arith, h), (λ h. omega (arith, h), (λ h. omega (arith, h), tt))),
  );
  trimmed = refl;
}

pub main-IsClean : IsClean main_cluster
unfolding trim_space trim_left trim_right is_space
main-IsClean = record {
  nonempty = refl;
  no_comma = (
    λ h. omega (arith, h),
    (λ h. omega (arith, h), (λ h. omega (arith, h), (λ h. omega (arith, h), tt))),
  );
  trimmed = refl;
}

names_found : names_or annotations nodes_key edge ≡ edge ∷ codes "core" ∷ []
unfolding names_or parse_csv lookup list_beq split trim_space trim_left trim_right is_space
names_found = refl

clusters_found : names_or annotations clusters_key main_cluster ≡ main_cluster ∷ []
unfolding names_or parse_csv lookup list_beq split trim_space trim_left trim_right is_space
clusters_found = refl

abbrev some_id :
    (id : Text) × Memᴰ id (node_ids plain annotations edge main_cluster)
    × (get_node_info plain id ≡ some (single edge main_cluster))
some_id =
    node_ids_complete plain annotations edge main_cluster main_cluster edge
      (rw clusters_found (Memᴰ.head refl)) (rw names_found (Memᴰ.head refl))

node_ids_sound_example :
    (cluster : Text) × (node : Text) × Memᴰ cluster (names_or annotations clusters_key main_cluster)
    × Memᴰ node (names_or annotations nodes_key edge)
    × IsClean cluster
    × IsClean node
    × (get_node_info plain some_id.0 ≡ some (single node cluster))
node_ids_sound_example = node_ids_sound plain annotations edge main_cluster some_id.0 some_id.1

abbrev route_a : RouteAge
route_a = record { name = codes "a"; created = 10 }

abbrev route_b : RouteAge
route_b = record { name = codes "b"; created = 10 }
