-- ===== src/Util/Ids.antt =====
-- controllers/util/util.go: the IDs of NodeIDs, and FindNodeAndCluster.
use xds_controller.Prelude.{
  Bool, true, false, if◌then◌else◌, some, Text, Map, list_eq, nat_eq, ◌≡◌, ◌↔◌, refl, arith, List,
  [], ◌∷◌, All, Memᴰ, any-contains_iff, list_beq, is_empty, mem-append_left, mem-append_right,
  mem-append_cases, inl, inr, ap, ◌∙◌, sort_insert, sort_strings, text_lt, Bool-cases, Option-cases,
  lookup,
}
use xds_controller.Util.{
  Codec, NodeInfo, parse_csv, names_or, nodes_key, clusters_key, annotation, pair, get_node_id,
  get_node_info, find_node_and_cluster, pair_matches, ids_of_cluster, ids_of, node_ids,
}
use xds_controller.Util.Csv.{IsClean, parse_csv-IsClean, parse_csv_one}

under {ℓ} : {A : Type ℓ} {a : A} (t u : A) (us : List A) → Memᴰ a (t ∷ us) → Memᴰ a (t ∷ u ∷ us)
under t u us (Memᴰ.head p) = Memᴰ.head p
under t u us (Memᴰ.tail m) = Memᴰ.tail (Memᴰ.tail m)

mem_of-sort_insert : (a t : Text) (ts : List Text) → Memᴰ a (sort_insert t ts) → Memᴰ a (t ∷ ts)
unfolding sort_insert
mem_of-sort_insert a t [] m = m
mem_of-sort_insert a t (u ∷ us) m = go (text_lt u t) (mem_of-sort_insert a t us) m
  where
    go :
        (b : Bool)
        → (Memᴰ a (sort_insert t us) → Memᴰ a (t ∷ us))
        → Memᴰ a (if b then u ∷ sort_insert t us else t ∷ u ∷ us)
        → Memᴰ a (t ∷ u ∷ us)
    go true ih (Memᴰ.head p) = Memᴰ.tail (Memᴰ.head p)
    go true ih (Memᴰ.tail n) = under t u us (ih n)
    go false ih n = n

sort_insert-of_mem : (a t : Text) (ts : List Text) → Memᴰ a (t ∷ ts) → Memᴰ a (sort_insert t ts)
unfolding sort_insert
sort_insert-of_mem a t [] m = m
sort_insert-of_mem a t (u ∷ us) m =
    go (text_lt u t) m (λ p. sort_insert-of_mem a t us (Memᴰ.head p))
      (λ n. sort_insert-of_mem a t us (Memᴰ.tail n))
  where
    go :
        (b : Bool)
        → Memᴰ a (t ∷ u ∷ us)
        → (a ≡ t → Memᴰ a (sort_insert t us))
        → (Memᴰ a us → Memᴰ a (sort_insert t us))
        → Memᴰ a (if b then u ∷ sort_insert t us else t ∷ u ∷ us)
    go true (Memᴰ.head p) f g = Memᴰ.tail (f p)
    go true (Memᴰ.tail (Memᴰ.head p)) f g = Memᴰ.head p
    go true (Memᴰ.tail (Memᴰ.tail n)) f g = Memᴰ.tail (g n)
    go false n f g = n

mem_of-sort : (a : Text) (ts : List Text) → Memᴰ a (sort_strings ts) → Memᴰ a ts
unfolding sort_strings
mem_of-sort a [] m = m
mem_of-sort a (t ∷ ts) m = go (mem_of-sort_insert a t (sort_strings ts) m) (mem_of-sort a ts)
  where
    go : Memᴰ a (t ∷ sort_strings ts) → (Memᴰ a (sort_strings ts) → Memᴰ a ts) → Memᴰ a (t ∷ ts)
    go (Memᴰ.head p) ih = Memᴰ.head p
    go (Memᴰ.tail n) ih = Memᴰ.tail (ih n)

sort-of_mem : (a : Text) (ts : List Text) → Memᴰ a ts → Memᴰ a (sort_strings ts)
unfolding sort_strings
sort-of_mem a [] m = m
sort-of_mem a (t ∷ ts) (Memᴰ.head p) = sort_insert-of_mem a t (sort_strings ts) (Memᴰ.head p)
sort-of_mem a (t ∷ ts) (Memᴰ.tail m) =
    sort_insert-of_mem a t (sort_strings ts) (Memᴰ.tail (sort-of_mem a ts m))

names_or-IsClean : (an : Map Text Text) (key default : Text) → All IsClean (names_or an key default)
unfolding names_or
names_or-IsClean an key default = elim (Bool-cases (is_empty (parse_csv (annotation an key)))) [
  | inl e ↦ rw e (parse_csv-IsClean default)
  | inr e ↦ rw e (parse_csv-IsClean (annotation an key))
]

IsClean-of_mem : (p : Text) (ps : List Text) → All IsClean ps → Memᴰ p ps → IsClean p
IsClean-of_mem p [] h m = elim m [ ]
IsClean-of_mem p (q ∷ ps) h (Memᴰ.head e) = rw e h.0
IsClean-of_mem p (q ∷ ps) h (Memᴰ.tail m) = IsClean-of_mem p ps h.1 m

-- The info that names one node of one cluster.
abbrev pub single : Text → Text → NodeInfo
single node cluster = record { nodes = node ∷ []; clusters = cluster ∷ [] }

module _ (c : Codec) where
  pub get_node_id-pair :
      (node cluster : Text)
      → get_node_id c (pair cluster node)
        ≡ c.encode (record {
          nodes = sort_strings (parse_csv node);
          clusters = sort_strings (parse_csv cluster);
        })
  unfolding get_node_id lookup list_beq
  get_node_id-pair node cluster = refl

  pub decode_pair :
      (node cluster : Text)
      → IsClean node
      → IsClean cluster
      → c.decode (get_node_id c (pair cluster node)) ≡ some (single node cluster)
  decode_pair node cluster hn hc =
      rw (get_node_id-pair node cluster, parse_csv_one node hn, parse_csv_one cluster hc)
        (unfold sort_strings sort_insert in c.decode-encode (single node cluster))

  -- An ID that stands for a node of `ns` in the cluster.
  abbrev Names : List Text → List Text → Text → Type 0
  Names cs ns id =
      (cluster : Text) × (node : Text) × Memᴰ cluster cs
      × Memᴰ node ns
      × (id ≡ get_node_id c (pair cluster node))

  names_of-ids_of_cluster :
      (cluster id : Text) (ns : List Text)
      → Memᴰ id (ids_of_cluster c ns cluster)
      → (node : Text) × Memᴰ node ns × (id ≡ get_node_id c (pair cluster node))
  unfolding ids_of_cluster
  names_of-ids_of_cluster cluster id [] m = elim m [ ]
  names_of-ids_of_cluster cluster id (n ∷ ns) (Memᴰ.head e) = (n, Memᴰ.head refl, e)
  names_of-ids_of_cluster cluster id (n ∷ ns) (Memᴰ.tail m) =
      let (node, mn, e) = names_of-ids_of_cluster cluster id ns m in (node, Memᴰ.tail mn, e)

  ids_of_cluster-of_mem :
      (cluster node : Text) (ns : List Text)
      → Memᴰ node ns
      → Memᴰ (get_node_id c (pair cluster node)) (ids_of_cluster c ns cluster)
  unfolding ids_of_cluster
  ids_of_cluster-of_mem cluster node [] m = elim m [ ]
  ids_of_cluster-of_mem cluster node (n ∷ ns) (Memᴰ.head e) =
      Memᴰ.head (ap (λ t. get_node_id c (pair cluster t)) e)
  ids_of_cluster-of_mem cluster node (n ∷ ns) (Memᴰ.tail m) =
      Memᴰ.tail (ids_of_cluster-of_mem cluster node ns m)

  Names-of-ids_of : (id : Text) (cs ns : List Text) → Memᴰ id (ids_of c cs ns) → Names cs ns id
  unfolding ids_of
  Names-of-ids_of id [] ns m = elim m [ ]
  Names-of-ids_of id (d ∷ cs) ns m =
      elim (mem-append_cases (ids_of_cluster c ns d) (ids_of c cs ns) m) [
        | inl l ↦
            let (node, mn, e) = names_of-ids_of_cluster d id ns l in
            (d, node, Memᴰ.head refl, mn, e)
        | inr r ↦
            let (cluster, node, mc, mn, e) = Names-of-ids_of id cs ns r in
            (cluster, node, Memᴰ.tail mc, mn, e)
      ]

  ids_of-of_mem :
      (cluster node : Text) (cs ns : List Text)
      → Memᴰ cluster cs
      → Memᴰ node ns
      → Memᴰ (get_node_id c (pair cluster node)) (ids_of c cs ns)
  unfolding ids_of
  ids_of-of_mem cluster node [] ns m mn = elim m [ ]
  ids_of-of_mem cluster node (d ∷ cs) ns (Memᴰ.head e) mn =
      mem-append_left _ (ids_of c cs ns) (rw e (ids_of_cluster-of_mem d node ns mn))
  ids_of-of_mem cluster node (d ∷ cs) ns (Memᴰ.tail m) mn =
      mem-append_right (ids_of_cluster c ns d) _ (ids_of-of_mem cluster node cs ns m mn)

  -- Every ID of NodeIDs decodes to one clean node name in one clean cluster name, each of them read
  -- from the annotation or, if that has no name, from the default.
  pub node_ids_sound :
      (an : Map Text Text) (default_node default_cluster id : Text)
      → Memᴰ id (node_ids c an default_node default_cluster)
      → (cluster : Text) × (node : Text) × Memᴰ cluster (names_or an clusters_key default_cluster)
        × Memᴰ node (names_or an nodes_key default_node)
        × IsClean cluster
        × IsClean node
        × (get_node_info c id ≡ some (single node cluster))
  unfolding node_ids get_node_info
  node_ids_sound an dn dc id m =
      let cs = names_or an clusters_key dc in
      let ns = names_or an nodes_key dn in
      let (cluster, node, sc, sn, e) = Names-of-ids_of id (sort_strings cs) (sort_strings ns) m in
      let mc = mem_of-sort cluster cs sc in
      let mn = mem_of-sort node ns sn in
      let hc = IsClean-of_mem cluster cs (names_or-IsClean an clusters_key dc) mc in
      let hn = IsClean-of_mem node ns (names_or-IsClean an nodes_key dn) mn in
      (cluster, node, mc, mn, hc, hn, ap c.decode e ∙ decode_pair node cluster hn hc)

  -- Every pair of a cluster name and a node name that the annotations, or the defaults in their
  -- place, list has its ID among those of NodeIDs.
  pub node_ids_complete :
      (an : Map Text Text) (default_node default_cluster cluster node : Text)
      → Memᴰ cluster (names_or an clusters_key default_cluster)
      → Memᴰ node (names_or an nodes_key default_node)
      → (id : Text) × Memᴰ id (node_ids c an default_node default_cluster)
        × (get_node_info c id ≡ some (single node cluster))
  unfolding node_ids get_node_info
  node_ids_complete an dn dc cluster node mc mn =
      let cs = names_or an clusters_key dc in
      let ns = names_or an nodes_key dn in
      (
        get_node_id c (pair cluster node),
        ids_of-of_mem cluster node (sort_strings cs) (sort_strings ns) (sort-of_mem cluster cs mc)
            (sort-of_mem node ns mn),
        decode_pair node cluster (IsClean-of_mem node ns (names_or-IsClean an nodes_key dn) mn)
            (IsClean-of_mem cluster cs (names_or-IsClean an clusters_key dc) mc),
      )

pair_matches_iff :
    (xs ys : List Text) → (pair_matches xs ys ≡ true) ↔ ((a : Text) × Memᴰ a xs × Memᴰ a ys)
unfolding pair_matches
pair_matches_iff xs ys = any-contains_iff xs ys

-- A node matches an ID exactly if the ID decodes, and the two share a node name and a cluster name.
find_node_and_cluster_iff :
    (c : Codec) (n : NodeInfo) (id : Text)
    → (find_node_and_cluster c n id ≡ true) ↔ (
        (other : NodeInfo) × (get_node_info c id ≡ some other)
        × ((a : Text) × Memᴰ a n.nodes × Memᴰ a other.nodes)
        × ((b : Text) × Memᴰ b n.clusters × Memᴰ b other.clusters))
unfolding find_node_and_cluster get_node_info
find_node_and_cluster_iff c n id = (
  λ h. elim (Option-cases (c.decode id)) [
    | inl e ↦ ground arith
    | inr (other, e) ↦ (
      other,
      e,
      (pair_matches_iff n.nodes other.nodes).0 (ground arith),
      (pair_matches_iff n.clusters other.clusters).0 (ground arith),
    )
  ],
  λ (other, e, p, q). ground (
    arith,
    (pair_matches_iff n.nodes other.nodes).1 p,
    (pair_matches_iff n.clusters other.clusters).1 q,
  ),
)
