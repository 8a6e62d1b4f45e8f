-- ===== src/Fcm/Verdicts.antt =====
-- pkg/xds/fcm/fcm.go: Compare, over all criteria of two matchers.
use xds_controller.Prelude.{
  Bool, true, false, not, ◌||◌, if◌then◌else◌, EqOps, ◌==◌, nat_eq, list_eq, pair_eq, List, [], ◌∷◌,
  Memᴰ, is_empty, contains, any, any-contains_comm, any-contains_iff, ◌≡◌, ◌↔◌, refl, arith,
  eq_of_beq, beq_of_eq, ok, Option,
}
use xds_controller.Fcm.{Verdict, duplicate, Matcher, FilterChainMatch, Externs, compile_proto}
use xds_controller.Fcm.Names.{
  compare_server_names, compare_server_names_lem, compare_server_names_comm,
}
use xds_controller.Fcm.Compile.{compile_proto-IsKeyed}

-- shareKey
unfoldable pub share_key {ℓ} : {A : Type ℓ} ⦃e : EqOps A⦄ → List A → List A → Bool
share_key a b = any (contains b) a

-- the criteria that Compare tests before the server names
abbrev tells_apart : Matcher → Matcher → Bool
tells_apart m o =
    not (m.destination_port == o.destination_port)
    || not (m.transport_protocol == o.transport_protocol)
    || not (m.source_type == o.source_type)
    || not (share_key m.prefix_ranges o.prefix_ranges)
    || not (share_key m.alpn o.alpn)
    || not (share_key m.direct_source o.direct_source)
    || not (share_key m.source o.source)
    || not (share_key m.source_ports o.source_ports)

-- Compare
unfoldable pub compare_matchers : Matcher → Matcher → Verdict
compare_matchers m o =
    if tells_apart m o then Verdict.none else compare_server_names m.server_names o.server_names

share_key_comm {ℓ} : {A : Type ℓ} ⦃e : EqOps A⦄ (a b : List A) → share_key a b ≡ share_key b a
unfolding share_key
share_key_comm a b = any-contains_comm a b

beq_comm {ℓ} : {A : Type ℓ} ⦃e : EqOps A⦄ (a b : A) → (a == b) ≡ (b == a)
beq_comm ⦃e⦄ a b = ground (arith, e.beq_iff a b, e.beq_iff b a)

-- The verdict does not depend on which of the two chains comes first.
pub compare_comm : (m o : Matcher) → compare_matchers m o ≡ compare_matchers o m
unfolding compare_matchers
compare_comm m o = ground (
  arith,
  beq_comm m.destination_port o.destination_port,
  beq_comm m.transport_protocol o.transport_protocol,
  beq_comm m.source_type o.source_type,
  share_key_comm m.prefix_ranges o.prefix_ranges,
  share_key_comm m.alpn o.alpn,
  share_key_comm m.direct_source o.direct_source,
  share_key_comm m.source o.source,
  share_key_comm m.source_ports o.source_ports,
  compare_server_names_comm m.server_names o.server_names,
)

abbrev pub Shared {ℓ} : {A : Type ℓ} → List A → List A → Type ℓ
Shared {A} xs ys = (a : A) × Memᴰ a xs × Memᴰ a ys

share_key_iff {ℓ} : {A : Type ℓ} ⦃e : EqOps A⦄ (a b : List A) → (share_key a b ≡ true) ↔ Shared a b
unfolding share_key
share_key_iff a b = any-contains_iff a b

-- What it takes for Envoy to file both chains under one key.
pub record Collide (m o : Matcher) : Type 0 where
  pub port : m.destination_port ≡ o.destination_port
  pub protocol : m.transport_protocol ≡ o.transport_protocol
  pub source_kind : m.source_type ≡ o.source_type
  pub range : Shared m.prefix_ranges o.prefix_ranges
  pub alpn : Shared m.alpn o.alpn
  pub direct : Shared m.direct_source o.direct_source
  pub source : Shared m.source o.source
  pub source_port : Shared m.source_ports o.source_ports
  pub name : Shared m.server_names o.server_names

duplicate_tests :
    (m o : Matcher)
    → compare_matchers m o ≡ duplicate
    → (tells_apart m o ≡ false) × (share_key m.server_names o.server_names ≡ true)
unfolding compare_matchers share_key
duplicate_tests m o h = ground (arith, compare_server_names_lem m.server_names o.server_names)

Collide-of-duplicate : (m o : Matcher) → compare_matchers m o ≡ duplicate → Collide m o
Collide-of-duplicate m o h =
    let (t, n) = duplicate_tests m o h in
    record {
      port = eq_of_beq m.destination_port o.destination_port (ground arith);
      protocol = eq_of_beq m.transport_protocol o.transport_protocol (ground arith);
      source_kind = eq_of_beq m.source_type o.source_type (ground arith);
      range = (share_key_iff m.prefix_ranges o.prefix_ranges).0 (ground arith);
      alpn = (share_key_iff m.alpn o.alpn).0 (ground arith);
      direct = (share_key_iff m.direct_source o.direct_source).0 (ground arith);
      source = (share_key_iff m.source o.source).0 (ground arith);
      source_port = (share_key_iff m.source_ports o.source_ports).0 (ground arith);
      name = (share_key_iff m.server_names o.server_names).0 n;
    }

duplicate_of-Collide : (m o : Matcher) → Collide m o → compare_matchers m o ≡ duplicate
unfolding compare_matchers
duplicate_of-Collide m o c = ground (
  arith,
  beq_of_eq m.destination_port o.destination_port c.port,
  beq_of_eq m.transport_protocol o.transport_protocol c.protocol,
  beq_of_eq m.source_type o.source_type c.source_kind,
  (share_key_iff m.prefix_ranges o.prefix_ranges).1 c.range,
  (share_key_iff m.alpn o.alpn).1 c.alpn,
  (share_key_iff m.direct_source o.direct_source).1 c.direct,
  (share_key_iff m.source o.source).1 c.source,
  (share_key_iff m.source_ports o.source_ports).1 c.source_port,
  compare_server_names_lem m.server_names o.server_names,
  (any-contains_iff m.server_names o.server_names).1 c.name,
)

-- Two chains are duplicates exactly if they agree on the port, the protocol and the kind of source,
-- and each criterion that is a list has a key that both list.
pub duplicate_iff : (m o : Matcher) → (compare_matchers m o ≡ duplicate) ↔ Collide m o
duplicate_iff m o = (Collide-of-duplicate m o, duplicate_of-Collide m o)

self-Shared {ℓ} : {A : Type ℓ} (xs : List A) → is_empty xs ≡ false → Shared xs xs
self-Shared [] h = cc
self-Shared (x ∷ xs) h = (x, Memᴰ.head refl, Memᴰ.head refl)

-- A matcher that CompileProto returns is a duplicate of itself.
compare_self :
    (x : Externs) (m : Option FilterChainMatch) (c : Matcher)
    → compile_proto x m ≡ ok c
    → compare_matchers c c ≡ duplicate
compare_self x m c h =
    let k = compile_proto-IsKeyed x m c h in
    duplicate_of-Collide c c (record {
      port = refl;
      protocol = refl;
      source_kind = refl;
      range = self-Shared c.prefix_ranges k.ranges.some_key;
      alpn = self-Shared c.alpn k.alpn.some_key;
      direct = self-Shared c.direct_source k.direct.some_key;
      source = self-Shared c.source k.source.some_key;
      source_port = self-Shared c.source_ports k.ports.some_key;
      name = self-Shared c.server_names k.names.some_key;
    })
