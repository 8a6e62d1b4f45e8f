-- ===== src/Fcm/Compile.antt =====
-- pkg/xds/fcm/fcm.go: the matchers that CompileProto returns.
use xds_controller.Prelude.{
  false, Option, EqOps, nat_eq, list_eq, pair_eq, List, [], ◌∷◌, Text, is_empty, contains, ok,
  >>=-eq-ok, ok_injective, ◌≡◌, refl, subst, arith, codes,
}
use xds_controller.Fcm.{
  Matcher, FilterChainMatch, CidrRange, Prefix, Externs, any_names, any_ports, any_addresses,
  unique, has_repeat, compile_server_names, server_name_keys, compile_cidrs, cidr_prefixes,
  compile_match, match_keys, compile_proto, no_match,
}

-- A list of keys under which Envoy can file a chain: at least one, and none twice.
pub record AreKeys {A : Type 0} ⦃e : EqOps A⦄ (keys : List A) : Type 0 where
  pub some_key : is_empty keys ≡ false
  pub distinct : has_repeat [] keys ≡ false

pub record IsKeyed (m : Matcher) : Type 0 where
  pub names : AreKeys m.server_names
  pub alpn : AreKeys m.alpn
  pub ports : AreKeys m.source_ports
  pub ranges : AreKeys m.prefix_ranges
  pub direct : AreKeys m.direct_source
  pub source : AreKeys m.source

unique-AreKeys :
    {A : Type 0} ⦃e : EqOps A⦄ (field : Text) (values empty keys : List A)
    → AreKeys empty
    → unique field values empty ≡ ok keys
    → AreKeys keys
unfolding unique
unique-AreKeys field values empty keys h eq = ground arith

any_names-AreKeys : AreKeys any_names
unfolding has_repeat contains
any_names-AreKeys = record { some_key = refl; distinct = refl }

any_ports-AreKeys : AreKeys any_ports
unfolding has_repeat contains
any_ports-AreKeys = record { some_key = refl; distinct = refl }

any_addresses-AreKeys : AreKeys any_addresses
unfolding has_repeat contains
any_addresses-AreKeys = record { some_key = refl; distinct = refl }

names-AreKeys : (names keys : List Text) → compile_server_names names ≡ ok keys → AreKeys keys
unfolding compile_server_names
names-AreKeys names keys h =
    let (ks, e, u) = >>=-eq-ok (server_name_keys names) _ h in
    unique-AreKeys (codes "server_names") ks any_names keys any_names-AreKeys u

cidrs-AreKeys :
    (x : Externs) (field : Text) (ranges : List CidrRange) (ps : List Prefix)
    → compile_cidrs x field ranges ≡ ok ps
    → AreKeys ps
unfolding compile_cidrs
cidrs-AreKeys x field [] ps h = subst AreKeys (ground arith) any_addresses-AreKeys
cidrs-AreKeys x field (r ∷ ranges) ps h =
    let (qs, e, u) = >>=-eq-ok (cidr_prefixes x field (r ∷ ranges)) _ h in
    unique-AreKeys field qs any_addresses ps any_addresses-AreKeys u

match_keys-IsKeyed :
    (x : Externs) (m : FilterChainMatch) (c : Matcher) → match_keys x m ≡ ok c → IsKeyed c
unfolding match_keys
match_keys-IsKeyed x m c h =
    let (names, e₁, h₁) = >>=-eq-ok (compile_server_names m.server_names) _ h in
    let (alpn, e₂, h₂) =
      >>=-eq-ok (unique (codes "application_protocols") m.application_protocols any_names) _ h₁ in
    let (ports, e₃, h₃) = >>=-eq-ok (unique (codes "source_ports") m.source_ports any_ports) _ h₂ in
    let (ranges, e₄, h₄) =
      >>=-eq-ok (compile_cidrs x (codes "prefix_ranges") m.prefix_ranges) _ h₃ in
    let (direct, e₅, h₅) =
      >>=-eq-ok
        (compile_cidrs x (codes "direct_source_prefix_ranges") m.direct_source_prefix_ranges) _
        h₄ in
    let (source, e₆, h₆) =
      >>=-eq-ok (compile_cidrs x (codes "source_prefix_ranges") m.source_prefix_ranges) _ h₅ in
    subst IsKeyed (ok_injective h₆) (record {
      names = names-AreKeys m.server_names names e₁;
      alpn =
          unique-AreKeys (codes "application_protocols") m.application_protocols any_names alpn
            any_names-AreKeys e₂;
      ports =
          unique-AreKeys (codes "source_ports") m.source_ports any_ports ports any_ports-AreKeys e₃;
      ranges = cidrs-AreKeys x (codes "prefix_ranges") m.prefix_ranges ranges e₄;
      direct =
          cidrs-AreKeys x (codes "direct_source_prefix_ranges") m.direct_source_prefix_ranges direct
            e₅;
      source = cidrs-AreKeys x (codes "source_prefix_ranges") m.source_prefix_ranges source e₆;
    })

compile_match-IsKeyed :
    (x : Externs) (m : FilterChainMatch) (c : Matcher) → compile_match x m ≡ ok c → IsKeyed c
unfolding compile_match
compile_match-IsKeyed x m c h = match_keys-IsKeyed x m c (ground arith)

-- Each criterion of a compiled matcher has at least one key and none twice, as Envoy wants it.
pub compile_proto-IsKeyed :
    (x : Externs) (m : Option FilterChainMatch) (c : Matcher) → compile_proto x m ≡ ok c → IsKeyed c
unfolding compile_proto
compile_proto-IsKeyed x Option.none c h = compile_match-IsKeyed x no_match c h
compile_proto-IsKeyed x (Option.some m) c h = compile_match-IsKeyed x m c h
