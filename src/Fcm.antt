-- ===== src/Fcm.antt =====
-- pkg/xds/fcm/fcm.go: whether two filter chain matchers can share one Envoy listener. The generated
-- validation of a match, the parser of IP addresses and the JSON conversion are parameters.
pub mod Names
pub mod Compile
pub mod Verdicts
pub mod Index
use xds_controller.Prelude.{
  ℕ, suc, ◌+◌, ◌-◌, ◌*◌, ◌/◌, ◌^◌, Bool, true, false, not, ◌&&◌, ◌||◌, if◌then◌else◌, Option, Text,
  Map, lookup, insert, ◌==◌, nat_eq, list_eq, pair_eq, EqOps, List, [], ◌∷◌, ◌++◌, is_empty, codes,
  contains, has_prefix, cut, count_char, ltb, leb, Result, ok, err, ◌>>=◌, length,
}
use Prim.Native.Nat.{min}

pub data Verdict : Type 0 where
  none shadow duplicate : Verdict

-- netip.Addr: the length in bits and the value
abbrev pub Addr : Type 0
Addr = ℕ × ℕ

-- netip.Prefix: a masked address and the length of the prefix
abbrev pub Prefix : Type 0
Prefix = Addr × ℕ

pub record Matcher : Type 0 where
  pub destination_port : ℕ
  pub prefix_ranges : List Prefix
  pub server_names : List Text
  pub transport_protocol : Text
  pub alpn : List Text
  pub direct_source : List Prefix
  pub source_type : ℕ
  pub source : List Prefix
  pub source_ports : List ℕ

abbrev pub any_names : List Text
any_names = [] ∷ []

abbrev pub any_ports : List ℕ
any_ports = 0 ∷ []

abbrev pub any_addresses : List Prefix
any_addresses = ((32, 0), 0) ∷ ((128, 0), 0) ∷ []

-- corev3.CidrRange
pub record CidrRange : Type 0 where
  pub address_prefix : Text
  pub prefix_len : ℕ

-- listenerv3.FilterChainMatch, as its getters show it
pub record FilterChainMatch : Type 0 where
  pub destination_port : ℕ
  pub prefix_ranges : List CidrRange
  pub address_suffix : Text
  pub suffix_len : Option ℕ
  pub server_names : List Text
  pub transport_protocol : Text
  pub application_protocols : List Text
  pub direct_source_prefix_ranges : List CidrRange
  pub source_type : ℕ
  pub source_prefix_ranges : List CidrRange
  pub source_ports : List ℕ

abbrev pub no_match : FilterChainMatch
no_match = record {
  destination_port = 0;
  prefix_ranges = [];
  address_suffix = [];
  suffix_len = Option.none;
  server_names = [];
  transport_protocol = [];
  application_protocols = [];
  direct_source_prefix_ranges = [];
  source_type = 0;
  source_prefix_ranges = [];
  source_ports = [];
}

pub data CompileError : Type 0 where
  bad_json invalid suffix_not_implemented : CompileError
  listed_twice : Text → CompileError
  partial_wildcard : Text → CompileError
  malformed_address bad_prefix : Text → Text → CompileError

abbrev pub Compiled : Type 0 → Type 0
Compiled = Result CompileError

-- the loop of `unique` behind the values `seen`
unfoldable pub has_repeat : {A : Type 0} ⦃e : EqOps A⦄ → List A → List A → Bool
has_repeat seen [] = false
has_repeat seen (v ∷ vs) = contains seen v || has_repeat (seen ++ v ∷ []) vs

unfoldable pub unique : {A : Type 0} ⦃e : EqOps A⦄ → Text → List A → List A → Compiled (List A)
unique field values empty =
    if is_empty values
    then ok empty
    else if has_repeat [] values
    then err (listed_twice field)
    else ok values

unfoldable pub lower_char : ℕ → ℕ
lower_char c = if leb b'A' c && leb c b'Z' then c + 32 else c

unfoldable pub ascii_lower : Text → Text
ascii_lower [] = []
ascii_lower (c ∷ s) = lower_char c ∷ ascii_lower s

-- strings.TrimPrefix(s, "*")
unfoldable pub trim_star : Text → Text
trim_star [] = []
trim_star (c ∷ s) = if c == b'*' then s else c ∷ s

unfoldable pub is_partial_wildcard : Text → Bool
is_partial_wildcard n =
    (ltb 0 (count_char b'*' n) && not (has_prefix n (codes "*."))) || ltb 1 (count_char b'*' n)

unfoldable pub server_name_keys : List Text → Compiled (List Text)
server_name_keys [] = ok []
server_name_keys (n ∷ names) =
    let rest = server_name_keys names in
    if is_partial_wildcard n
    then err (partial_wildcard n)
    else (do keys ← rest; ok (trim_star (ascii_lower n) ∷ keys))

unfoldable pub compile_server_names : List Text → Compiled (List Text)
compile_server_names names = do
  keys ← server_name_keys names
  unique (codes "server_names") keys any_names

-- the address masked to the first `b` of its bits
unfoldable pub mask : Addr → ℕ → Addr
mask (bits, value) b = (bits, value / 2 ^ (bits - b) * 2 ^ (bits - b))

-- netip's addr.Prefix(b)
unfoldable pub addr_prefix : Addr → ℕ → Option Prefix
unfolding mask
addr_prefix addr b = if ltb addr.0 b then Option.none else Option.some (mask addr b, b)

-- m.ValidateAll() and netip.ParseAddr
pub record Externs : Type 0 where
  pub validate_all : FilterChainMatch → Bool
  pub parse_addr : Text → Option Addr

module _ (x : Externs) where
  unfoldable pub cidr_prefixes : Text → List CidrRange → Compiled (List Prefix)
  cidr_prefixes field [] = ok []
  cidr_prefixes field (r ∷ ranges) =
      let rest = cidr_prefixes field ranges in
      elim (x.parse_addr r.address_prefix) [
        | Option.none ↦ err (malformed_address field r.address_prefix)
        | Option.some addr ↦ elim (addr_prefix addr (min r.prefix_len addr.0)) [
          | Option.none ↦ err (bad_prefix field r.address_prefix)
          | Option.some p ↦ (do ps ← rest; ok (p ∷ ps))
        ]
      ]

  unfoldable pub compile_cidrs : Text → List CidrRange → Compiled (List Prefix)
  compile_cidrs field ranges =
      if is_empty ranges
      then ok any_addresses
      else (do ps ← cidr_prefixes field ranges; unique field ps any_addresses)

  abbrev pub has_suffix : FilterChainMatch → Bool
  has_suffix m =
      not (is_empty m.address_suffix)
      || (elim m.suffix_len [ Option.none ↦ false | Option.some _ ↦ true ])

  -- the keys of the criteria, the first error in the order of the code
  unfoldable pub match_keys : FilterChainMatch → Compiled Matcher
  match_keys m = do
    names ← compile_server_names m.server_names
    alpn ← unique (codes "application_protocols") m.application_protocols any_names
    ports ← unique (codes "source_ports") m.source_ports any_ports
    ranges ← compile_cidrs (codes "prefix_ranges") m.prefix_ranges
    direct ← compile_cidrs (codes "direct_source_prefix_ranges") m.direct_source_prefix_ranges
    source ← compile_cidrs (codes "source_prefix_ranges") m.source_prefix_ranges
    ok (record {
      destination_port = m.destination_port;
      prefix_ranges = ranges;
      server_names = names;
      transport_protocol = m.transport_protocol;
      alpn = alpn;
      direct_source = direct;
      source_type = m.source_type;
      source = source;
      source_ports = ports;
    })

  -- the body of CompileProto once `m` is not nil
  unfoldable pub compile_match : FilterChainMatch → Compiled Matcher
  compile_match m =
      if not (x.validate_all m)
      then err invalid
      else if has_suffix m
      then err suffix_not_implemented
      else match_keys m

  -- CompileProto: a nil match is the catch-all matcher
  unfoldable pub compile_proto : Option FilterChainMatch → Compiled Matcher
  compile_proto Option.none = compile_match no_match
  compile_proto (Option.some m) = compile_match m
