-- ===== src/Examples/Obtaining.antt =====
-- controllers/sds/sds.go and pkg/xds/sds.go at a domain whose certificate is issued by itself.
use xds_controller.Prelude.{
  true, false, none, some, Text, ok, err, lookup, insert, ◌==◌, list_eq, nat_eq, pair_eq, [], ◌∷◌,
  codes, ◌++◌, ◌≡◌, refl, arith, list_beq, if◌then◌else◌,
}
use xds_controller.Sds.Errors.{plain, cert_not_found}
use xds_controller.Sds.Certificates.{X509Cert, get_509_cert}
use xds_controller.Sds.Storage.{
  DomainConfig, StorageConfig, Cert, Names, Keeper, Stores, kube_place, storage_read, storage_write,
  read_kube, write_kube, kubernetes_store,
}
use xds_controller.Sds.Storage.Choice.{
  Watched, store_type, with_storage, resolve_k8s_secret_ref, find_tls_secrets,
}
use xds_controller.Sds.Storage.RoundTrip.{AreNames, storage_read-write}
use xds_controller.Sds.Storage.Watch.{watch_matches_storage, watch_misses_storage}
use xds_controller.Sds.Obtain.{Answers, access_error, make_secret, secret_with, needs_renewal}
use xds_controller.Sds.Obtain.Orders.{Untouched, idle_keeps_stores}
use xds_controller.Sds.Obtain.Missing.{missing_is_ordered_once, missing_is_ordered_twice}
use xds_controller.Sds.Obtain.Stored.{Backed, make_secret-Backed}
use xds_controller.Examples.Tls.{self}

abbrev texts : Names
texts = record { file_path = λ a b. a ++ b; encode = λ t. t; decode = λ t. some t }

abbrev keeper : Keeper
keeper = record {
  names = texts;
  default_namespace = codes "xds";
  has_client = true;
  has_vault_client = false;
  global_vault = none;
  dry_run = false;
}

abbrev unset : StorageConfig
unset = record { type = []; local = none; vault = none; kubernetes = none }

abbrev site : DomainConfig
site = record {
  secret_name = codes "site";
  domains = codes "a" ∷ [];
  challenge = none;
  config = record unset { type = kubernetes_store };
}

abbrev nothing : Stores
nothing = record { files = []; vaults = []; secrets = [] }

abbrev cert : Cert
cert = record { public = codes "chain"; private = codes "key" }

abbrev kept : Stores
kept = record nothing {
  secrets =
      ((codes "xds", codes "site"), record { certificate = codes "chain"; key = codes "key" }) ∷ [];
}

abbrev leader : Answers
leader = record {
  parsers = self;
  now = 10;
  renew_before = 0;
  is_leader = true;
  account_fault = none;
  init_fault = none;
  read_fault = none;
  write_fault = λ n. none;
  issue = λ n. ok cert;
}

abbrev follower : Answers
follower = record leader { is_leader = false }

names : AreNames keeper site
names = record { decode-encode = λ t. refl; two_files = unfold list_beq in refl }

saved : storage_write keeper none site cert nothing ≡ ok kept
unfolding storage_write write_kube kube_place insert list_beq
saved = refl

storage_read-write_example : storage_read keeper none site kept ≡ ok cert
storage_read-write_example = storage_read-write keeper site cert nothing names refl refl saved

abbrev watched : Text → Watched
watched namespace = record {
  name = codes "site";
  namespace = namespace;
  domain = record site { config = unset };
}

watch_matches_storage_example :
    let t = watched (codes "xds") in
    resolve_k8s_secret_ref (codes "xds") none t ≡ (
      if store_type keeper t.domain == kubernetes_store
      then some (kube_place (codes "xds") (with_storage keeper t.domain))
      else none)
watch_matches_storage_example =
    watch_matches_storage keeper (watched (codes "xds")) refl refl refl refl

read_there : store_type keeper (watched (codes "apps")).domain ≡ kubernetes_store
unfolding store_type
read_there = refl

watch_misses_storage_example :
    let t = watched (codes "apps") in
    find_tls_secrets
      (codes "xds")
      none
      (kube_place (codes "xds") (with_storage keeper t.domain))
      (t ∷ [])
    ≡ []
watch_misses_storage_example =
    watch_misses_storage keeper (watched (codes "apps")) read_there refl refl
      (unfold list_beq in refl)

idle_keeps_stores_example :
    Untouched keeper follower 0 nothing (make_secret keeper follower true site nothing)
idle_keeps_stores_example = idle_keeps_stores keeper follower true site nothing refl

accessible : access_error keeper site ≡ none
unfolding list_beq
accessible = refl

absent : storage_read keeper none site nothing ≡ err (plain cert_not_found)
unfolding storage_read read_kube kube_place lookup list_beq
absent = refl

abbrev parsed : X509Cert
parsed = record {
  issuer = codes "chain";
  subject = codes "chain";
  dns_names = [];
  not_before = 0;
  not_after = 100;
  serial_number = [];
  raw = codes "chain";
}

parses : get_509_cert self (codes "chain") ≡ ok parsed
unfolding get_509_cert list_beq
parses = refl

not_due : needs_renewal keeper leader false site parsed ≡ false
unfolding needs_renewal list_beq
not_due = refl

not_forced : needs_renewal keeper follower false site parsed ≡ false
unfolding needs_renewal list_beq
not_forced = refl

missing_is_ordered_once_example :
    let first = make_secret keeper leader false site nothing in
    let next = make_secret keeper follower false site first.stores in
    (first.orders ≡ 1)
    × (first.fetched.secret ≡ ok (secret_with site cert))
    × (next.orders ≡ 0)
    × (next.stores ≡ first.stores)
    × (next.fetched.secret ≡ ok (secret_with site cert))
missing_is_ordered_once_example =
    missing_is_ordered_once keeper leader follower site nothing kept (plain cert_not_found) cert
      parsed names refl accessible absent refl refl refl saved parses not_due refl parses not_forced

missing_is_ordered_twice_example : (make_secret keeper leader true site nothing).orders ≡ 2
missing_is_ordered_twice_example =
    missing_is_ordered_twice keeper leader site nothing kept (plain cert_not_found) cert parsed refl
      accessible absent refl refl refl saved parses

make_secret-Backed_example : Backed keeper leader site (make_secret keeper leader true site nothing)
make_secret-Backed_example =
    make_secret-Backed keeper leader true site nothing names (λ n got h. ground arith) refl
