-- ===== src/Sds/Obtain.antt =====
-- controllers/sds/sds.go: GetSecret and makeSecret, which read the certificate of a domain and order
-- one if there is none or it has to be renewed. What the CertGetter, Let's Encrypt's account and
-- Vault's access test answer is an input; minutes are read exactly, without the rounding of float64.
pub mod Orders
pub mod Stored
pub mod Missing
use xds_controller.Prelude.{
  ℕ, suc, ◌+◌, ◌-◌, ◌*◌, ◌/◌, Bool, true, false, not, ◌&&◌, ◌||◌, if◌then◌else◌, Option, none, some,
  Text, Result, ok, err, ◌==◌, nat_eq, list_eq, List, [], ◌∷◌, codes, is_empty, length, leb,
}
use xds_controller.Sds.{ℤ, pos, negsuc, second}
use xds_controller.Sds.Errors.{
  Error, plain, wrap, is_error, text_contains, sentinel_text, bad_key_data, cert_not_found,
  cert_nil, vault_not_configured, k8s_client_not_configured, custom_env_replace, service_busy,
  rate_limited, get_cert_text, read_cert_text, write_cert_text,
}
use xds_controller.Sds.Secrets.{Secret}
use xds_controller.Sds.Certificates.{X509Cert, Parsers, get_509_cert}
use xds_controller.Sds.Storage.{
  DomainConfig, Cert, Keeper, Stores, storage_read, storage_write, check_vault_write_access,
  local_store, vault_store, kubernetes_store,
}
use xds_controller.Sds.Storage.Choice.{with_storage}
use xds_controller.Sds.Records.{Fetched}

-- The answers during one call: `issue n` is that of the CertGetter when n certificates have been
-- ordered, and `write_fault n` that of the write which follows.
pub record Answers : Type 0 where
  pub parsers : Parsers
  pub now : ℕ
  pub renew_before : ℕ
  pub is_leader : Bool
  pub account_fault : Option Error
  pub init_fault : Option Error
  pub read_fault : Option Error
  pub write_fault : ℕ → Option Error
  pub issue : ℕ → Result Error Cert

-- what a call leaves and returns, and how many certificates it has ordered
pub record Made : Type 0 where
  pub stores : Stores
  pub orders : ℕ
  pub fetched : Fetched

abbrev pub minute : ℕ
minute = 60 * second

-- defaultDuration
abbrev pub default_duration : ℤ
default_duration = pos (10 * minute)

abbrev pub manual : Text
manual = codes "MANUAL"

abbrev pub staging : Text
staging = codes "Staging"

abbrev pub production : Text
production = codes "Production"

abbrev pub is_manual : DomainConfig → Bool
is_manual d = elim d.challenge [ none ↦ false | some c ↦ c.challenge_type == manual ]

abbrev pub secret_with : DomainConfig → Cert → Secret
secret_with d c = record { name = d.secret_name; tls_certificate = some (c.public, c.private) }

abbrev pub bare_secret : DomainConfig → Secret
bare_secret d = record { name = d.secret_name; tls_certificate = none }

abbrev pub failing : Stores → ℕ → Error → Made
failing s n e = record {
  stores = s;
  orders = n;
  fetched = record { secret = err e; renew_in = default_duration; expiration = 0 };
}

abbrev pub returning : Stores → ℕ → Secret → ℤ → ℕ → Made
returning s n sds renew_in expiration = record {
  stores = s;
  orders = n;
  fetched = record { secret = ok sds; renew_in = renew_in; expiration = expiration };
}

-- the error that is returned for one of the CertGetter
unfoldable pub issue_error : Error → Error
issue_error e =
    if text_contains e.text (codes "zone could not be found")
      || text_contains e.text (sentinel_text custom_env_replace)
      || text_contains e.text (codes "is not set")
    then e
    else if is_error e service_busy
    then plain service_busy
    else if is_error e rate_limited
    then plain rate_limited
    else wrap get_cert_text e

-- the error that is returned for one of StorageConfigWrite
abbrev pub write_error : Error → Error
write_error e = if is_error e vault_not_configured then e else wrap write_cert_text e

-- the error of the test of Vault's access, with Vault storage
abbrev pub access_error : Keeper → DomainConfig → Option Error
access_error x d = if d.config.type == vault_store then check_vault_write_access x d else none

module _ (x : Keeper) (w : Answers) where
  -- the environment or the number of names differs, which only certificates of a challenge that is not
  -- manual are renewed for
  unfoldable pub has_drifted : DomainConfig → X509Cert → Bool
  has_drifted d c = elim d.challenge [
    | none ↦ false
    | some h ↦
        let env =
          if text_contains c.issuer (w.parsers.to_upper staging) then staging else production in
        not (h.challenge_type == manual)
        && (not (h.acme_env == env) || not (length c.dns_names == length d.domains))
  ]

  -- forceRegenerate
  unfoldable pub force_regenerate : Bool → DomainConfig → X509Cert → Bool
  unfolding has_drifted
  force_regenerate force d c =
      (force && not (is_manual d)) || (not (d.config.type == local_store) && has_drifted d c)

  -- minutesUntilExpire <= renewBeforeExpireMinutes
  abbrev pub is_due : X509Cert → Bool
  is_due c = leb (c.not_after - w.now) (w.renew_before * minute)

  unfoldable pub needs_renewal : Bool → DomainConfig → X509Cert → Bool
  unfolding force_regenerate
  needs_renewal force d c = force_regenerate force d c || (is_due c && not (is_manual d))

  -- generateBeforeExpiration, in whole minutes
  unfoldable pub renew_after : X509Cert → ℤ
  renew_after c =
      let start = w.now + w.renew_before * minute in
      let late = (start - c.not_after) / minute * minute in
      if leb start c.not_after
      then pos ((c.not_after - start) / minute * minute)
      else if late == 0
      then pos 0
      else negsuc (late - 1)

  -- the end of makeSecret
  unfoldable pub finish : DomainConfig → Stores → ℕ → Cert → X509Cert → Made
  unfolding renew_after
  finish d s n cert c =
      if is_empty cert.private && is_empty cert.public
      then failing s n (plain bad_key_data)
      else returning s n (secret_with d cert) (renew_after c) c.not_after

  -- cg.Get and StorageConfigWrite
  unfoldable pub order : DomainConfig → Stores → ℕ → Result Error (Stores × Cert)
  unfolding issue_error
  order d s n = elim (w.issue n) [
    | err e ↦ err (issue_error e)
    | ok cert ↦ elim (storage_write x (w.write_fault n) d cert s) [
      | err e ↦ err (write_error e)
      | ok s' ↦ ok (s', cert)
    ]
  ]

  -- the renewal of a certificate
  unfoldable pub renew : DomainConfig → Stores → ℕ → Made
  renew d s n = elim (order d s n) [
    | ok p ↦ elim (get_509_cert w.parsers p.1.public) [
      | ok c ↦ finish d p.0 (suc n) p.1 c
      | err e ↦ failing p.0 (suc n) e
    ]
    | err e ↦ failing s (suc n) e
  ]

  -- a certificate that has to be renewed
  unfoldable pub renew_if_allowed : DomainConfig → Stores → ℕ → Cert → X509Cert → Made
  renew_if_allowed d s n cert c =
      if not w.is_leader
      then returning s n (secret_with d cert) (pos (5 * minute)) c.not_after
      else if x.dry_run
      then returning s n (secret_with d cert) default_duration 0
      else if is_empty cert.private && is_empty cert.public
      then failing s n (plain bad_key_data)
      else elim (access_error x d) [ some e ↦ failing s n e | none ↦ renew d s n ]

  -- makeSecret from the parsing of the certificate on
  unfoldable pub examine : Bool → DomainConfig → Stores → ℕ → Cert → Made
  examine force d s n cert = elim (get_509_cert w.parsers cert.public) [
    | err e ↦ failing s n e
    | ok c ↦ if needs_renewal force d c then renew_if_allowed d s n cert c else finish d s n cert c
  ]

  -- the case that no certificate is stored
  unfoldable pub create : Bool → DomainConfig → Stores → Error → Made
  create force d s e =
      if not w.is_leader
      then failing s 0 e
      else if is_manual d || x.dry_run
      then returning s 0 (bare_secret d) default_duration 0
      else elim (access_error x d) [
        | some f ↦ failing s 0 f
        | none ↦ elim (order d s 0) [ ok p ↦ examine force d p.0 1 p.1 | err g ↦ failing s 1 g ]
      ]

  -- makeSecret
  unfoldable pub make_secret : Bool → DomainConfig → Stores → Made
  make_secret force d s = elim (storage_read x w.read_fault d s) [
    | ok cert ↦ examine force d s 0 cert
    | err e ↦
        if is_error e cert_not_found || is_error e cert_nil
        then create force d s e
        else failing s 0 (if is_error e vault_not_configured then e else wrap read_cert_text e)
  ]

  -- why GetSecret returns before makeSecret
  unfoldable pub set_up_error : DomainConfig → Option Error
  set_up_error d =
      if d.config.type == kubernetes_store
      then (if not x.has_client
          then some (plain k8s_client_not_configured)
          else elim d.challenge [ none ↦ none | some c ↦ w.account_fault ])
      else if d.config.type == vault_store
      then elim w.init_fault [ some e ↦ some e | none ↦ w.account_fault ]
      else none

-- GetSecret
unfoldable pub get_secret : Keeper → Answers → Bool → DomainConfig → Stores → Made
unfolding with_storage set_up_error
get_secret x w force d s =
    let stored = with_storage x d in
    elim (set_up_error x w stored) [
      | some e ↦ failing s 0 e
      | none ↦
          let ready = record x {
            has_vault_client = x.has_vault_client || stored.config.type == vault_store;
          } in
          make_secret ready w force stored s
    ]
