-- ===== src/Sds/Certificates.antt =====
-- controllers/sds/sds.go and controllers/sds/tlssecret_controller.go: reading X.509 certificates.
-- Packages pem, x509 and sha256 are parameters.
use xds_controller.Prelude.{
  ℕ, ◌-◌, ◌*◌, ◌/◌, not, ◌||◌, if◌then◌else◌, Option, none, some, Text, Result, ok, err, ◌==◌,
  nat_eq, list_eq, List, codes, is_empty,
}
use xds_controller.Sds.{second}
use xds_controller.Sds.Errors.{Error, plain, bad_key_data, cert_type, text_contains}
use xds_controller.Sds.Secrets.{Secret}
use xds_controller.Sds.Status.{CertificateInfo}

-- x509.Certificate
pub record X509Cert : Type 0 where
  pub issuer : Text
  pub subject : Text
  pub dns_names : List Text
  pub not_before : ℕ
  pub not_after : ℕ
  pub serial_number : Text
  pub raw : Text

-- pem.Decode, whose block is its type and its bytes, x509.ParseCertificate, the hexadecimal SHA-256
-- sum, and strings.ToLower and strings.ToUpper
pub record Parsers : Type 0 where
  pub pem_decode : Text → Option (Text × Text)
  pub parse_certificate : Text → Result Error X509Cert
  pub fingerprint : Text → Text
  pub to_lower : Text → Text
  pub to_upper : Text → Text

abbrev pub certificate_type : Text
certificate_type = codes "CERTIFICATE"

-- get509Cert
unfoldable pub get_509_cert : Parsers → Text → Result Error X509Cert
get_509_cert x pub_key = elim (x.pem_decode pub_key) [
  | none ↦ err (plain bad_key_data)
  | some b ↦
      if not (b.0 == certificate_type) then err (plain cert_type) else x.parse_certificate b.1
]

-- the issuer that the status shows
unfoldable pub issuer_name : Parsers → X509Cert → Text
unfolding text_contains
issuer_name x c =
    let lower = x.to_lower c.issuer in
    if text_contains lower (codes "let's encrypt") || text_contains lower (codes "letsencrypt")
    then codes "Let's Encrypt"
    else if text_contains lower (codes "staging")
    then codes "Let's Encrypt (Staging)"
    else if c.issuer == c.subject
    then codes "Self-Signed"
    else c.issuer

-- extractCertificateInfo of a certificate's bytes; a certificate that has expired has no days left,
-- as the subtraction gives
unfoldable pub certificate_info_of : Parsers → ℕ → Text → Option CertificateInfo
unfolding get_509_cert issuer_name
certificate_info_of x now chain = if is_empty chain then none else elim (get_509_cert x chain) [
  | err e ↦ none
  | ok c ↦ some (record {
    issuer = issuer_name x c;
    subject = c.subject;
    dns_names = c.dns_names;
    not_before = c.not_before;
    not_after = c.not_after;
    days_until_expiry = (c.not_after - now) / (24 * 3600 * second);
    serial_number = c.serial_number;
    fingerprint = x.fingerprint c.raw;
  })
]

-- extractCertificateInfo
unfoldable pub extract_certificate_info : Parsers → ℕ → Secret → Option CertificateInfo
unfolding certificate_info_of
extract_certificate_info x now s = elim s.tls_certificate [
  | none ↦ none
  | some c ↦ certificate_info_of x now c.0
]
