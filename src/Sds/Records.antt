-- ===== src/Sds/Records.antt =====
-- controllers/sds/tlssecret_controller.go: what Reconcile of a TLSSecret reads, keeps and returns.
-- What the API server, the clock and GetSecret answer during one reconcile is an input; the calls that
-- it makes are recorded in their order. Times are nanoseconds since Go's zero time.
use xds_controller.Prelude.{ℕ, Bool, Option, Text, Result, nat_eq, list_eq, List}
use xds_controller.Registry.Endpoints.{Defaults}
use xds_controller.Sds.{ℤ, pos, Floats, RetryPolicy, Meta}
use xds_controller.Sds.Errors.{Error}
use xds_controller.Sds.Secrets.{Secret, SecretConfigs}
use xds_controller.Sds.Status.{TlsStatus, StatusPatch}
use xds_controller.Sds.Certificates.{Parsers}

pub record TlsSecret : Type 0 where
  pub name : Text
  pub meta : Meta
  pub generation : ℕ
  pub status : TlsStatus

-- what GetSecret returns; an expiration of 0 is the zero time
pub record Fetched : Type 0 where
  pub secret : Result Error Secret
  pub renew_in : ℤ
  pub expiration : ℕ

-- Packages time, strconv and fmt, the configuration, and what the API server keeps of a time, which is
-- stored in whole seconds.
pub record Setting : Type 1 where
  pub floats : Floats
  pub parsers : Parsers
  pub defaults : Defaults
  pub retry : RetryPolicy floats
  pub status_refresh_interval : ℤ
  pub parse_bool : Text → Option Bool
  pub format_time : ℕ → Text
  pub stored_time : ℕ → ℕ
  pub duration_text : ℤ → Text
  pub sprintf : Text → List ℕ → Text

-- The answers of one reconcile: the readings of the clock, what the API server returns for the patch
-- of the cert-expiration annotation, and the generation of what it returns for the patch of the
-- force-renew annotation; `none` is an error.
pub record World : Type 0 where
  pub shutdown : Bool
  pub now : ℕ
  pub failed_at : ℕ
  pub finished_at : ℕ
  pub is_leader : Bool
  pub get_secret : Bool → Fetched
  pub patched_expiration : Option TlsSecret
  pub cleared_generation : Option ℕ

pub data Call : Type 0 where
  get_certificate : Bool → Call
  patch_expiration patch_force_renew : Meta → Call
  write_status : ℕ → StatusPatch → Call

-- the fields of the reconciler and of its Config
pub record SecretState : Type 0 where
  pub has_domain_configs : Bool
  pub domain_configs_reconciled : Bool
  pub reconciling : ℕ
  pub secret_configs : SecretConfigs
  pub counter : ℕ

pub data Reply : Type 0 where
  requeue : ℤ → Reply
  failed : Reply

pub record Outcome : Type 0 where
  pub state : SecretState
  pub calls : List Call
  pub reply : Reply

-- reconcile.Result{}, which is not requeued
abbrev pub finished : Reply
finished = requeue (pos 0)
