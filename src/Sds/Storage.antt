-- ===== src/Sds/Storage.antt =====
-- pkg/xds/types/sds.go and pkg/xds/sds.go: where the certificate of a domain is kept, and
-- StorageConfigRead and StorageConfigWrite. The file system, Vault and the API server are maps; what
-- makes one of their calls fail is an input, and a write that fails leaves what was. The throttling
-- wait and the cancellation of the context are left out, and a Vault entry holds texts.
pub mod RoundTrip
pub mod Choice
pub mod Watch
use xds_controller.Prelude.{
  ℕ, Bool, true, false, not, ◌&&◌, ◌||◌, if◌then◌else◌, Option, none, some, Text, Map, Result, ok,
  err, lookup, insert, ◌==◌, nat_eq, list_eq, pair_eq, List, [], ◌∷◌, ◌++◌, codes, is_empty,
}
use xds_controller.Sds.Errors.{
  Error, Sentinel, plain, wrap, cert_not_found, cert_nil, vault_not_configured,
  k8s_client_not_configured,
}

pub record LocalConfig : Type 0 where
  pub path : Text
  pub expire_after_days : ℕ

pub record VaultConfig : Type 0 where
  pub path : Text
  pub url : Text
  pub token : Text
  pub skip_tls_verify : Bool

pub record KubernetesConfig : Type 0 where
  pub namespace : Text
  pub secret_name : Text

-- StorageConfig
pub record StorageConfig : Type 0 where
  pub type : Text
  pub local : Option LocalConfig
  pub vault : Option VaultConfig
  pub kubernetes : Option KubernetesConfig

pub record ChallengeConfig : Type 0 where
  pub challenge_type : Text
  pub dns01_provider : Text
  pub acme_env : Text

pub record DomainConfig : Type 0 where
  pub secret_name : Text
  pub domains : List Text
  pub challenge : Option ChallengeConfig
  pub config : StorageConfig

pub record Cert : Type 0 where
  pub public : Text
  pub private : Text

abbrev pub local_store : Text
local_store = codes "Local"

abbrev pub vault_store : Text
vault_store = codes "Vault"

abbrev pub kubernetes_store : Text
kubernetes_store = codes "Kubernetes"

-- a Secret of Kubernetes; both types that are read hold the same two keys
pub record KubeSecret : Type 0 where
  pub certificate : Text
  pub key : Text

-- filepath.Join, and base64 in both directions
pub record Names : Type 0 where
  pub file_path : Text → Text → Text
  pub encode : Text → Text
  pub decode : Text → Option Text

-- the configuration of the controller, as far as the storage reads it
pub record Keeper : Type 0 where
  pub names : Names
  pub default_namespace : Text
  pub has_client : Bool
  pub has_vault_client : Bool
  pub global_vault : Option VaultConfig
  pub dry_run : Bool

-- what is stored; an entry of Vault is its fields Pub and Priv
pub record Stores : Type 0 where
  pub files : Map Text Text
  pub vaults : Map (Text × Text) (Option Text × Option Text)
  pub secrets : Map (Text × Text) KubeSecret

-- len(cert.Pub) == 0 || len(cert.Priv) == 0
abbrev pub is_partial : Cert → Bool
is_partial c = is_empty c.public || is_empty c.private

abbrev pub checked : Cert → Result Error Cert
checked c = if is_partial c then err (plain cert_nil) else ok c

-- the namespace and the name of a Kubernetes Secret, by the configuration of a domain
unfoldable pub kube_place : Text → DomainConfig → Text × Text
kube_place default d = elim d.config.kubernetes [
  | none ↦ (default, d.secret_name)
  | some k ↦ (
    if is_empty k.namespace then default else k.namespace,
    if is_empty k.secret_name then d.secret_name else k.secret_name,
  )
]

abbrev pub local_path : DomainConfig → Text
local_path d = elim d.config.local [
  | none ↦ codes "./"
  | some l ↦ if is_empty l.path then codes "./" else l.path
]

module _ (x : Keeper) where
  abbrev pub crt_path : DomainConfig → Text
  crt_path d = x.names.file_path (local_path d) (d.secret_name ++ codes ".crt")

  abbrev pub key_path : DomainConfig → Text
  key_path d = x.names.file_path (local_path d) (d.secret_name ++ codes ".key")

  -- the case of local files
  unfoldable pub read_files : DomainConfig → Stores → Result Error Cert
  read_files d s = elim (lookup (crt_path d) s.files) [
    | none ↦ err (plain cert_not_found)
    | some pub_key ↦ elim (lookup (key_path d) s.files) [
      | none ↦ err (plain cert_not_found)
      | some priv_key ↦ checked (record { public = pub_key; private = priv_key })
    ]
  ]

  abbrev pub undecoded : Text → Error
  undecoded part = record {
    sentinel = none;
    text = codes "unable to decode " ++ part ++ codes " key";
  }

  -- the fields of an entry of Vault
  unfoldable pub decode_entry : Option Text × Option Text → Result Error Cert
  decode_entry (none, priv) = err (plain cert_nil)
  decode_entry (some p, none) = err (plain cert_nil)
  decode_entry (some p, some q) = elim (x.names.decode p) [
    | none ↦ err (undecoded (codes "public"))
    | some pub_key ↦ elim (x.names.decode q) [
      | none ↦ err (undecoded (codes "private"))
      | some priv_key ↦ checked (record { public = pub_key; private = priv_key })
    ]
  ]

  unfoldable pub read_vault : DomainConfig → Stores → Result Error Cert
  read_vault d s = elim d.config.vault [
    | none ↦ err (plain vault_not_configured)
    | some v ↦ elim (lookup (v.path, d.secret_name) s.vaults) [
      | none ↦ err (plain cert_not_found)
      | some entry ↦ decode_entry entry
    ]
  ]

  unfoldable pub read_kube : DomainConfig → Stores → Result Error Cert
  read_kube d s =
      if not x.has_client
      then err (plain k8s_client_not_configured)
      else elim (lookup (kube_place x.default_namespace d) s.secrets) [
        | none ↦ err (plain cert_not_found)
        | some k ↦ checked (record { public = k.certificate; private = k.key })
      ]

  abbrev pub unknown_store : Error
  unknown_store = record { sentinel = none; text = codes "unknown storage type" }

  -- StorageConfigRead; `fault` is the error of a call that fails for another reason than that there is
  -- nothing
  unfoldable pub storage_read : Option Error → DomainConfig → Stores → Result Error Cert
  storage_read (some fault) d s = err fault
  storage_read none d s =
      if d.config.type == local_store
      then read_files d s
      else if d.config.type == vault_store
      then read_vault d s
      else if d.config.type == kubernetes_store
      then read_kube d s
      else err unknown_store

  -- StorageConfigWrite, when none of its calls fails
  unfoldable pub write_files : DomainConfig → Cert → Stores → Stores
  write_files d c s = record s {
    files = insert (key_path d) c.private (insert (crt_path d) c.public s.files);
  }

  unfoldable pub write_vault : DomainConfig → Cert → Stores → Result Error Stores
  write_vault d c s = elim d.config.vault [
    | none ↦ err (plain vault_not_configured)
    | some v ↦
        if is_partial c
        then ok s
        else ok (record s {
          vaults =
              insert (v.path, d.secret_name)
                (some (x.names.encode c.public), some (x.names.encode c.private)) s.vaults;
        })
  ]

  unfoldable pub write_kube : DomainConfig → Cert → Stores → Result Error Stores
  write_kube d c s =
      if not x.has_client
      then err (plain k8s_client_not_configured)
      else ok (record s {
        secrets =
            insert (kube_place x.default_namespace d)
              (record { certificate = c.public; key = c.private }) s.secrets;
      })

  -- StorageConfigWrite
  unfoldable pub storage_write : Option Error → DomainConfig → Cert → Stores → Result Error Stores
  storage_write fault d c s = if x.dry_run then ok s else elim fault [
    | some e ↦ err e
    | none ↦
        if d.config.type == local_store
        then ok (write_files d c s)
        else if d.config.type == vault_store
        then write_vault d c s
        else if d.config.type == kubernetes_store
        then write_kube d c s
        else err unknown_store
  ]

  -- CheckVaultWriteAccess
  unfoldable pub check_vault_write_access : DomainConfig → Option Error
  check_vault_write_access d = elim d.config.vault [
    | none ↦ some (plain vault_not_configured)
    | some v ↦ if x.has_vault_client then none else some (plain vault_not_configured)
  ]
