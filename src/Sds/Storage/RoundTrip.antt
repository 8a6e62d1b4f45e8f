-- ===== src/Sds/Storage/RoundTrip.antt =====
-- pkg/xds/sds.go: what StorageConfigWrite has written, StorageConfigRead reads.
use xds_controller.Prelude.{
  false, Option, none, some, Text, ok, insert, lookup-insert, ◌==◌, nat_eq, list_eq, pair_eq, ◌≡◌,
  refl, arith, Option-cases, inl, inr, beq_of_eq,
}
use xds_controller.Sds.Storage.{
  DomainConfig, Cert, Keeper, Stores, is_partial, checked, kube_place, crt_path, key_path,
  read_files, decode_entry, read_vault, read_kube, storage_read, write_files, write_vault,
  write_kube, storage_write,
}

-- Laws of the packages: base64 can be undone, and the paths of the two files of a domain differ.
pub record AreNames (x : Keeper) (d : DomainConfig) : Type 0 where
  pub decode-encode : (t : Text) → x.names.decode (x.names.encode t) ≡ some t
  pub two_files : (key_path x d == crt_path x d) ≡ false

module _ (x : Keeper) where
  checked_whole : (c : Cert) → is_partial c ≡ false → checked c ≡ ok c
  checked_whole c whole = rw whole refl

  files_again :
      (d : DomainConfig) (c : Cert) (s : Stores)
      → AreNames x d
      → is_partial c ≡ false
      → read_files x d (write_files x d c s) ≡ ok c
  unfolding read_files write_files
  files_again d c s laws whole =
      let crt =
        lookup-insert (key_path x d) (crt_path x d) c.private
          (insert (crt_path x d) c.public s.files) in
      let crt' = lookup-insert (crt_path x d) (crt_path x d) c.public s.files in
      let key =
        lookup-insert (key_path x d) (key_path x d) c.private
          (insert (crt_path x d) c.public s.files) in
      ground (
        arith,
        crt,
        crt',
        key,
        laws.two_files,
        beq_of_eq (crt_path x d) (crt_path x d) refl,
        beq_of_eq (key_path x d) (key_path x d) refl,
      )

  entry_again :
      (d : DomainConfig) (c : Cert)
      → AreNames x d
      → is_partial c ≡ false
      → decode_entry x (some (x.names.encode c.public), some (x.names.encode c.private)) ≡ ok c
  unfolding decode_entry
  entry_again d c laws whole =
      ground (arith, laws.decode-encode c.public, laws.decode-encode c.private)

  kube_again :
      (d : DomainConfig) (c : Cert) (s : Stores) {s' : Stores}
      → is_partial c ≡ false
      → write_kube x d c s ≡ ok s'
      → read_kube x d s' ≡ ok c
  unfolding read_kube write_kube
  kube_again d c s {s'} whole wrote =
      let place = kube_place x.default_namespace d in
      let at =
        lookup-insert place place (record { certificate = c.public; key = c.private }) s.secrets in
      ground (arith, at, beq_of_eq place place refl)

  vault_again :
      (d : DomainConfig) (c : Cert) (s : Stores) {s' : Stores}
      → AreNames x d
      → is_partial c ≡ false
      → write_vault x d c s ≡ ok s'
      → read_vault x d s' ≡ ok c
  unfolding read_vault write_vault
  vault_again d c s {s'} laws whole wrote = elim (Option-cases d.config.vault) [
    | inl e ↦ ground arith
    | inr (v, e) ↦
        let place : Text × Text = (v.path, d.secret_name) in
        let entry : Option Text × Option Text =
          (some (x.names.encode c.public), some (x.names.encode c.private)) in
        let at = lookup-insert place place entry s.vaults in
        ground (arith, at, beq_of_eq place place refl, entry_again d c laws whole)
  ]

  -- A certificate with both of its parts that StorageConfigWrite has written is what StorageConfigRead
  -- reads, with each kind of storage. The calls do not fail, it is no dry run, base64 can be undone,
  -- and the two files of a domain have different paths.
  pub storage_read-write :
      (d : DomainConfig) (c : Cert) (s : Stores) {s' : Stores}
      → AreNames x d
      → x.dry_run ≡ false
      → is_partial c ≡ false
      → storage_write x none d c s ≡ ok s'
      → storage_read x none d s' ≡ ok c
  unfolding storage_read storage_write
  storage_read-write d c s {s'} laws wet whole wrote = ground (
    arith,
    files_again d c s laws whole,
    kube_again d c s {s' = s'} whole,
    vault_again d c s {s' = s'} laws whole,
  )
