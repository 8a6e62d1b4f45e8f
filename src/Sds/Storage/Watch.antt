-- ===== src/Sds/Storage/Watch.antt =====
-- controllers/sds/tlssecret_controller.go: which TLSSecrets a changed Kubernetes Secret concerns.
use xds_controller.Prelude.{
  true, false, if◌then◌else◌, none, some, ◌==◌, nat_eq, list_eq, pair_eq, [], ◌∷◌, is_empty, ◌≡◌,
  arith, list_beq,
}
use xds_controller.Sds.Storage.{Keeper, kube_place, kubernetes_store}
use xds_controller.Sds.Storage.Choice.{
  Watched, store_type, with_storage, resolve_k8s_secret_ref, find_tls_secrets,
}

module _ (x : Keeper) where
  -- For a TLSSecret of the default namespace whose storage type is left open, the watch of Kubernetes
  -- Secrets and GetSecret agree: the watch names a Secret exactly if GetSecret chooses Kubernetes, and
  -- then it is the one that is read. The controller has a client, and the name of the TLSSecret, which
  -- is not empty, is the secret's.
  pub watch_matches_storage :
      (t : Watched)
      → x.has_client ≡ true
      → is_empty t.domain.config.type ≡ true
      → t.namespace ≡ x.default_namespace
      → t.domain.secret_name ≡ t.name
      → resolve_k8s_secret_ref x.default_namespace x.global_vault t ≡ (
          if store_type x t.domain == kubernetes_store
          then some (kube_place x.default_namespace (with_storage x t.domain))
          else none)
  unfolding resolve_k8s_secret_ref with_storage kube_place list_beq
  watch_matches_storage t client unset same name = ground (arith, same, name)

  -- The Secret that GetSecret reads for a TLSSecret of another namespace, if its configuration names
  -- none: the default namespace's. A change of that Secret is not seen as a change of the TLSSecret.
  pub watch_misses_storage :
      (t : Watched)
      → store_type x t.domain ≡ kubernetes_store
      → t.domain.config.kubernetes ≡ none
      → is_empty t.namespace ≡ false
      → (t.namespace == x.default_namespace) ≡ false
      → find_tls_secrets x.default_namespace x.global_vault
          (kube_place x.default_namespace (with_storage x t.domain))
          (t ∷ [])
        ≡ []
  unfolding find_tls_secrets with_storage kube_place list_beq
  watch_misses_storage t reads unset named elsewhere = ground arith
