-- ===== src/Sds/Storage/Choice.antt =====
-- controllers/sds/sds.go and controllers/sds/tlssecret_controller.go: where GetSecret keeps the
-- certificate of a domain, and where the watch of Kubernetes Secrets takes it to be.
use xds_controller.Prelude.{
  not, ◌&&◌, if◌then◌else◌, Option, none, some, Text, ◌==◌, nat_eq, list_eq, pair_eq, List, [], ◌∷◌,
  is_empty,
}
use xds_controller.Sds.Storage.{
  VaultConfig, DomainConfig, Keeper, local_store, vault_store, kubernetes_store,
}

module _ (x : Keeper) where
  -- the type that GetSecret sets, whatever the configuration says
  unfoldable pub store_type : DomainConfig → Text
  store_type d = elim d.challenge [
    | some c ↦ elim d.config.vault [
      | some v ↦ vault_store
      | none ↦ elim x.global_vault [ some v ↦ vault_store | none ↦ kubernetes_store ]
    ]
    | none ↦ elim d.config.kubernetes [
      | some k ↦ kubernetes_store
      | none ↦
          let remote = if x.has_client then kubernetes_store else local_store in
          elim d.config.local [
            | none ↦ remote
            | some l ↦ if is_empty l.path then remote else local_store
          ]
    ]
  ]

  -- the storage that GetSecret completes for the type that it sets
  unfoldable pub with_storage : DomainConfig → DomainConfig
  unfolding store_type
  with_storage d =
      let type = store_type d in
      let c = d.config in
      let kubernetes =
        if type == kubernetes_store
        then (elim c.kubernetes [
          | some k ↦ some k
          | none ↦ some (record { namespace = x.default_namespace; secret_name = d.secret_name })
        ])
        else c.kubernetes in
      let vault =
        if type == vault_store
        then (elim c.vault [ some v ↦ some v | none ↦ x.global_vault ])
        else c.vault in
      record d { config = record c { type = type; kubernetes = kubernetes; vault = vault } }

-- a TLSSecret as the watch of Kubernetes Secrets sees it
pub record Watched : Type 0 where
  pub name : Text
  pub namespace : Text
  pub domain : DomainConfig

-- the storage type that resolveK8sSecretRef works with
unfoldable pub resolved_type : Option VaultConfig → DomainConfig → Text
resolved_type global d = if not (is_empty d.config.type) then d.config.type else elim d.challenge [
  | some c ↦ elim d.config.vault [
    | some v ↦ []
    | none ↦ elim global [ some v ↦ [] | none ↦ kubernetes_store ]
  ]
  | none ↦ elim d.config.kubernetes [
    | some k ↦ kubernetes_store
    | none ↦ elim d.config.local [
      | none ↦ kubernetes_store
      | some l ↦ if is_empty l.path then kubernetes_store else []
    ]
  ]
]

-- resolveK8sSecretRef: the namespace and the name, `none` for its empty texts
unfoldable pub resolve_k8s_secret_ref : Text → Option VaultConfig → Watched → Option (Text × Text)
unfolding resolved_type
resolve_k8s_secret_ref default global t =
    if not (resolved_type global t.domain == kubernetes_store)
    then none
    else (let home = if is_empty t.namespace then default else t.namespace in
        some (elim t.domain.config.kubernetes [
          | none ↦ (home, t.name)
          | some k ↦ (
            if is_empty k.namespace then home else k.namespace,
            if is_empty k.secret_name then t.name else k.secret_name,
          )
        ]))

-- findTLSSecretsForK8sSecret: the requests for a Secret that has changed
unfoldable pub find_tls_secrets :
    Text → Option VaultConfig → Text × Text → List Watched → List (Text × Text)
unfolding resolve_k8s_secret_ref
find_tls_secrets default global secret [] = []
find_tls_secrets default global secret (t ∷ ts) =
    let rest = find_tls_secrets default global secret ts in
    elim (resolve_k8s_secret_ref default global t) [
      | none ↦ rest
      | some place ↦
          if not (is_empty place.1) && place == secret then (t.namespace, t.name) ∷ rest else rest
    ]
