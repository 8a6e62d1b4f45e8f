-- ===== src/Sds/Obtain/Stored.antt =====
-- controllers/sds/sds.go: the certificate that is served is the one that is stored.
use xds_controller.Prelude.{
  ℕ, suc, Bool, true, false, not, ◌&&◌, ◌||◌, Option, none, some, Text, Result, ok, err, nat_eq,
  list_eq, ◌≡◌, arith, Result-cases, result_cases, inl, inr, is_empty, if_cases, subst,
}
use xds_controller.Sds.Errors.{Error, is_error, cert_not_found, cert_nil}
use xds_controller.Sds.Secrets.{Secret}
use xds_controller.Sds.Certificates.{X509Cert, get_509_cert}
use xds_controller.Sds.Storage.{
  DomainConfig, Cert, Keeper, Stores, is_partial, storage_read, storage_write,
}
use xds_controller.Sds.Storage.RoundTrip.{AreNames, storage_read-write}
use xds_controller.Sds.Obtain.{
  Answers, Made, is_manual, failing, access_error, needs_renewal, finish, order, renew,
  renew_if_allowed, examine, create, make_secret,
}
use xds_controller.Sds.Obtain.Orders.{may_not_order}

module _ (x : Keeper) (w : Answers) where
  -- A secret is backed by the stores if its certificate is what they hold. Only where none may be
  -- ordered has it no certificate.
  abbrev pub IsHeld : DomainConfig → Stores → Option (Text × Text) → Type 0
  IsHeld d s none = may_not_order x w d ≡ true
  IsHeld d s (some p) = storage_read x none d s ≡ ok (record { public = p.0; private = p.1 })

  abbrev pub IsBacked : DomainConfig → Stores → Result Error Secret → Type 0
  IsBacked d s (err e) = Unit {0}
  IsBacked d s (ok sds) = IsHeld d s sds.tls_certificate

  abbrev pub Backed : DomainConfig → Made → Type 0
  Backed d m = IsBacked d m.stores m.fetched.secret

  finish-Backed :
      (d : DomainConfig) (s : Stores) (n : ℕ) (cert : Cert) (c : X509Cert)
      → storage_read x none d s ≡ ok cert
      → Backed d (finish x w d s n cert c)
  unfolding finish
  finish-Backed d s n cert c holds =
      if_cases (Backed d) (is_empty cert.private && is_empty cert.public) (λ e. tt) (λ e. holds)

  unfaulted :
      (fault : Option Error) (d : DomainConfig) (c : Cert) (s : Stores) {s' : Stores}
      → x.dry_run ≡ false
      → storage_write x fault d c s ≡ ok s'
      → storage_write x none d c s ≡ ok s'
  unfolding storage_write
  unfaulted none d c s wet wrote = wrote
  unfaulted (some e) d c s wet wrote = absurd (ground arith)

  pub order_stores :
      (d : DomainConfig) (s : Stores) (n : ℕ) {s' : Stores} {cert : Cert}
      → AreNames x d
      → x.dry_run ≡ false
      → ((got : Cert) → w.issue n ≡ ok got → is_partial got ≡ false)
      → order x w d s n ≡ ok (s', cert)
      → storage_read x none d s' ≡ ok cert
  unfolding order
  order_stores d s n {s'} {cert} laws wet whole ordered = elim (Result-cases (w.issue n)) [
    | inr (e, p) ↦ absurd (ground arith)
    | inl (got, p) ↦ elim (Result-cases (storage_write x (w.write_fault n) d got s)) [
      | inr (e, q) ↦ absurd (ground arith)
      | inl (t, q) ↦
          let stores : t ≡ s' = ground arith in
          let same : got ≡ cert = ground arith in
          let read =
            storage_read-write x d got s laws wet (whole got p)
              (unfaulted (w.write_fault n) d got s wet q) in
          ground (arith, read)
    ]
  ]

  -- A law of the CertGetter: what it issues has both of its parts.
  abbrev pub IssuesWhole : Type 0
  IssuesWhole = (n : ℕ) (cert : Cert) → w.issue n ≡ ok cert → is_partial cert ≡ false

  renew-Backed :
      (d : DomainConfig) (s : Stores) (n : ℕ)
      → AreNames x d
      → x.dry_run ≡ false
      → IssuesWhole
      → Backed d (renew x w d s n)
  unfolding renew
  renew-Backed d s n laws wet whole =
      result_cases (Backed d) (order x w d s n)
        (λ p made.
          result_cases (Backed d) (get_509_cert w.parsers p.1.public)
            (λ c parses.
              finish-Backed d p.0 (suc n) p.1 c (order_stores d s n laws wet (whole n) made))
            (λ e fails. tt))
        (λ e fails. tt)

  refusal-Backed :
      (d : DomainConfig) (s : Stores) (n : ℕ) (cert : Cert) (c : X509Cert)
      → AreNames x d
      → IssuesWhole
      → storage_read x none d s ≡ ok cert
      → Backed d (renew_if_allowed x w d s n cert c)
  unfolding renew_if_allowed
  refusal-Backed d s n cert c laws whole holds =
      if_cases (Backed d) (not w.is_leader) (λ follows. holds)
        (λ leads.
          if_cases (Backed d) x.dry_run (λ dry. holds)
            (λ wet.
              if_cases (Backed d) (is_empty cert.private && is_empty cert.public) (λ bad. tt)
                (λ good.
                  elim (access_error x d)
                    as (λ o.
                      Backed d (elim o [ some e ↦ failing s n e | none ↦ renew x w d s n ])) [
                        | some e ↦ tt
                        | none ↦ renew-Backed d s n laws wet whole
                      ])))

  examine-Backed :
      (force : Bool) (d : DomainConfig) (s : Stores) (n : ℕ) (cert : Cert)
      → AreNames x d
      → IssuesWhole
      → storage_read x none d s ≡ ok cert
      → Backed d (examine x w force d s n cert)
  unfolding examine
  examine-Backed force d s n cert laws whole holds =
      result_cases (Backed d) (get_509_cert w.parsers cert.public)
        (λ c parses.
          if_cases (Backed d) (needs_renewal x w force d c)
            (λ due. refusal-Backed d s n cert c laws whole holds)
            (λ fine. finish-Backed d s n cert c holds))
        (λ e fails. tt)

  create-Backed :
      (force : Bool) (d : DomainConfig) (s : Stores) (e : Error)
      → AreNames x d
      → IssuesWhole
      → Backed d (create x w force d s e)
  unfolding create
  create-Backed force d s e laws whole =
      if_cases (Backed d) (not w.is_leader) (λ follows. tt)
        (λ leads.
          if_cases (Backed d) (is_manual d || x.dry_run) (λ idle. ground arith)
            (λ busy.
              elim (access_error x d)
                as (λ o. Backed d (elim o [
                  | some f ↦ failing s 0 f
                  | none ↦ elim (order x w d s 0) [
                    | ok p ↦ examine x w force d p.0 1 p.1
                    | err g ↦ failing s 1 g
                  ]
                ])) [
                  | some f ↦ tt
                  | none ↦
                      let wet : x.dry_run ≡ false = ground arith in
                      result_cases (Backed d) (order x w d s 0)
                        (λ p made.
                          examine-Backed force d p.0 1 p.1 laws whole
                            (order_stores d s 0 laws wet (whole 0) made))
                        (λ g fails. tt)
                ]))

  -- If makeSecret returns a secret, then its certificate is the one that the stores hold afterwards,
  -- whether it was read, kept for the leader to renew, or ordered; and it has no certificate only
  -- where none may be ordered. Reading does not fail, base64 can be undone, the two files of a domain
  -- differ, and what the CertGetter issues has both of its parts.
  pub make_secret-Backed :
      (force : Bool) (d : DomainConfig) (s : Stores)
      → AreNames x d
      → IssuesWhole
      → w.read_fault ≡ none
      → Backed d (make_secret x w force d s)
  unfolding make_secret
  make_secret-Backed force d s laws whole readable =
      result_cases (Backed d) (storage_read x w.read_fault d s)
        (λ cert reads.
          examine-Backed force d s 0 cert laws whole
            (subst (λ f. storage_read x f d s ≡ ok cert) readable reads))
        (λ e fails.
          if_cases (Backed d) (is_error e cert_not_found || is_error e cert_nil)
            (λ absent. create-Backed force d s e laws whole) (λ other. tt))
