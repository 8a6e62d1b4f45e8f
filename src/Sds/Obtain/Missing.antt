-- ===== src/Sds/Obtain/Missing.antt =====
-- controllers/sds/sds.go: what is ordered when no certificate is stored.
use xds_controller.Prelude.{
  ℕ, suc, Bool, true, false, ◌&&◌, none, ok, err, nat_eq, list_eq, ◌≡◌, refl, arith, result_cases,
  is_empty, if_cases, sym, subst, ap, ◌∙◌,
}
use xds_controller.Sds.Errors.{Error, is_error, cert_not_found}
use xds_controller.Sds.Certificates.{X509Cert, get_509_cert}
use xds_controller.Sds.Storage.{
  DomainConfig, Cert, Keeper, Stores, is_partial, storage_read, storage_write,
}
use xds_controller.Sds.Storage.RoundTrip.{AreNames}
use xds_controller.Sds.Obtain.{
  Answers, Made, returning, secret_with, access_error, needs_renewal, renew_after, finish, order,
  renew, renew_if_allowed, examine, create, make_secret,
}
use xds_controller.Sds.Obtain.Orders.{may_not_order, healthy_is_kept}
use xds_controller.Sds.Obtain.Stored.{order_stores}

module _ (x : Keeper) (w : Answers) where
  order_ok :
      (d : DomainConfig) (s : Stores) (n : ℕ) {s' : Stores} {cert : Cert}
      → w.issue n ≡ ok cert
      → storage_write x (w.write_fault n) d cert s ≡ ok s'
      → order x w d s n ≡ ok (s', cert)
  unfolding order
  order_ok d s n issued wrote = rw (issued, order) (rw wrote refl)

  create_ok :
      (force : Bool) (d : DomainConfig) (s : Stores) (e : Error) {s' : Stores} {cert : Cert}
      → may_not_order x w d ≡ false
      → access_error x d ≡ none
      → storage_read x w.read_fault d s ≡ err e
      → is_error e cert_not_found ≡ true
      → order x w d s 0 ≡ ok (s', cert)
      → make_secret x w force d s ≡ examine x w force d s' 1 cert
  unfolding make_secret create
  create_ok force d s e may access reads absent ordered = ground arith

  examine_fresh :
      (d : DomainConfig) (s : Stores) (n : ℕ) (cert : Cert) (c : X509Cert)
      → get_509_cert w.parsers cert.public ≡ ok c
      → is_empty cert.public ≡ false
      → needs_renewal x w false d c ≡ false
      → examine x w false d s n cert
        ≡ returning s n (secret_with d cert) (renew_after x w c) c.not_after
  unfolding examine finish
  examine_fresh d s n cert c parses whole fresh = ground arith

  -- A leader finds no certificate, may order one, may use the storage, is issued a whole one that it
  -- can write and parse, and neither is a renewal requested nor the certificate due or drifted. Then it
  -- orders one, and returns it. A call of makeSecret after that, on the stores which the first has left,
  -- by an instance of the same configuration, leader or not, returns the same certificate, orders
  -- nothing and writes nothing, if reading does not fail, the certificate parses as before, and again
  -- no renewal is requested and the certificate is neither due nor drifted. Base64 can be undone, and
  -- the two files of a domain differ.
  pub missing_is_ordered_once :
      (later : Answers) (d : DomainConfig) (s s' : Stores) (e : Error) (cert : Cert) (c : X509Cert)
      → AreNames x d
      → may_not_order x w d ≡ false
      → access_error x d ≡ none
      → storage_read x w.read_fault d s ≡ err e
      → is_error e cert_not_found ≡ true
      → w.issue 0 ≡ ok cert
      → is_partial cert ≡ false
      → storage_write x (w.write_fault 0) d cert s ≡ ok s'
      → get_509_cert w.parsers cert.public ≡ ok c
      → needs_renewal x w false d c ≡ false
      → later.read_fault ≡ none
      → get_509_cert later.parsers cert.public ≡ ok c
      → needs_renewal x later false d c ≡ false
      → let first = make_secret x w false d s in
        let next = make_secret x later false d first.stores in
        (first.orders ≡ 1)
        × (first.fetched.secret ≡ ok (secret_with d cert))
        × (next.orders ≡ 0)
        × (next.stores ≡ first.stores)
        × (next.fetched.secret ≡ ok (secret_with d cert))
  missing_is_ordered_once later d s s' e cert c laws may access reads absent issued whole wrote
        parses fresh readable parses' fresh' =
      let ordered = order_ok d s 0 issued wrote in
      let full : is_empty cert.public ≡ false = ground arith in
      let made : make_secret x w false d s
          ≡ returning s' 1 (secret_with d cert) (renew_after x w c) c.not_after =
        create_ok false d s e may access reads absent ordered
        ∙ examine_fresh d s' 1 cert c parses full fresh in
      let wet : x.dry_run ≡ false = ground arith in
      let holds : storage_read x none d s' ≡ ok cert =
        order_stores x w d s 0 laws wet (λ got is. ground arith) ordered in
      let kept =
        healthy_is_kept x later d s' cert c
          (subst (λ f. storage_read x f d s' ≡ ok cert) (sym readable) holds) parses' full fresh' in
      rw (made, kept) (refl, refl, refl, refl, refl)

  renew_orders : (d : DomainConfig) (s : Stores) (n : ℕ) → (renew x w d s n).orders ≡ suc n
  unfolding renew finish
  renew_orders d s n =
      result_cases (λ (m : Made). m.orders ≡ suc n) (order x w d s n)
        (λ p made.
          result_cases (λ (m : Made). m.orders ≡ suc n) (get_509_cert w.parsers p.1.public)
            (λ c parses.
              if_cases (λ (m : Made). m.orders ≡ suc n)
                (is_empty p.1.private && is_empty p.1.public) (λ e. refl) (λ e. refl))
            (λ e fails. refl))
        (λ e fails. refl)

  examine_forced :
      (d : DomainConfig) (s : Stores) (n : ℕ) (cert : Cert) (c : X509Cert)
      → may_not_order x w d ≡ false
      → access_error x d ≡ none
      → get_509_cert w.parsers cert.public ≡ ok c
      → is_empty cert.public ≡ false
      → (examine x w true d s n cert).orders ≡ suc n
  unfolding examine renew_if_allowed needs_renewal
  examine_forced d s n cert c may access parses full = ground (arith, renew_orders d s n)

  -- A leader finds no certificate while a renewal is requested; it is no dry run, the domain is not
  -- manual, and the storage may be used. If it is issued a whole certificate that it can write and
  -- parse, then it orders a second one in the same call, because of the request, whatever the answer to
  -- the second order is.
  pub missing_is_ordered_twice :
      (d : DomainConfig) (s s' : Stores) (e : Error) (cert : Cert) (c : X509Cert)
      → may_not_order x w d ≡ false
      → access_error x d ≡ none
      → storage_read x w.read_fault d s ≡ err e
      → is_error e cert_not_found ≡ true
      → w.issue 0 ≡ ok cert
      → is_partial cert ≡ false
      → storage_write x (w.write_fault 0) d cert s ≡ ok s'
      → get_509_cert w.parsers cert.public ≡ ok c
      → (make_secret x w true d s).orders ≡ 2
  missing_is_ordered_twice d s s' e cert c may access reads absent issued whole wrote parses =
      let full : is_empty cert.public ≡ false = ground arith in
      ap (λ (m : Made). m.orders)
        (create_ok true d s e may access reads absent (order_ok d s 0 issued wrote))
      ∙ examine_forced d s' 1 cert c may access parses full
