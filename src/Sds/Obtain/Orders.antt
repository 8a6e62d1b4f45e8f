-- ===== src/Sds/Obtain/Orders.antt =====
-- controllers/sds/sds.go: when a certificate is ordered.
use xds_controller.Prelude.{
  ℕ, Bool, true, false, not, ◌||◌, ok, nat_eq, list_eq, ◌≡◌, arith, Result-cases, inl, inr,
  is_empty,
}
use xds_controller.Sds.Certificates.{X509Cert, get_509_cert}
use xds_controller.Sds.Storage.{DomainConfig, Cert, Keeper, Stores, storage_read}
use xds_controller.Sds.Obtain.{
  Answers, Made, is_manual, secret_with, needs_renewal, renew_after, finish, renew_if_allowed,
  examine, create, make_secret,
}

module _ (x : Keeper) (w : Answers) where
  -- no certificate is to be ordered: this instance is not the leader, it is a dry run, or the
  -- certificate is supplied by hand
  abbrev pub may_not_order : DomainConfig → Bool
  may_not_order d = not w.is_leader || x.dry_run || is_manual d

  -- Nothing is ordered, and the stores are as they were.
  abbrev pub Untouched : ℕ → Stores → Made → Type 0
  Untouched n s m = (m.orders ≡ n) × (m.stores ≡ s)

  finish-Untouched :
      (d : DomainConfig) (s : Stores) (n : ℕ) (cert : Cert) (c : X509Cert)
      → Untouched n s (finish x w d s n cert c)
  unfolding finish
  finish-Untouched d s n cert c = (ground arith, ground arith)

  manual_stays :
      (force : Bool) (d : DomainConfig) (c : X509Cert)
      → is_manual d ≡ true
      → needs_renewal x w force d c ≡ false
  unfolding needs_renewal
  manual_stays force d c h = ground arith

  refused-Untouched :
      (d : DomainConfig) (s : Stores) (n : ℕ) (cert : Cert) (c : X509Cert)
      → (not w.is_leader || x.dry_run) ≡ true
      → Untouched n s (renew_if_allowed x w d s n cert c)
  unfolding renew_if_allowed
  refused-Untouched d s n cert c h = (ground arith, ground arith)

  examine-Untouched :
      (force : Bool) (d : DomainConfig) (s : Stores) (n : ℕ) (cert : Cert)
      → may_not_order d ≡ true
      → Untouched n s (examine x w force d s n cert)
  unfolding examine
  examine-Untouched force d s n cert h = elim (Result-cases (get_509_cert w.parsers cert.public)) [
    | inr (e, p) ↦ (ground arith, ground arith)
    | inl (c, p) ↦
        let end = finish-Untouched d s n cert c in
        let stays = manual_stays force d c in
        let refused = refused-Untouched d s n cert c in (ground arith, ground arith)
  ]

  -- An instance that is not the leader, a dry run, and a certificate that is supplied by hand: nothing
  -- is ordered and nothing is written, whatever is stored and whether a renewal is requested or not.
  pub idle_keeps_stores :
      (force : Bool) (d : DomainConfig) (s : Stores)
      → may_not_order d ≡ true
      → Untouched 0 s (make_secret x w force d s)
  unfolding make_secret create
  idle_keeps_stores force d s h = elim (Result-cases (storage_read x w.read_fault d s)) [
    | inl (cert, p) ↦ let end = examine-Untouched force d s 0 cert h in (ground arith, ground arith)
    | inr (e, p) ↦ (ground arith, ground arith)
  ]

  -- A stored certificate that is neither due nor different from what its domain asks for, and for which
  -- no renewal is requested, is served as it is: nothing is ordered or written, and the next renewal
  -- is planned by its expiration.
  pub healthy_is_kept :
      (d : DomainConfig) (s : Stores) (cert : Cert) (c : X509Cert)
      → storage_read x w.read_fault d s ≡ ok cert
      → get_509_cert w.parsers cert.public ≡ ok c
      → is_empty cert.public ≡ false
      → needs_renewal x w false d c ≡ false
      → make_secret x w false d s ≡ record {
        stores = s;
        orders = 0;
        fetched = record {
          secret = ok (secret_with d cert);
          renew_in = renew_after x w c;
          expiration = c.not_after;
        };
      }
  unfolding make_secret examine finish
  healthy_is_kept d s cert c reads parses whole fresh = ground arith
