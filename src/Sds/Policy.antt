-- ===== src/Sds/Policy.antt =====
-- controllers/sds/annotations.go: the retry policy and the force-renew annotation.
use xds_controller.Prelude.{
  ℕ, ◌-◌, Bool, false, if◌then◌else◌, Option, none, some, Text, lookup, lookup-delete,
  lookup-insert, delete, beq_of_eq, list_beq, ◌==◌, nat_eq, list_eq, [], ◌≡◌, ◌↔◌, refl, arith,
}
use xds_controller.Sds.{
  ℤ, pos, negsuc, nonpositive, int_ltb, Floats, RetryPolicy, bad_multiplier, normalize, delay_for,
  Meta, meta_duration, meta_multiplier, or_else, retry_base_key, retry_max_key, retry_policy_for,
  flag_set, is_force_renew, force_renew_request, clear_force_renew, force_renew_key,
  force_renewed_at_key, default_base_delay,
}

-- A policy that DelayFor can use: a positive base, a maximum that is no smaller, and a finite factor
-- of at least 1.
pub record IsUsable (x : Floats) (p : RetryPolicy x) : Type 0 where
  pub positive : nonpositive p.base_delay ≡ false
  pub ordered : int_ltb p.max_delay p.base_delay ≡ false
  pub factor : bad_multiplier x p.multiplier ≡ false

int_ltb_irrefl : (d : ℤ) → int_ltb d d ≡ false
int_ltb_irrefl (pos n) = ground arith
int_ltb_irrefl (negsuc n) = ground arith

normalize-IsUsable :
    (x : Floats) (p : RetryPolicy x) → bad_multiplier x x.two ≡ false → IsUsable x (normalize x p)
unfolding normalize
normalize-IsUsable x p two = record {
  positive = ground arith;
  ordered = ground (arith, int_ltb_irrefl p.base_delay, int_ltb_irrefl default_base_delay);
  factor = ground arith;
}

-- Whatever the annotations, the labels and the controller's defaults hold, the retry policy has a
-- positive base delay, a maximal delay no smaller than it, and a factor that is finite and at least
-- 1. The constant 2 is such a factor.
retry_policy_for-IsUsable :
    (x : Floats) (obj : Meta) (defaults : RetryPolicy x)
    → bad_multiplier x x.two ≡ false
    → IsUsable x (retry_policy_for x obj defaults)
unfolding retry_policy_for
retry_policy_for-IsUsable x obj defaults two =
    let policy = normalize x defaults in
    normalize-IsUsable x
      (record {
        base_delay = or_else x (meta_duration x obj retry_base_key) policy.base_delay;
        max_delay = or_else x (meta_duration x obj retry_max_key) policy.max_delay;
        multiplier = or_else x (meta_multiplier x obj) policy.multiplier;
      })
      two

-- Laws of float64: a product of a positive base and a power of a usable factor is a number, and a
-- number below that of a duration converts to no more than the duration.
pub record IsFloat (x : Floats) : Type 0 where
  pub scaled_is_number :
      (d : ℤ) (m : x.F) (n : ℕ)
      → nonpositive d ≡ false
      → bad_multiplier x m ≡ false
      → x.is_nan (x.scale (x.of_duration d) m n) ≡ false
  pub converts_below :
      (f : x.F) (d : ℤ)
      → x.is_nan f ≡ false
      → x.at_least f (x.of_duration d) ≡ false
      → int_ltb d (x.to_duration f) ≡ false

-- The wait before a retry is the base delay after the first failure, and never more than the maximal
-- delay of the normalized policy, however many failures there were. The laws of float64 hold, and the
-- constant 2 is a usable factor.
pub delay_for-bounded :
    (x : Floats) (p : RetryPolicy x) (count : ℕ)
    → IsFloat x
    → bad_multiplier x x.two ≡ false
    → (delay_for x p 1 ≡ (normalize x p).base_delay)
      × (int_ltb (normalize x p).max_delay (delay_for x p count) ≡ false)
unfolding delay_for
delay_for-bounded x p count fl two =
    let u = normalize-IsUsable x p two in
    let q = normalize x p in
    let f = x.scale (x.of_duration q.base_delay) q.multiplier (count - 1) in
    (
      ground arith,
      ground (
        arith,
        u.ordered,
        int_ltb_irrefl q.max_delay,
        fl.converts_below f q.max_delay,
        fl.scaled_is_number q.base_delay q.multiplier (count - 1) u.positive u.factor,
      ),
    )

-- The recorded request is empty exactly if nothing is requested, so a status that holds no request
-- cannot be taken for one that has been served.
force_renew_request_iff :
    (parse_bool : Text → Option Bool) (obj : Meta)
    → (force_renew_request parse_bool obj ≡ []) ↔ (is_force_renew parse_bool obj ≡ false)
unfolding force_renew_request is_force_renew
force_renew_request_iff parse_bool obj = (ground arith, ground arith)

keys_differ : (force_renewed_at_key == force_renew_key) ≡ false
unfolding list_beq
keys_differ = refl

-- After clearForceRenew no renewal is requested, and of the annotations only the request and the
-- record of the time have changed.
clear_force_renew_lem :
    (parse_bool : Text → Option Bool) (now key : Text) (obj : Meta)
    → (force_renew_request parse_bool (clear_force_renew now obj) ≡ [])
      × (lookup key (clear_force_renew now obj).annotations ≡ (
          if force_renewed_at_key == key
          then some now
          else if force_renew_key == key
          then none
          else lookup key obj.annotations))
unfolding force_renew_request is_force_renew flag_set clear_force_renew
clear_force_renew_lem parse_bool now key obj =
    let rest = delete force_renew_key obj.annotations in
    let gone : lookup force_renew_key (clear_force_renew now obj).annotations ≡ none = ground (
      arith,
      lookup-insert force_renewed_at_key force_renew_key now rest,
      lookup-delete force_renew_key force_renew_key obj.annotations,
      keys_differ,
      beq_of_eq force_renew_key force_renew_key refl,
    ) in
    (
      ground arith,
      ground (
        arith,
        lookup-insert force_renewed_at_key key now rest,
        lookup-delete force_renew_key key obj.annotations,
      ),
    )
