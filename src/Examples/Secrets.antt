-- ===== src/Examples/Secrets.antt =====
-- controllers/sds at concrete secrets, and with natural numbers for floats.
use xds_controller.Prelude.{
  ℕ, ◌*◌, ◌^◌, Bool, false, Option, none, some, Text, lookup, list_eq, nat_eq, [], ◌∷◌, codes, ltb,
  leb, ◌≡◌, refl, arith, list_beq,
}
use xds_controller.Sds.{
  ℤ, pos, negsuc, int_ltb, Floats, RetryPolicy, normalize, delay_for, Meta, force_renew_key,
}
use xds_controller.Sds.Policy.{IsFloat, delay_for-bounded}
use xds_controller.Sds.Conditions.{Condition}
use xds_controller.Sds.Secrets.{
  Secret, SecretConfigs, place_secret, without_name, remove_elsewhere, replace_first, secrets_equal,
}

abbrev pub to_nat : ℤ → ℕ
to_nat (pos n) = n
to_nat (negsuc n) = 0

abbrev pub naturals : Floats
naturals = record {
  F = ℕ;
  two = 2;
  of_duration = to_nat;
  to_duration = pos;
  scale = λ b m n. b * m ^ n;
  less_than_one = λ m. ltb m 1;
  is_nan = λ _. false;
  is_inf = λ _. false;
  at_least = λ a b. leb b a;
  parse_float = λ _. none;
  parse_duration = λ _. none;
}

converts : (f : ℕ) (d : ℤ) → leb (to_nat d) f ≡ false → int_ltb d (pos f) ≡ false
converts f (pos n) h = ground arith
converts f (negsuc n) h = ground arith

naturals-IsFloat : IsFloat naturals
naturals-IsFloat = record {
  scaled_is_number = λ d m n p q. refl;
  converts_below = λ f d p q. converts f d q;
}

abbrev renewing : Meta
renewing = record {
  annotations = (force_renew_key, []) ∷ (codes "note", codes "x") ∷ [];
  labels = [];
}

abbrev pub loose : RetryPolicy naturals
loose = record { base_delay = pos 5; max_delay = negsuc 3; multiplier = 0 }

abbrev pub no_bool : Text → Option Bool
no_bool _ = none

delay_for-bounded_example :
    (delay_for naturals loose 1 ≡ (normalize naturals loose).base_delay)
    × (int_ltb (normalize naturals loose).max_delay (delay_for naturals loose 9) ≡ false)
delay_for-bounded_example = delay_for-bounded naturals loose 9 naturals-IsFloat refl

abbrev cert : Secret
cert = record { name = codes "cert"; tls_certificate = some (codes "chain", codes "key") }

abbrev moved : SecretConfigs
moved = (codes "old", cert ∷ []) ∷ (codes "new", []) ∷ []

abbrev settled : SecretConfigs
settled = (codes "new", cert ∷ []) ∷ []

unmoved : (place_secret (codes "new") cert settled 4).1 ≡ 4
unfolding place_secret remove_elsewhere replace_first secrets_equal without_name lookup list_beq
unmoved = refl

abbrev ready : Text → ℕ → Condition
ready status time = record {
  type = codes "Ready";
  status = status;
  last_transition_time = time;
  reason = [];
  message = [];
  observed_generation = 1;
}
