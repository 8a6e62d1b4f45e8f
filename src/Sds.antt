-- ===== src/Sds.antt =====
-- controllers/sds/annotations.go and controllers/sds/tlssecret_controller.go: the retry policy of a
-- TLSSecret, its annotations, and the placing of its secret. Durations are Go's signed nanoseconds;
-- floating point numbers and the parsers of numbers are parameters. Pointers to objects are never
-- nil here.
pub mod Policy
pub mod Secrets
pub mod Conditions
pub mod Status
pub mod Errors
pub mod Certificates
pub mod Records
pub mod Patches
pub mod Attempt
pub mod Reconcile
pub mod Storage
pub mod Obtain
use xds_controller.Prelude.{
  ℕ, suc, ◌+◌, ◌-◌, ◌*◌, Bool, true, false, not, ◌&&◌, ◌||◌, if◌then◌else◌, Option, none, some,
  Text, Map, lookup, insert, delete, ◌==◌, nat_eq, list_eq, List, [], ◌∷◌, ◌++◌, is_empty, codes,
  ltb, leb, ◌≡◌, arith,
}

-- time.Duration: `negsuc n` is -(n + 1)
pub data ℤ : Type 0 where
  pos negsuc : ℕ → ℤ

-- d <= 0
abbrev pub nonpositive : ℤ → Bool
nonpositive (pos n) = n == 0
nonpositive (negsuc n) = true

abbrev pub int_ltb : ℤ → ℤ → Bool
int_ltb (pos m) (pos n) = ltb m n
int_ltb (pos m) (negsuc n) = false
int_ltb (negsuc m) (pos n) = true
int_ltb (negsuc m) (negsuc n) = ltb n m

-- float64, as far as the policy uses it
pub record Floats : Type 1 where
  pub F : Type 0
  pub two : F
  pub of_duration : ℤ → F
  pub to_duration : F → ℤ
  pub scale : F → F → ℕ → F  -- base * math.Pow(multiplier, n)
  pub less_than_one : F → Bool
  pub is_nan : F → Bool
  pub is_inf : F → Bool
  pub at_least : F → F → Bool
  pub parse_float : Text → Option F
  pub parse_duration : Text → Option ℤ

abbrev pub second : ℕ
second = 1000000000

abbrev pub default_base_delay : ℤ
default_base_delay = pos (10 * 60 * second)

abbrev pub default_max_delay : ℤ
default_max_delay = pos (168 * 3600 * second)

module _ (x : Floats) where
  pub record RetryPolicy : Type 0 where
    pub base_delay : ℤ
    pub max_delay : ℤ
    pub multiplier : x.F

  -- DefaultRetryPolicy
  pub default_retry_policy : RetryPolicy
  default_retry_policy = record {
    base_delay = default_base_delay;
    max_delay = default_max_delay;
    multiplier = x.two;
  }

  abbrev pub bad_multiplier : x.F → Bool
  bad_multiplier m = x.less_than_one m || x.is_nan m || x.is_inf m

  -- normalize
  unfoldable pub normalize : RetryPolicy → RetryPolicy
  normalize p =
      let base = if nonpositive p.base_delay then default_base_delay else p.base_delay in
      let max = if nonpositive p.max_delay then default_max_delay else p.max_delay in
      record {
        base_delay = base;
        max_delay = if int_ltb max base then base else max;
        multiplier = if bad_multiplier p.multiplier then x.two else p.multiplier;
      }

  -- DelayFor, for a failure count that is not negative
  unfoldable pub delay_for : RetryPolicy → ℕ → ℤ
  unfolding normalize
  delay_for q count =
      let p = normalize q in
      if leb count 1
      then p.base_delay
      else (let delay = x.scale (x.of_duration p.base_delay) p.multiplier (count - 1) in
          if x.is_inf delay || x.at_least delay (x.of_duration p.max_delay)
          then p.max_delay
          else x.to_duration delay)

-- the annotations and labels of an object
pub record Meta : Type 0 where
  pub annotations : Map Text Text
  pub labels : Map Text Text

-- metaValue
unfoldable pub meta_value : Meta → Text → Option Text
meta_value obj key = elim (lookup key obj.annotations) [
  | some v ↦ some v
  | none ↦ lookup key obj.labels
]

abbrev pub retry_base_key : Text
retry_base_key = codes "envoyxds.io/retry-base-delay"

abbrev pub retry_max_key : Text
retry_max_key = codes "envoyxds.io/retry-max-delay"

abbrev pub retry_multiplier_key : Text
retry_multiplier_key = codes "envoyxds.io/retry-multiplier"

abbrev pub pause_key : Text
pause_key = codes "envoyxds.io/pause"

abbrev pub force_renew_key : Text
force_renew_key = codes "envoyxds.io/force-renew"

abbrev pub force_renewed_at_key : Text
force_renewed_at_key = codes "envoyxds.io/force-renewed-at"

module _ (x : Floats) where
  -- metaDuration
  unfoldable pub meta_duration : Meta → Text → Option ℤ
  unfolding meta_value
  meta_duration obj key = elim (meta_value obj key) [
    | none ↦ none
    | some v ↦ if is_empty v then none else elim (x.parse_duration v) [
      | none ↦ none
      | some d ↦ if nonpositive d then none else some d
    ]
  ]

  abbrev pub or_else : {A : Type 0} → Option A → A → A
  or_else none a = a
  or_else (some b) a = b

  -- the multiplier of an object, if it parses and is at least 1; NaN is not
  unfoldable pub meta_multiplier : Meta → Option x.F
  unfolding meta_value
  meta_multiplier obj = elim (meta_value obj retry_multiplier_key) [
    | none ↦ none
    | some v ↦ elim (x.parse_float v) [
      | none ↦ none
      | some m ↦ if x.less_than_one m || x.is_nan m then none else some m
    ]
  ]

  -- RetryPolicyFor
  unfoldable pub retry_policy_for : Meta → RetryPolicy x → RetryPolicy x
  unfolding meta_duration meta_multiplier normalize
  retry_policy_for obj defaults =
      let policy = normalize x defaults in
      normalize x (record {
        base_delay = or_else (meta_duration obj retry_base_key) policy.base_delay;
        max_delay = or_else (meta_duration obj retry_max_key) policy.max_delay;
        multiplier = or_else (meta_multiplier obj) policy.multiplier;
      })

-- flagSet, with strconv.ParseBool
unfoldable pub flag_set : (Text → Option Bool) → Meta → Text → Bool
flag_set parse_bool obj key = elim (lookup key obj.annotations) [
  | none ↦ false
  | some v ↦ if is_empty v then true else elim (parse_bool v) [ none ↦ true | some b ↦ b ]
]

-- IsPaused
unfoldable pub is_paused : (Text → Option Bool) → Meta → Bool
unfolding flag_set
is_paused parse_bool obj = flag_set parse_bool obj pause_key

-- IsForceRenew
unfoldable pub is_force_renew : (Text → Option Bool) → Meta → Bool
unfolding flag_set
is_force_renew parse_bool obj = flag_set parse_bool obj force_renew_key

-- ForceRenewRequest
unfoldable pub force_renew_request : (Text → Option Bool) → Meta → Text
unfolding is_force_renew
force_renew_request parse_bool obj =
    if not (is_force_renew parse_bool obj)
    then []
    else elim (lookup force_renew_key obj.annotations) [
      | none ↦ codes "true"
      | some v ↦ if is_empty v then codes "true" else v
    ]

-- clearForceRenew, up to the patch that it sends; `now` is the time as text
unfoldable pub clear_force_renew : Text → Meta → Meta
clear_force_renew now obj = record {
  annotations = insert force_renewed_at_key now (delete force_renew_key obj.annotations);
  labels = delete force_renew_key obj.labels;
}

-- requeueInterval, with the configured refresh interval
unfoldable pub requeue_interval : ℤ → ℤ → ℤ
requeue_interval configured renew_in =
    let refresh = if nonpositive configured then pos (3600 * second) else configured in
    if nonpositive renew_in
    then pos (30 * second)
    else if int_ltb refresh renew_in
    then refresh
    else renew_in

-- certificateChanged, by the fingerprints
unfoldable pub certificate_changed : Option Text → Option Text → Bool
certificate_changed old none = false
certificate_changed none (some c) = true
certificate_changed (some o) (some c) = not (o == c)
