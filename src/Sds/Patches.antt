-- ===== src/Sds/Patches.antt =====
-- controllers/sds/tlssecret_controller.go: the updates of the status that Reconcile asks for.
use xds_controller.Prelude.{
  ℕ, zero, suc, ◌+◌, ◌-◌, ◌*◌, ◌/◌, ◌%◌, ◌^◌, true, false, if◌then◌else◌, Option, none, some, Text,
  ◌==◌, nat_eq, list_eq, [], ◌∷◌, ◌++◌, codes,
}
use xds_controller.Util.{with_defaults, get_node_id}
use xds_controller.Sds.{ℤ, pos, negsuc, second, pause_key}
use xds_controller.Sds.Errors.{Error}
use xds_controller.Sds.Status.{CertificateInfo, StatusPatch}
use xds_controller.Sds.Records.{TlsSecret, Setting}

-- Status.FailureCount + 1, an int32
unfoldable pub next_failure : ℤ → ℤ
next_failure (pos n) = if n + 1 == 2 ^ 31 then negsuc (2 ^ 31 - 1) else pos (n + 1)
next_failure (negsuc zero) = pos 0
next_failure (negsuc (suc n)) = negsuc n

-- a count as DelayFor reads it, for which all that are negative are alike
abbrev pub count_of : ℤ → ℕ
count_of (pos n) = n
count_of (negsuc n) = 0

-- now.Add(d), after the zero time
abbrev pub add_duration : ℕ → ℤ → ℕ
add_duration now (pos n) = now + n
add_duration now (negsuc n) = now - (n + 1)

abbrev pub fingerprint_of : Option CertificateInfo → Option Text
fingerprint_of none = none
fingerprint_of (some c) = some c.fingerprint

abbrev pub paused_patch : StatusPatch
paused_patch = record {
  active = false;
  active_nodes = [];
  next_renewal = [];
  cert_info = none;
  message = codes "Paused by " ++ pause_key ++ codes " annotation";
  paused = true;
  failure_count = pos 0;
  last_failure = none;
  backoff_until = none;
  next_retry = [];
  force_renew_request = [];
  preserve_existing = true;
  preserve_backoff = true;
}

module _ (x : Setting) where
  -- formatRenewIn
  unfoldable pub format_renew_in : ℤ → Text
  format_renew_in (negsuc n) = codes "0d 0h 0m"
  format_renew_in (pos n) =
      if n == 0
      then codes "0d 0h 0m"
      else (let hours = n / (3600 * second) in
          x.sprintf (codes "%dd %dh %dm") (hours / 24 ∷ hours % 24 ∷ n / (60 * second) % 60 ∷ []))

  -- the defaults of the object's annotations
  abbrev pub prepared : TlsSecret → TlsSecret
  prepared o = record o {
    meta = record o.meta {
      annotations = with_defaults x.defaults.node_id x.defaults.cluster o.meta.annotations;
    };
  }

  -- GetNodeID of the annotations
  abbrev pub node_of : TlsSecret → Text
  node_of o = get_node_id x.defaults.codec o.meta.annotations

  abbrev pub failure_patch : ℕ → ℤ → ℤ → Text → Error → StatusPatch
  failure_patch now count retry_in request e = record {
    active = false;
    active_nodes = [];
    next_renewal = [];
    cert_info = none;
    message = e.text;
    paused = false;
    failure_count = count;
    last_failure = some now;
    backoff_until = some (add_duration now retry_in);
    next_retry = x.duration_text retry_in;
    force_renew_request = request;
    preserve_existing = true;
    preserve_backoff = false;
  }

  abbrev pub success_patch : Text → Text → Option CertificateInfo → Text → StatusPatch
  success_patch node next_renewal info request = record {
    active = true;
    active_nodes = node ∷ [];
    next_renewal = next_renewal;
    cert_info = info;
    message = [];
    paused = false;
    failure_count = pos 0;
    last_failure = none;
    backoff_until = none;
    next_retry = [];
    force_renew_request = request;
    preserve_existing = false;
    preserve_backoff = false;
  }
