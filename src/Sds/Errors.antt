-- ===== src/Sds/Errors.antt =====
-- pkg/xds/err/err.go and controllers/sds/tlssecret_controller.go: the errors of certificate
-- operations. An error is its text with the one error of err.go that errors.Is finds in it, if any.
use xds_controller.Prelude.{
  Bool, true, false, ◌||◌, if◌then◌else◌, Option, none, some, Text, nat_eq, [], ◌∷◌, ◌++◌, codes,
  has_prefix,
}

pub data Sentinel : Type 0 where
  bad_key_data cert_type cert_not_found cert_nil vault_not_configured k8s_client_not_configured :
      Sentinel
  custom_env_replace service_busy rate_limited lets_encrypt_account : Sentinel

abbrev pub sentinel_text : Sentinel → Text
sentinel_text bad_key_data = codes "bad key data: not PEM-encoded"
sentinel_text cert_type = codes "cert type invalid"
sentinel_text cert_not_found = codes "cert not found"
sentinel_text cert_nil = codes "cert config is nil"
sentinel_text vault_not_configured = codes "vault not configured"
sentinel_text k8s_client_not_configured = codes "kubernetes client not configured"
sentinel_text custom_env_replace = codes "not even number of envs to replace"
sentinel_text service_busy = codes "service busy"
sentinel_text rate_limited = codes "rate limited"
sentinel_text lets_encrypt_account = codes "lets encrypt account key invalid"

abbrev pub get_cert_text : Text
get_cert_text = codes "get cert error"

abbrev pub read_cert_text : Text
read_cert_text = codes "read cert error"

abbrev pub write_cert_text : Text
write_cert_text = codes "write cert error"

pub record Error : Type 0 where
  pub sentinel : Option Sentinel
  pub text : Text

abbrev pub plain : Sentinel → Error
plain s = record { sentinel = some s; text = sentinel_text s }

-- fmt.Errorf(prefix+": %w", err)
abbrev pub wrap : Text → Error → Error
wrap prefix e = record { sentinel = e.sentinel; text = prefix ++ codes ": " ++ e.text }

-- errors.Is
abbrev pub same_sentinel : Sentinel → Sentinel → Bool
same_sentinel bad_key_data bad_key_data = true
same_sentinel cert_type cert_type = true
same_sentinel cert_not_found cert_not_found = true
same_sentinel cert_nil cert_nil = true
same_sentinel vault_not_configured vault_not_configured = true
same_sentinel k8s_client_not_configured k8s_client_not_configured = true
same_sentinel custom_env_replace custom_env_replace = true
same_sentinel service_busy service_busy = true
same_sentinel rate_limited rate_limited = true
same_sentinel lets_encrypt_account lets_encrypt_account = true
same_sentinel a b = false

abbrev pub is_error : Error → Sentinel → Bool
is_error e s = elim e.sentinel [ none ↦ false | some t ↦ same_sentinel t s ]

-- strings.Contains(s, p)
unfoldable pub text_contains : Text → Text → Bool
text_contains [] p = has_prefix [] p
text_contains (c ∷ s) p = has_prefix (c ∷ s) p || text_contains s p

-- errorClass
unfoldable pub error_class : Option Error → Text
error_class none = []
error_class (some e) =
    if is_error e rate_limited
    then codes "rate limited"
    else if is_error e service_busy
    then codes "service busy"
    else if is_error e cert_not_found
    then codes "cert not found"
    else if is_error e cert_nil
    then codes "cert nil"
    else if is_error e bad_key_data
    then codes "bad key data"
    else if is_error e vault_not_configured
    then codes "vault not configured"
    else if is_error e k8s_client_not_configured
    then codes "kubernetes client not configured"
    else if is_error e lets_encrypt_account
    then codes "lets encrypt account invalid"
    else if is_error e custom_env_replace
    then codes "custom env replace"
    else if text_contains e.text write_cert_text
    then codes "write cert"
    else if text_contains e.text read_cert_text
    then codes "read cert"
    else if text_contains e.text get_cert_text
    then codes "get cert"
    else codes "other"
