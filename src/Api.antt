-- ===== src/Api.antt =====
-- apis/v1alpha1/route_types.go and pkg/xds/types/route/route.go: a Route object, as far as the
-- controllers read it. The HTTP connection manager settings are carried unread.
use xds_controller.Prelude.{ℕ, Bool, Option, List, Text, Map}
use xds_controller.Util.{RouteAge}

-- rds.VirtualHost, by its domains; `none` is a nil entry of the list
abbrev pub VirtualHost : Type 0
VirtualHost = Option (List Text)

pub record Route : Type 0 where
  pub age : RouteAge
  pub open age use *
  pub namespace : Text
  pub generation : ℕ
  pub annotations : Map Text Text
  pub listener_refs : List Text
  pub tls_secret_ref : Text
  pub tls_secret_refs : List Text
  pub has_filter_chain_match : Bool
  pub virtual_hosts : Option (List VirtualHost)
