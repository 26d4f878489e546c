-- ===== src/Api/Request.antt =====
-- api/v1alpha1/gatewayhostnamerequest_types.go
use gateway_orchestrator.Prelude.{ℕ, String, Option, List}
use gateway_orchestrator.Api.Meta.{ObjectMeta, Condition, LabelSelector, NamespacedName}

pub record RequestSpec : Type 0 where
  pub zone_id : String
  pub hostname : String
  pub environment : String
  pub visibility : String
  pub gateway_class : String
  pub gateway_selector : Option LabelSelector
  pub waf_arn : String

pub record RequestStatus : Type 0 where
  pub observed_generation : ℕ
  pub observed_spec_hash : String
  pub assigned_gateway : String
  pub assigned_gateway_namespace : String
  pub assigned_load_balancer : String
  pub certificate_arn : String
  pub conditions : List Condition

-- `GatewayHostnameRequest`
pub record Request : Type 0 where
  pub meta : ObjectMeta
  pub spec : RequestSpec
  pub status : RequestStatus

-- `client.ObjectKeyFromObject`
abbrev pub key_of : Request → NamespacedName
key_of r = record { namespace = r.meta.namespace; name = r.meta.name }
