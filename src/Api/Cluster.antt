-- ===== src/Api/Cluster.antt =====
-- The shape of the Gateway API's Gateway, of a Namespace and of the AWS controller's
-- LoadBalancerConfiguration: the fields that the program reads or writes. `resource_version`
-- stands for what an update sends back unread.
use gateway_orchestrator.Prelude.{String, Option, List}
use gateway_orchestrator.Prelude.Dict.{Dict}
use gateway_orchestrator.Go.Int.{ℤ}

pub record RouteNamespaces : Type 0 where
  pub from : Option String

pub record AllowedRoutes : Type 0 where
  pub namespaces : Option RouteNamespaces

pub record ListenerTls : Type 0 where
  pub mode : Option String
  pub options : Dict String

pub record Listener : Type 0 where
  pub name : String
  pub protocol : String
  pub port : ℤ
  pub allowed_routes : Option AllowedRoutes
  pub tls : Option ListenerTls

pub record ParametersRef : Type 0 where
  pub group : String
  pub kind : String
  pub name : String

pub record Address : Type 0 where
  pub type : Option String
  pub value : String

pub record Gateway : Type 0 where
  pub namespace : String
  pub name : String
  pub resource_version : String
  pub annotations : Dict String
  pub labels : Dict String
  pub gateway_class_name : String
  pub parameters_ref : Option ParametersRef
  pub listeners : List Listener
  pub addresses : List Address

pub record Namespace : Type 0 where
  pub name : String
  pub resource_version : String
  pub labels : Dict String

-- The maps that `ensureLoadBalancerConfiguration` builds; an absent key is `none`.
pub record ListenerConfig : Type 0 where
  pub protocol_port : String
  pub default_certificate : Option String
  pub certificates : Option (List String)

pub record LbSpec : Type 0 where
  pub scheme : String
  pub listener_configurations : List ListenerConfig
  pub waf_v2 : Option String

-- The unstructured object, with its `spec`.
pub record LbConfig : Type 0 where
  pub namespace : String
  pub name : String
  pub resource_version : String
  pub spec : Option LbSpec
