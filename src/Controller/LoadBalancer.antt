-- ===== src/Controller/LoadBalancer.antt =====
-- internal/controller/loadbalancerconfig.go, and syncLoadBalancerConfiguration of gateway.go: the
-- configuration of a gateway's load balancer, with the certificates of its requests.
pub mod Spec
pub mod Arns
pub mod Order
use gateway_orchestrator.Prelude.{
  String, ◌<>◌, Bool, true, false, not, ◌&&◌, ◌||◌, Option, none, some, List, [], ◌∷◌, ◌++◌, Exec,
  Result, ok, err, ◌>>=◌, ◌>>◌, pure, raise, attempt, map_err, ◌==◌, contains, if◌then◌else◌,
}
use gateway_orchestrator.Go.Int.{ℤ, pos}
use gateway_orchestrator.Go.Format.{format_int}
use gateway_orchestrator.Go.Sort.{sort_strings}
use gateway_orchestrator.Api.Meta.{Error, wrap, NamespacedName}
use gateway_orchestrator.Api.Request.{Request}
use gateway_orchestrator.Api.Cluster.{LbConfig, LbSpec, ListenerConfig}
use gateway_orchestrator.Services.{Services, Library}
use gateway_orchestrator.Pool.{Pool}
use gateway_orchestrator.Pool.Defs.{config_name}
use gateway_orchestrator.Controller.Types.{Reconciler}

-- `httpPort` and `httpsPort`; the pool may be missing.
unfoldable pub http_port : Option Pool → ℤ
http_port none = pos 80
http_port (some p) = p.http_port

unfoldable pub https_port : Option Pool → ℤ
https_port none = pos 443
https_port (some p) = p.https_port

-- The HTTPS listener's map for the sorted certificates, none for no certificate.
unfoldable pub https_listener : ℤ → List String → List ListenerConfig
https_listener port [] = []
https_listener port (first ∷ []) =
    record {
      protocol_port = "HTTPS:" <> format_int port;
      default_certificate = some first;
      certificates = none;
    }
    ∷ []
https_listener port (first ∷ second ∷ others) =
    record {
      protocol_port = "HTTPS:" <> format_int port;
      default_certificate = some first;
      certificates = some (second ∷ others);
    }
    ∷ []

-- The spec that `ensureLoadBalancerConfiguration` builds.
unfoldable pub build_spec : Pool → List String → String → String → LbSpec
unfolding https_listener http_port https_port
build_spec pool arns visibility waf_arn = record {
  scheme = visibility;
  listener_configurations =
      https_listener (https_port (some pool)) (sort_strings arns)
      ++ record {
        protocol_port = "HTTP:" <> format_int (http_port (some pool));
        default_certificate = none;
        certificates = none;
      }
        ∷ [];
  waf_v2 = if waf_arn == "" then none else some waf_arn;
}

-- The test of the loop of `getGatewayCertificateARNs`: a request that is being deleted does not
-- count.
unfoldable pub holds_certificate : String → String → Request → Bool
holds_certificate gateway namespace ghr =
    elim ghr.meta.deletion_timestamp [ none ↦ true | some _ ↦ false ]
    && ((ghr.status.assigned_gateway == gateway)
        && ((ghr.status.assigned_gateway_namespace == namespace)
            && not (ghr.status.certificate_arn == "")))

unfoldable pub collect_arns : String → String → List Request → List String
unfolding holds_certificate
collect_arns gateway namespace [] = []
collect_arns gateway namespace (ghr ∷ items) =
    let rest = collect_arns gateway namespace items in
    if holds_certificate gateway namespace ghr then ghr.status.certificate_arn ∷ rest else rest

-- The new certificate behind the others, if it is not among them.
unfoldable pub add_arn : String → List String → List String
add_arn new arns = if (new == "") || contains arns new then arns else arns ++ new ∷ []

module _ {W : Type 0} (r : Reconciler W) where
  open r use {library as lib, services as sv, gateway_pool as pool}

  -- The end of `ensureLoadBalancerConfiguration`: an update keeps all but the spec of what exists.
  unfoldable pub create_config : String → String → LbSpec → Exec W Error (Unit {0})
  create_config gateway namespace spec =
      map_err (wrap ("failed to create LoadBalancerConfiguration " <> config_name gateway)) (
        sv.configs.create (record {
          namespace = namespace;
          name = config_name gateway;
          resource_version = "";
          spec = some spec;
        }))

  unfoldable pub update_config : String → LbConfig → LbSpec → Exec W Error (Unit {0})
  update_config gateway existing spec = do
    map_err (wrap ("failed to update LoadBalancerConfiguration " <> config_name gateway))
        (sv.configs.update (record existing { spec = some spec }))
    pure tt

  -- `ensureLoadBalancerConfiguration`
  unfoldable pub ensure_load_balancer_configuration :
      String → String → List String → String → String → Exec W Error (Unit {0})
  unfolding create_config update_config build_spec
  ensure_load_balancer_configuration gateway namespace arns visibility waf_arn = do
    found ← attempt (sv.configs.get (record { namespace = namespace; name = config_name gateway }))
    let spec = build_spec pool arns visibility waf_arn
    elim found [
      | ok existing ↦ update_config gateway existing spec
      | err e ↦
          if lib.is_not_found e
          then create_config gateway namespace spec
          else raise (wrap ("failed to get LoadBalancerConfiguration " <> config_name gateway) e)
    ]

  -- `getGatewayCertificateARNs`
  unfoldable pub get_gateway_certificate_arns : String → String → Exec W Error (List String)
  unfolding collect_arns
  get_gateway_certificate_arns gateway namespace = do
    items ← map_err (wrap "failed to list GatewayHostnameRequests") sv.list_requests
    pure (collect_arns gateway namespace items)

  -- `syncLoadBalancerConfiguration` (gateway.go)
  unfoldable pub sync_load_balancer_configuration :
      String → String → String → String → String → Exec W Error (Unit {0})
  unfolding get_gateway_certificate_arns add_arn ensure_load_balancer_configuration
  sync_load_balancer_configuration gateway namespace visibility waf_arn new_arn = do
    arns ← get_gateway_certificate_arns gateway namespace
    ensure_load_balancer_configuration gateway namespace (add_arn new_arn arns) visibility waf_arn

  -- `deleteLoadBalancerConfiguration`
  unfoldable pub delete_load_balancer_configuration : String → String → Exec W Error (Unit {0})
  delete_load_balancer_configuration gateway namespace = do
    deleted ← attempt (
        sv.configs.delete (record {
          namespace = namespace;
          name = config_name gateway;
          resource_version = "";
          spec = none;
        }))
    elim deleted [
      | ok _ ↦ pure tt
      | err e ↦
          if lib.is_not_found e
          then pure tt
          else raise (wrap ("failed to delete LoadBalancerConfiguration " <> config_name gateway) e)
    ]
