-- ===== src/Controller/Gateway.antt =====
-- internal/controller/gateway.go: what is kept right on a gateway and on the request's namespace.
-- Also ensureGatewayConfiguration of gatewayhostnamerequest_controller.go.
pub mod Converge
pub mod Capacity
use gateway_orchestrator.Prelude.{
  String, ◌<>◌, Bool, true, false, not, ◌&&◌, ◌||◌, Option, none, some, List, [], ◌∷◌, Exec, Result,
  ok, err, ◌>>=◌, ◌>>◌, pure, raise, attempt, map_err, ◌==◌, if◌then◌else◌,
}
use gateway_orchestrator.Prelude.Dict
use gateway_orchestrator.Prelude.Dict.{Dict}
use gateway_orchestrator.Api.Meta.{Error, errorf, wrap, NamespacedName}
use gateway_orchestrator.Api.Request.{Request}
use gateway_orchestrator.Api.Cluster.{Gateway, Namespace, Listener, AllowedRoutes}
use gateway_orchestrator.Services.{Services}
use gateway_orchestrator.Pool.Defs.{visibility_key, waf_key, config_key, config_name, from_all}
use gateway_orchestrator.Controller.Types.{Reconciler, visibility_or_default}
use gateway_orchestrator.Controller.LoadBalancer.{sync_load_balancer_configuration}

-- `LabelGatewayAccess`
abbrev pub label_gateway_access : String
label_gateway_access = "gateway.opendi.com/access"

abbrev pub gateway_key : Request → NamespacedName
gateway_key ghr = record {
  namespace = ghr.status.assigned_gateway_namespace;
  name = ghr.status.assigned_gateway;
}

abbrev pub namespace_key : Request → NamespacedName
namespace_key ghr = record { namespace = ""; name = ghr.meta.namespace }

-- `needsUpdate` of `ensureAllowedRoutes`, for one listener.
unfoldable pub needs_update : Listener → Bool
needs_update l = elim l.allowed_routes [
  | none ↦ true
  | some routes ↦ elim routes.namespaces [
    | none ↦ true
    | some n ↦ elim n.from [ none ↦ true | some f ↦ not (f == "All") ]
  ]
]

-- The loop over the listeners: the listeners it leaves, and `updated`.
unfoldable pub allow_all : List Listener → List Listener
unfolding needs_update
allow_all [] = []
allow_all (l ∷ listeners) =
    (if needs_update l then record l { allowed_routes = some from_all } else l)
    ∷ allow_all listeners

unfoldable pub any_needs_update : List Listener → Bool
unfolding needs_update
any_needs_update [] = false
any_needs_update (l ∷ listeners) = needs_update l || any_needs_update listeners

-- One correction of `ensureGatewayConfiguration`: the map and `needsUpdate` after it.
unfoldable pub correct : String → String → Dict String × Bool → Dict String × Bool
correct key value (annotations, needed) =
    if Dict.get key annotations == value
    then (annotations, needed)
    else (Dict.insert key value annotations, true)

-- The three of them.
unfoldable pub correct_annotations : String → String → String → Dict String → Dict String × Bool
unfolding correct
correct_annotations gateway visibility waf_arn annotations = correct waf_key waf_arn (
    correct visibility_key visibility
      (correct config_key (config_name gateway) (annotations, false)))

module _ {W : Type 0} (r : Reconciler W) where
  open r use {services as sv}

  -- `removeCertificateFromGateway`: a gateway that cannot be read is taken to be gone.
  unfoldable pub remove_certificate_from_gateway : Request → Exec W Error (Unit {0})
  remove_certificate_from_gateway ghr = if ghr.status.assigned_gateway == "" then pure tt else do
    found ← attempt (sv.gateways.get (gateway_key ghr))
    elim found [
      | err _ ↦ pure tt
      | ok gw ↦
          map_err (wrap "failed to sync LoadBalancerConfiguration after certificate removal") (
            sync_load_balancer_configuration r ghr.status.assigned_gateway
              ghr.status.assigned_gateway_namespace
              (visibility_or_default (Dict.get visibility_key gw.annotations))
              (Dict.get waf_key gw.annotations) "")
    ]

  -- `ensureAllowedRoutes`
  unfoldable pub ensure_allowed_routes : Request → Exec W Error (Unit {0})
  unfolding allow_all any_needs_update
  ensure_allowed_routes ghr =
      if ghr.status.assigned_gateway == "" then raise (errorf "no gateway assigned") else do
        gw ← map_err (wrap "failed to get gateway") (sv.gateways.get (gateway_key ghr))
        if any_needs_update gw.listeners
            then map_err (wrap "failed to update gateway allowedRoutes")
                (sv.gateways.update (record gw { listeners = allow_all gw.listeners }))
              >> pure tt
            else pure tt

  -- `ensureNamespaceLabel`
  unfoldable pub ensure_namespace_label : Request → Exec W Error (Unit {0})
  ensure_namespace_label ghr = do
    ns ←
        map_err (wrap ("failed to get namespace " <> ghr.meta.namespace))
          (sv.namespaces.get (namespace_key ghr))
    if ghr.status.assigned_gateway == ""
        then raise (errorf "no gateway assigned yet")
        else if Dict.get label_gateway_access ns.labels == ghr.status.assigned_gateway
        then pure tt
        else map_err (wrap "failed to update namespace label") (
            sv.namespaces.update (record ns {
              labels = Dict.insert label_gateway_access ghr.status.assigned_gateway ns.labels;
            }))
          >> pure tt

  -- `removeNamespaceLabel`: a namespace that cannot be read is taken to be gone.
  unfoldable pub remove_namespace_label : Request → Exec W Error (Unit {0})
  remove_namespace_label ghr = do
    found ← attempt (sv.namespaces.get (namespace_key ghr))
    elim found [
      | err _ ↦ pure tt
      | ok ns ↦ elim (Dict.lookup label_gateway_access ns.labels) [
        | none ↦ pure tt
        | some _ ↦
            map_err (wrap "failed to remove namespace label") (
              sv.namespaces.update
                (record ns { labels = Dict.erase label_gateway_access ns.labels }))
            >> pure tt
      ]
    ]

  -- The end of `ensureGatewayConfiguration`.
  unfoldable pub sync_annotations : Request → Exec W Error (Unit {0})
  unfolding correct_annotations
  sync_annotations ghr = do
    gw ← map_err (wrap "failed to get gateway") (sv.gateways.get (gateway_key ghr))
    let corrected =
        correct_annotations ghr.status.assigned_gateway (visibility_or_default ghr.spec.visibility)
          ghr.spec.waf_arn gw.annotations
    if corrected.1
        then map_err (wrap "failed to update gateway annotations")
            (sv.gateways.update (record gw { annotations = corrected.0 }))
          >> pure tt
        else pure tt

  -- `ensureGatewayConfiguration`
  unfoldable pub ensure_gateway_configuration : Request → Exec W Error (Unit {0})
  unfolding sync_annotations
  ensure_gateway_configuration ghr = do
    sync_load_balancer_configuration r ghr.status.assigned_gateway
        ghr.status.assigned_gateway_namespace (visibility_or_default ghr.spec.visibility)
        ghr.spec.waf_arn ghr.status.certificate_arn
    sync_annotations ghr
