-- ===== src/Controller/Assign.antt =====
-- internal/controller/gateway.go: ensureGatewayAssignment.
pub mod Keeps
use gateway_orchestrator.Prelude.{
  String, none, some, [], ◌∷◌, Exec, ok, err, ◌>>=◌, ◌>>◌, pure, raise, attempt, map_err, gets,
  ◌==◌, if◌then◌else◌,
}
use gateway_orchestrator.Api.Meta.{Error, errorf, wrap}
use gateway_orchestrator.Api.Request.{Request}
use gateway_orchestrator.Pool.{GatewayInfo}
use gateway_orchestrator.Pool.Defs.{
  gateway_name, select_gateway, get_next_gateway_index, create_gateway,
}
use gateway_orchestrator.Controller.Types.{
  Reconciler, State, Action, call, change_status, visibility_or_default,
}
use gateway_orchestrator.Controller.LoadBalancer.{
  ensure_load_balancer_configuration, sync_load_balancer_configuration,
}
use gateway_orchestrator.Controller.Gateway.{gateway_key}

abbrev pub desired_visibility : Request → String
desired_visibility ghr = visibility_or_default ghr.spec.visibility

-- `ghr.Status.AssignedGateway` and its namespace, set from the chosen gateway.
unfoldable pub set_assigned : {W E : Type 0} → GatewayInfo → Exec (State W) E (Unit {0})
set_assigned info =
    change_status (λ st. record st {
      assigned_gateway = info.name;
      assigned_gateway_namespace = info.namespace;
    })

module _ {W : Type 0} (r : Reconciler W) where
  open r use {library as lib, services as sv, gateway_pool as pool}

  -- The new gateway: its configuration first, with the first certificate.
  unfoldable pub create_assigned_gateway : Request → Exec W Error GatewayInfo
  create_assigned_gateway ghr = do
    index ← map_err (wrap "failed to get next gateway index") (get_next_gateway_index lib sv pool)
    map_err (wrap "failed to create LoadBalancerConfiguration") (
        ensure_load_balancer_configuration r (gateway_name index) pool.namespace
          (ghr.status.certificate_arn ∷ []) (desired_visibility ghr) ghr.spec.waf_arn)
    map_err (wrap "failed to create new gateway")
        (create_gateway lib sv pool (desired_visibility ghr) ghr.spec.waf_arn index)

  -- No gateway has room: one is created, unless a selector is given.
  unfoldable pub assign_new : Action W (Unit {0})
  unfolding create_assigned_gateway set_assigned
  assign_new = do
    selector ← gets (λ s. s.ghr.spec.gateway_selector)
    elim selector [
      | some _ ↦ raise (errorf "no Gateway matching selector with available capacity")
      | none ↦ do info ← call (create_assigned_gateway); set_assigned info
    ]

  -- A gateway with room: the assignment stands even where the sync then fails.
  unfoldable pub assign_existing : GatewayInfo → Action W (Unit {0})
  unfolding set_assigned
  assign_existing info = do
    set_assigned info
    map_err (wrap "failed to sync LoadBalancerConfiguration") (
        call (λ ghr.
          sync_load_balancer_configuration r info.name info.namespace (desired_visibility ghr)
            ghr.spec.waf_arn ghr.status.certificate_arn))

  -- From the pool's selection on.
  unfoldable pub assign_from_pool : Action W (Unit {0})
  unfolding assign_new assign_existing
  assign_from_pool = do
    selected ← map_err (wrap "failed to select gateway") (
        call (λ ghr.
          select_gateway lib sv pool (desired_visibility ghr) ghr.spec.waf_arn
            ghr.spec.gateway_selector))
    elim selected [ none ↦ assign_new | some info ↦ assign_existing info ]

  -- `attachCertificateToGateway`, which does nothing.
  abbrev attach_certificate_to_gateway : Action W (Unit {0})
  attach_certificate_to_gateway = pure tt

  -- `ensureGatewayAssignment`: whatever the error, a gateway that cannot be read is replaced.
  unfoldable pub ensure_gateway_assignment : Action W (Unit {0})
  unfolding assign_from_pool
  ensure_gateway_assignment = do
    assigned ← gets (λ s. s.ghr.status.assigned_gateway)
    if assigned == "" then assign_from_pool else do
      found ← attempt (call (λ ghr. sv.gateways.get (gateway_key ghr)))
      elim found [ ok _ ↦ attach_certificate_to_gateway | err _ ↦ assign_from_pool ]
