-- ===== src/Controller/Footprint/Drifting.antt =====
-- The handlers before the first step: drift of the spec and of the assigned resources.
use gateway_orchestrator.Prelude.{String, ◌<>◌, ◌==◌, not, ◌&&◌, ◌||◌, true, false}
use gateway_orchestrator.Prelude.Triple.{Keeps, Keeps-bind, Keeps-attempt, Keeps-map_err, Keeps-if}
use gateway_orchestrator.Prelude.Keeping.{Keeps-result, Keeps-pure, Keeps-raise, Keeps-gets}
use gateway_orchestrator.Api.Meta.{wrap, error_text}
use gateway_orchestrator.Api.Request.{RequestSpec}
use gateway_orchestrator.Services.{normal, warning}
use gateway_orchestrator.Pool.Defs.{config_name}
use gateway_orchestrator.Controller.Types.{
  Reconciler, State, Outcome, failed, again, type_listener_attached, type_certificate_issued,
}
use gateway_orchestrator.Controller.Status.{compute_spec_hash, is_true}
use gateway_orchestrator.Controller.Gateway.{gateway_key}
use gateway_orchestrator.Controller.Drift.{
  remove_conditions, gateway_conditions, without_gateway, without_certificate, forget_config,
  check_config, forget_gateway, look_for_gateway, check_gateway, forget_certificate,
  look_for_certificate, check_certificate, validate_assigned_resources, cleanup_for_reprovisioning,
}
use gateway_orchestrator.Controller.Steps.{
  cleared, reprovision, detect_spec_drift, detect_resource_drift,
}
use gateway_orchestrator.Controller.Footprint.Defs.{Footprint, Part, Apart, ClaimCalls}
use gateway_orchestrator.Controller.Footprint.Dns.{reprovisioning-Keeps}
use gateway_orchestrator.Controller.Footprint.Assigning.{
  call-Apart, claim_call-Apart, change_status-Apart, update_status-Apart, try_update-Apart,
  set_condition-Apart, emit-Apart,
}

module _ {W X : Type 0} {spec : RequestSpec} {Own : String → Type 0} (r : Reconciler W)
    (look : W → X) (frame : Footprint r.services look spec Own) (part : Part X) where
  open r use {library as lib, services as sv}

  abbrev Out : State W → Type 0
  Out = Apart look spec part

  pub is_true-Apart : {E : Type 0} (type : String) → Keeps {E = E} Out (is_true r type)
  unfolding is_true
  is_true-Apart type = Keeps-gets _

  forget_config-Apart : Keeps Out (forget_config r)
  unfolding forget_config
  forget_config-Apart = Keeps-bind _ _ (Keeps-gets (λ s. s.ghr.status.assigned_gateway)) (λ gateway.
      Keeps-bind _ _
        (emit-Apart r look frame part warning "DriftDetected"
          ("LoadBalancerConfiguration " <> config_name gateway <> " no longer exists"))
        (λ _.
          Keeps-bind _ _
            (change_status-Apart r look frame part (remove_conditions lib gateway_conditions))
            (λ _. Keeps-pure true)))

  check_config-Apart : Keeps Out (check_config r)
  unfolding check_config
  check_config-Apart =
      Keeps-bind _ _
        (Keeps-attempt _ (
          call-Apart r look frame part
            (λ ghr. sv.configs.get (record {
              namespace = ghr.status.assigned_gateway_namespace;
              name = config_name ghr.status.assigned_gateway;
            }))
            (λ ghr w h. frame.get_config _ w)))
        (Keeps-result _ _ (λ _. Keeps-pure false)
          (λ e. Keeps-if (lib.is_not_found e) _ _ forget_config-Apart (Keeps-pure false)))

  forget_gateway-Apart : Keeps Out (forget_gateway r)
  unfolding forget_gateway
  forget_gateway-Apart =
      Keeps-bind _ _ (Keeps-gets (λ s. s.ghr.status.assigned_gateway)) (λ gateway.
        Keeps-bind _ _
          (emit-Apart r look frame part warning "DriftDetected"
            ("Gateway " <> gateway <> " no longer exists"))
          (λ _.
            Keeps-bind _ _ (change_status-Apart r look frame part (without_gateway lib))
              (λ _. Keeps-pure true)))

  look_for_gateway-Apart : Keeps Out (look_for_gateway r)
  unfolding look_for_gateway
  look_for_gateway-Apart =
      Keeps-bind _ _
        (Keeps-attempt _ (
          call-Apart r look frame part (λ ghr. sv.gateways.get (gateway_key ghr))
            (λ ghr w h. frame.get_gateway _ w)))
        (Keeps-result _ _ (λ _. check_config-Apart)
          (λ e. Keeps-if (lib.is_not_found e) _ _ forget_gateway-Apart (Keeps-pure false)))

  check_gateway-Apart : Keeps Out (check_gateway r)
  unfolding check_gateway
  check_gateway-Apart = Keeps-bind _ _ (Keeps-gets (λ s. s.ghr.status.assigned_gateway)) (λ gateway.
      Keeps-bind _ _ (is_true-Apart type_listener_attached) (λ attached.
        Keeps-if (not (gateway == "") && attached) _ _ look_for_gateway-Apart (Keeps-pure false)))

  forget_certificate-Apart :
      (reason message : String) → Keeps Out (forget_certificate r reason message)
  unfolding forget_certificate
  forget_certificate-Apart reason message =
      Keeps-bind _ _ (emit-Apart r look frame part warning reason message) (λ _.
        Keeps-bind _ _ (change_status-Apart r look frame part (without_certificate lib))
          (λ _. Keeps-pure true))

  look_for_certificate-Apart : (arn : String) → Keeps Out (look_for_certificate r arn)
  unfolding look_for_certificate
  look_for_certificate-Apart arn =
      Keeps-bind _ _
        (Keeps-attempt _ (
          call-Apart r look frame part
            (λ ghr. sv.acm.describe_certificate ghr.status.certificate_arn)
            (λ ghr w h. frame.describe _ w)))
        (Keeps-result _ _
          (λ details.
            Keeps-if ((details.status == "FAILED") || (details.status == "REVOKED")) _ _
              (forget_certificate-Apart "CertificateFailed"
                ("ACM certificate is in " <> details.status <> " state"))
              (Keeps-pure false))
          (λ _.
            forget_certificate-Apart "DriftDetected"
              ("ACM certificate " <> arn <> " no longer exists")))

  check_certificate-Apart : Keeps Out (check_certificate r)
  unfolding check_certificate
  check_certificate-Apart = Keeps-bind _ _ (Keeps-gets (λ s. s.ghr.status.certificate_arn)) (λ arn.
      Keeps-bind _ _ (is_true-Apart type_certificate_issued) (λ issued.
        Keeps-if (not (arn == "") && issued) _ _ (look_for_certificate-Apart arn)
          (Keeps-pure false)))

  resources-Apart : Keeps Out (validate_assigned_resources r)
  unfolding validate_assigned_resources
  resources-Apart = Keeps-bind _ _ check_gateway-Apart (λ gateway_drift.
      Keeps-bind _ _ check_certificate-Apart (λ certificate_drift.
        Keeps-if (gateway_drift || certificate_drift) _ _
          (Keeps-map_err (wrap "failed to update status after drift detection") _
            (update_status-Apart r look frame part))
          (Keeps-pure tt)))

  pub resource_drift-Apart : Keeps Out (detect_resource_drift r)
  unfolding detect_resource_drift
  resource_drift-Apart = Keeps-bind _ _ (Keeps-attempt _ resources-Apart) (
      Keeps-result _ _ (λ _. Keeps-pure tt)
        (λ e.
          Keeps-bind _ _
            (set_condition-Apart r look frame part "ResourceValidationError" "True"
              "ValidationFailed" ("Validation error (will auto-correct): " <> error_text e))
            (λ _. Keeps-bind _ _ (try_update-Apart r look frame part) (λ _. Keeps-pure tt))))

  reprovision-Apart : ClaimCalls r look spec part → Keeps Out (reprovision r)
  unfolding reprovision
  reprovision-Apart calls =
      Keeps-bind _ _
        (emit-Apart r look frame part normal "SpecChanged"
          "Spec changed, cleaning up for re-provisioning")
        (λ _.
          Keeps-bind _ _
            (Keeps-attempt {F = Outcome} _ (
              claim_call-Apart r look frame part (cleanup_for_reprovisioning r)
                (λ ghr w a p. (reprovisioning-Keeps r look frame part calls ghr a).at w p)))
            (λ _. Keeps-bind _ _ (change_status-Apart r look frame part (λ st. cleared)) (λ _.
              Keeps-bind _ _ (Keeps-map_err failed _ (update_status-Apart r look frame part))
                (λ _. Keeps-raise again))))

  pub spec_drift-Apart : ClaimCalls r look spec part → Keeps Out (detect_spec_drift r)
  unfolding detect_spec_drift
  spec_drift-Apart calls =
      Keeps-bind _ _ (Keeps-gets (λ s. s.ghr.status.observed_spec_hash)) (λ observed.
        Keeps-bind _ _ (Keeps-gets (λ s. compute_spec_hash lib s.ghr.spec)) (λ current.
          Keeps-if (not (observed == "") && not (observed == current)) _ _ (reprovision-Apart calls)
            (Keeps-pure tt)))
