-- ===== src/Controller/Drift.antt =====
-- internal/controller/gatewayhostnamerequest_controller.go: validateAssignedResources, and
-- cleanupForReprovisioning with the clean-up steps that the deletion shares.
use gateway_orchestrator.Prelude.{
  String, ◌<>◌, Bool, true, false, not, ◌&&◌, ◌||◌, List, [], ◌∷◌, Exec, ok, err, ◌>>=◌, ◌>>◌, pure,
  attempt, map_err, gets, ◌==◌, if◌then◌else◌,
}
use gateway_orchestrator.Api.Meta.{Error, wrap}
use gateway_orchestrator.Api.Request.{Request, RequestStatus}
use gateway_orchestrator.Aws.Types.{ValidationRecord}
use gateway_orchestrator.Services.{Library, warning}
use gateway_orchestrator.Pool.Defs.{config_name}
use gateway_orchestrator.Controller.Types.{
  Reconciler, Action, call, change_status, type_dns_validated, type_certificate_issued,
  type_listener_attached, type_dns_alias_ready, type_ready,
}
use gateway_orchestrator.Controller.Status.{emit, update_status, is_true}
use gateway_orchestrator.Controller.Claim.{delete_domain_claim}
use gateway_orchestrator.Controller.Certificate.{validation_dns_record}
use gateway_orchestrator.Controller.Gateway.{
  gateway_key, remove_certificate_from_gateway, remove_namespace_label,
}
use gateway_orchestrator.Controller.Alias.{delete_aliases}

-- `meta.RemoveStatusCondition` of each type.
unfoldable pub remove_conditions : Library → List String → RequestStatus → RequestStatus
remove_conditions lib [] st = st
remove_conditions lib (type ∷ types) st =
    remove_conditions lib types
      (record st { conditions = lib.remove_status_condition st.conditions type })

abbrev pub gateway_conditions : List String
gateway_conditions = type_listener_attached ∷ type_dns_alias_ready ∷ type_ready ∷ []

abbrev pub certificate_conditions : List String
certificate_conditions =
    type_certificate_issued ∷ type_dns_validated ∷ type_listener_attached ∷ type_dns_alias_ready
    ∷ type_ready ∷ []

-- What a gateway that is gone leaves of the status.
abbrev pub without_gateway : Library → RequestStatus → RequestStatus
without_gateway lib st = record (remove_conditions lib gateway_conditions st) {
  assigned_gateway = "";
  assigned_gateway_namespace = "";
  assigned_load_balancer = "";
}

-- What a certificate that is gone or bad leaves of the status.
abbrev pub without_certificate : Library → RequestStatus → RequestStatus
without_certificate lib st = record (remove_conditions lib certificate_conditions st) {
  certificate_arn = "";
}

module _ {W : Type 0} (r : Reconciler W) where
  open r use {library as lib, services as sv}

  -- The configuration is gone.
  unfoldable pub forget_config : Action W Bool
  unfolding remove_conditions
  forget_config = do
    gateway ← gets (λ s. s.ghr.status.assigned_gateway)
    emit r warning "DriftDetected"
        ("LoadBalancerConfiguration " <> config_name gateway <> " no longer exists")
    change_status (remove_conditions lib gateway_conditions)
    pure true

  -- The gateway exists: is its LoadBalancerConfiguration there? The result is `driftDetected`.
  unfoldable pub check_config : Action W Bool
  unfolding forget_config
  check_config = do
    found ← attempt (
        call (λ ghr. sv.configs.get (record {
          namespace = ghr.status.assigned_gateway_namespace;
          name = config_name ghr.status.assigned_gateway;
        })))
    elim found [
      | ok _ ↦ pure false
      | err e ↦ if lib.is_not_found e then forget_config else pure false
    ]

  -- The gateway is gone.
  unfoldable pub forget_gateway : Action W Bool
  unfolding remove_conditions
  forget_gateway = do
    gateway ← gets (λ s. s.ghr.status.assigned_gateway)
    emit r warning "DriftDetected" ("Gateway " <> gateway <> " no longer exists")
    change_status (without_gateway lib)
    pure true

  unfoldable pub look_for_gateway : Action W Bool
  unfolding check_config forget_gateway
  look_for_gateway = do
    found ← attempt (call (λ ghr. sv.gateways.get (gateway_key ghr)))
    elim found [
      | ok _ ↦ check_config
      | err e ↦ if lib.is_not_found e then forget_gateway else pure false
    ]

  -- The first check of `validateAssignedResources`.
  unfoldable pub check_gateway : Action W Bool
  unfolding look_for_gateway
  check_gateway = do
    gateway ← gets (λ s. s.ghr.status.assigned_gateway)
    attached ← is_true r type_listener_attached
    if not (gateway == "") && attached then look_for_gateway else pure false

  unfoldable pub forget_certificate : String → String → Action W Bool
  unfolding remove_conditions
  forget_certificate reason message = do
    emit r warning reason message
    change_status (without_certificate lib)
    pure true

  unfoldable pub look_for_certificate : String → Action W Bool
  unfolding forget_certificate
  look_for_certificate arn = do
    found ← attempt (call (λ ghr. sv.acm.describe_certificate ghr.status.certificate_arn))
    elim found [
      | err _ ↦
          forget_certificate "DriftDetected" ("ACM certificate " <> arn <> " no longer exists")
      | ok details ↦
          if (details.status == "FAILED") || (details.status == "REVOKED")
          then forget_certificate "CertificateFailed"
              ("ACM certificate is in " <> details.status <> " state")
          else pure false
    ]

  -- The second check.
  unfoldable pub check_certificate : Action W Bool
  unfolding look_for_certificate
  check_certificate = do
    arn ← gets (λ s. s.ghr.status.certificate_arn)
    issued ← is_true r type_certificate_issued
    if not (arn == "") && issued then look_for_certificate arn else pure false

  -- `validateAssignedResources`
  unfoldable pub validate_assigned_resources : Action W (Unit {0})
  unfolding check_gateway check_certificate
  validate_assigned_resources = do
    gateway_drift ← check_gateway
    certificate_drift ← check_certificate
    if gateway_drift || certificate_drift
        then map_err (wrap "failed to update status after drift detection") (update_status r)
        else pure tt

  -- Step 2 of both clean-ups; a failure is only logged.
  unfoldable pub detach_certificate : Request → Exec W Error (Unit {0})
  detach_certificate ghr =
      if not (ghr.status.assigned_gateway == "") && not (ghr.status.certificate_arn == "")
      then attempt {F = Error} (remove_certificate_from_gateway r ghr) >> pure tt
      else pure tt

  -- The loop of step 4.
  unfoldable pub delete_records : String → List ValidationRecord → Exec W Error (Unit {0})
  delete_records zone_id [] = pure tt
  delete_records zone_id (v ∷ records) = do
    attempt {F = Error} (sv.route53.delete_record zone_id (validation_dns_record v))
    delete_records zone_id records

  -- Step 4 of both clean-ups.
  unfoldable pub delete_validation_records : Request → Exec W Error (Unit {0})
  unfolding delete_records
  delete_validation_records ghr = if ghr.status.certificate_arn == "" then pure tt else do
    found ← attempt (sv.acm.get_validation_records ghr.status.certificate_arn)
    elim found [ ok records ↦ delete_records ghr.spec.zone_id records | err _ ↦ pure tt ]

  -- Steps 1 to 4 of both clean-ups.
  unfoldable pub clean_up : Request → Exec W Error (Unit {0})
  unfolding detach_certificate delete_validation_records
  clean_up ghr = do
    delete_aliases r ghr
    detach_certificate ghr
    attempt {F = Error} (remove_namespace_label r ghr)
    delete_validation_records ghr

  -- The deletion of the certificate; a failure is only logged.
  unfoldable pub discard_certificate : Request → Exec W Error (Unit {0})
  discard_certificate ghr =
      attempt {F = Error} (sv.acm.delete_certificate ghr.status.certificate_arn) >> pure tt

  -- `cleanupForReprovisioning`
  unfoldable pub cleanup_for_reprovisioning : Request → Exec W Error (Unit {0})
  unfolding clean_up discard_certificate
  cleanup_for_reprovisioning ghr = do
    clean_up ghr
    if ghr.status.certificate_arn == "" then pure tt else discard_certificate ghr
    attempt {F = Error} (delete_domain_claim r ghr)
    pure tt
