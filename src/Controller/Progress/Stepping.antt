-- ===== src/Controller/Progress/Stepping.antt =====
-- The steps of reconcileNormal: only a lost claim stops a run for good.
use gateway_orchestrator.Prelude.{String, ◌<>◌, ◌==◌, not, ◌&&◌, arith}
use gateway_orchestrator.Prelude.Stopping.{
  Stops, Stops-bind, Stops-gets, Stops-pure, Stops-result, Stops-if, Stops-attempt, Stops-raise,
}
use gateway_orchestrator.Api.Meta.{Error, error_text, is_not_ready}
use gateway_orchestrator.Services.{normal}
use gateway_orchestrator.Controller.Types.{
  Reconciler, Handler, after, again, call, type_certificate_requested, type_dns_validated,
  type_certificate_issued, type_listener_attached, type_dns_alias_ready, type_ready, type_claimed,
}
use gateway_orchestrator.Controller.Status.{compute_spec_hash, validate_request, update_status}
use gateway_orchestrator.Controller.Drift.{validate_assigned_resources, cleanup_for_reprovisioning}
use gateway_orchestrator.Controller.Certificate.{
  request_certificate, ensure_validation_records, check_certificate_status,
}
use gateway_orchestrator.Controller.Gateway.{
  ensure_namespace_label, ensure_allowed_routes, ensure_gateway_configuration,
}
use gateway_orchestrator.Controller.Assign.{ensure_gateway_assignment}
use gateway_orchestrator.Controller.Alias.{not_provisioned, ensure_route53_alias}
use gateway_orchestrator.Controller.Steps.{
  cleared, reprovision, detect_spec_drift, detect_resource_drift, validate, win_claim,
  record_certificate, obtain_certificate, ensure_certificate, unless, succeed, wait,
  write_validation_records, await_issuance, attach, await_load_balancer, publish,
  sync_configuration, mark_ready,
}
use gateway_orchestrator.Controller.Reconcile.{provision}
use gateway_orchestrator.Controller.Progress.Defs.{
  Retried, later, at_once, must-Retried, set_condition-Retried, try_update-Retried, emit-Retried,
  is_true-Retried, change_status-Retried, reject-Retried,
}

module _ {W : Type 0} (r : Reconciler W) where
  open r use {library as lib}

  reprovision-Retried : Stops Retried (reprovision r)
  unfolding reprovision
  reprovision-Retried =
      Stops-bind _ _
        (emit-Retried r normal "SpecChanged" "Spec changed, cleaning up for re-provisioning")
        (λ _. Stops-bind _ _ (Stops-attempt (call {E = Error} (cleanup_for_reprovisioning r))) (λ _.
          Stops-bind _ _ (change_status-Retried r (λ st. cleared)) (λ _.
            Stops-bind _ _ (must-Retried r (update_status r)) (λ _. Stops-raise again at_once))))

  pub spec_drift-Retried : Stops Retried (detect_spec_drift r)
  unfolding detect_spec_drift
  spec_drift-Retried =
      Stops-bind _ _ (Stops-gets (λ s. s.ghr.status.observed_spec_hash)) (λ observed.
        Stops-bind _ _ (Stops-gets (λ s. compute_spec_hash lib s.ghr.spec)) (λ current.
          Stops-if (not (observed == "") && not (observed == current)) _ _ reprovision-Retried
            (Stops-pure tt)))

  pub resource_drift-Retried : Stops Retried (detect_resource_drift r)
  unfolding detect_resource_drift
  resource_drift-Retried = Stops-bind _ _ (Stops-attempt (validate_assigned_resources r)) (
      Stops-result _ _ (λ _. Stops-pure tt)
        (λ e.
          Stops-bind _ _
            (set_condition-Retried r "ResourceValidationError" "True" "ValidationFailed"
              ("Validation error (will auto-correct): " <> error_text e))
            (λ _. Stops-bind _ _ (try_update-Retried r) (λ _. Stops-pure tt))))

  pub validate-Retried : Stops Retried (validate r)
  unfolding validate
  validate-Retried = Stops-bind _ _ (Stops-gets (λ s. validate_request s.ghr)) (
      Stops-result _ _ (λ _. Stops-pure tt)
        (reject-Retried r type_ready "ValidationFailed" "ValidationFailed"
          "Request validation failed: "))

  pub win_claim-Retried : Stops Retried (win_claim r)
  unfolding win_claim
  win_claim-Retried =
      Stops-bind _ _
        (set_condition-Retried r type_claimed "True" "Claimed" "Domain successfully claimed")
        (λ _. emit-Retried r normal "Claimed" "Domain successfully claimed")

  certificate-Retried : Stops Retried (ensure_certificate r)
  unfolding ensure_certificate obtain_certificate record_certificate
  certificate-Retried = Stops-bind _ _ (Stops-gets (λ s. s.ghr.status.certificate_arn)) (λ arn.
      Stops-if (arn == "") _ _
        (Stops-bind _ _ (Stops-attempt (call (request_certificate r))) (
          Stops-result _ _
            (λ new.
              Stops-bind _ _ (change_status-Retried r (λ st. record st { certificate_arn = new }))
                (λ _.
                  Stops-bind _ _
                    (set_condition-Retried r type_certificate_requested "True" "Requested"
                      "Certificate requested from ACM")
                    (λ _.
                      Stops-bind _ _
                        (emit-Retried r normal "CertificateRequested"
                          ("ACM certificate request submitted (" <> new <> ")"))
                        (λ _. must-Retried r (update_status r)))))
            (reject-Retried r type_certificate_requested "RequestFailed" "CertificateRequestFailed"
              "Failed to request certificate: ")))
        (Stops-pure tt))

  unless-Retried :
      (type : String) (step : Handler W (Unit {0}))
      → Stops Retried step
      → Stops Retried (unless r type step)
  unfolding unless
  unless-Retried type step k =
      Stops-bind _ _ (is_true-Retried r type) (λ already. Stops-if already _ _ (Stops-pure tt) k)

  succeed-Retried :
      (type reason message event_reason event_message : String)
      → Stops Retried (succeed r type reason message event_reason event_message)
  unfolding succeed
  succeed-Retried type reason message event_reason event_message =
      Stops-bind _ _ (set_condition-Retried r type "True" reason message) (λ _.
        Stops-bind _ _ (emit-Retried r normal event_reason event_message)
          (λ _. must-Retried r (update_status r)))

  wait-Retried : (type reason message : String) → Stops Retried (wait r type reason message)
  unfolding wait
  wait-Retried type reason message =
      Stops-bind _ _ (set_condition-Retried r type "False" reason message) (λ _.
        Stops-bind _ _ (try_update-Retried r)
          (λ _. Stops-raise (after 30) (later 30 (omega arith))))

  write_records-Retried : Stops Retried (write_validation_records r)
  unfolding write_validation_records
  write_records-Retried = Stops-bind _ _ (Stops-attempt (call (ensure_validation_records r))) (
      Stops-result _ _
        (λ _.
          succeed-Retried type_dns_validated "RecordsCreated" "DNS validation records created"
            "DnsValidationRecordsCreated" "DNS validation records created in Route53")
        (λ e.
          Stops-if (is_not_ready e) _ _
            (wait-Retried type_dns_validated "PendingValidationRecords"
              "Waiting for ACM to provide DNS validation records")
            (reject-Retried r type_dns_validated "ValidationRecordFailed" "DnsValidationFailed"
              "Failed to create DNS validation records: " e)))

  issuance-Retried : Stops Retried (await_issuance r)
  unfolding await_issuance
  issuance-Retried = Stops-bind _ _ (Stops-attempt (call (check_certificate_status r))) (
      Stops-result _ _
        (λ issued.
          Stops-if issued _ _
            (succeed-Retried type_certificate_issued "Issued" "Certificate issued by ACM"
              "CertificateIssued" "ACM certificate issued")
            (wait-Retried type_certificate_issued "PendingIssuance"
              "Waiting for ACM to issue certificate"))
        (reject-Retried r type_certificate_issued "CheckFailed" "CertificateCheckFailed"
          "Failed to check certificate status: "))

  attach-Retried : Stops Retried (attach r)
  unfolding attach
  attach-Retried = Stops-bind _ _ (Stops-attempt (ensure_gateway_assignment r)) (λ result.
      Stops-bind _ _ (Stops-gets (λ s. s.ghr.status.assigned_gateway)) (λ gateway.
        Stops-result _ _
          (λ _.
            succeed-Retried type_listener_attached "Attached" "Certificate attached to Gateway"
              "GatewayAssigned" ("Assigned to gateway " <> gateway))
          (reject-Retried r type_listener_attached "AttachmentFailed" "GatewayAssignmentFailed"
            "Failed to assign gateway: ")
          result))

  await_load_balancer-Retried : (gateway : String) → Stops Retried (await_load_balancer r gateway)
  unfolding await_load_balancer
  await_load_balancer-Retried gateway =
      Stops-bind _ _
        (emit-Retried r normal "WaitingForLoadBalancer"
          ("Waiting for ALB provisioning (gateway: " <> gateway <> ")"))
        (λ _. Stops-raise (after 30) (later 30 (omega arith)))

  publish-Retried : Stops Retried (publish r)
  unfolding publish
  publish-Retried = Stops-bind _ _ (Stops-attempt (ensure_route53_alias r)) (λ result.
      Stops-bind _ _ (Stops-gets (λ s. s.ghr.status)) (λ status.
        Stops-result _ _
          (λ _.
            succeed-Retried type_dns_alias_ready "Created" "Route53 ALIAS record created"
              "DnsAliasReady"
              ("Route53 ALIAS record created pointing to " <> status.assigned_load_balancer))
          (λ e.
            Stops-if (error_text e == error_text (not_provisioned status.assigned_gateway)) _ _
              (await_load_balancer-Retried status.assigned_gateway)
              (reject-Retried r type_dns_alias_ready "AliasFailed" "DnsAliasFailed"
                "Failed to create Route53 ALIAS record: " e))
          result))

  pub provision-Retried : Stops Retried (provision r)
  unfolding provision
  provision-Retried = Stops-bind _ _ certificate-Retried (λ _.
      Stops-bind _ _ (unless-Retried type_dns_validated _ write_records-Retried) (λ _.
        Stops-bind _ _ (unless-Retried type_certificate_issued _ issuance-Retried) (λ _.
          Stops-bind _ _ (unless-Retried type_listener_attached _ attach-Retried)
            (λ _. unless-Retried type_dns_alias_ready _ publish-Retried))))

  pub configuration-Retried : Stops Retried (sync_configuration r)
  unfolding sync_configuration
  configuration-Retried =
      Stops-bind _ _ (Stops-attempt (call {E = Error} (ensure_namespace_label r))) (λ _.
        Stops-bind _ _ (Stops-attempt (call {E = Error} (ensure_allowed_routes r))) (λ _.
          Stops-bind _ _ (Stops-gets (λ s. s.ghr.status.assigned_gateway)) (λ gateway.
            Stops-if (gateway == "") _ _ (Stops-pure tt) (
              Stops-bind _ _ (Stops-attempt (call {E = Error} (ensure_gateway_configuration r)))
                (λ _. Stops-pure tt)))))

  pub ready-Retried : Stops Retried (mark_ready r)
  unfolding mark_ready
  ready-Retried = Stops-bind _ _ (Stops-gets (λ s. s.ghr.meta.generation)) (λ generation.
      Stops-bind _ _ (Stops-gets (λ s. compute_spec_hash lib s.ghr.spec)) (λ hash.
        Stops-bind _ _
          (change_status-Retried r
            (λ st. record st { observed_generation = generation; observed_spec_hash = hash }))
          (λ _.
            succeed-Retried type_ready "Ready" "Hostname request fully provisioned" "Ready"
              "Hostname fully provisioned")))
