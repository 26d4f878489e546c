-- ===== src/Controller/Steps.antt =====
-- internal/controller/gatewayhostnamerequest_controller.go: the steps of reconcileNormal. Each is
-- a handler: it goes on to the next step, or returns from the reconciliation.
mod Observe
unfoldable pub use Observe.*
use gateway_orchestrator.Prelude.{
  String, ◌<>◌, not, ◌&&◌, [], ok, err, ◌>>=◌, ◌>>◌, pure, raise, attempt, gets, ◌==◌,
  if◌then◌else◌,
}
use gateway_orchestrator.Api.Meta.{Error, error_text, is_not_ready}
use gateway_orchestrator.Api.Request.{RequestStatus}
use gateway_orchestrator.Services.{normal, warning}
use gateway_orchestrator.Controller.Types.{
  Reconciler, Handler, Outcome, done, after, again, call, change_status, type_claimed,
  type_certificate_requested, type_dns_validated, type_certificate_issued, type_listener_attached,
  type_dns_alias_ready, type_ready,
}
use gateway_orchestrator.Controller.Status.{
  compute_spec_hash, validate_request, set_condition, update_status, try_update_status, emit,
  is_true, reject, must,
}
use gateway_orchestrator.Controller.Claim.{ensure_domain_claim}
use gateway_orchestrator.Controller.Certificate.{
  request_certificate, ensure_validation_records, check_certificate_status,
}
use gateway_orchestrator.Controller.Gateway.{
  ensure_namespace_label, ensure_allowed_routes, ensure_gateway_configuration,
}
use gateway_orchestrator.Controller.Assign.{ensure_gateway_assignment}
use gateway_orchestrator.Controller.Alias.{ensure_route53_alias, not_provisioned}
use gateway_orchestrator.Controller.Drift.{validate_assigned_resources, cleanup_for_reprovisioning}

module _ {W : Type 0} (r : Reconciler W) where
  open r use {library as lib, services as sv}

  -- Step 1
  unfoldable pub validate : Handler W (Unit {0})
  validate = do
    result ← gets (λ s. validate_request s.ghr)
    elim result [
      | ok _ ↦ pure tt
      | err e ↦
          reject r type_ready "ValidationFailed" "ValidationFailed" "Request validation failed: " e
    ]

  -- Step 2: a claim of another request ends the run, with no retry.
  unfoldable pub lose_claim : Handler W (Unit {0})
  lose_claim = do
    set_condition r type_claimed "False" "AlreadyClaimed"
        "Hostname already claimed by another request"
    try_update_status r
    emit r warning "AlreadyClaimed" "Hostname already claimed by another request"
    raise done

  unfoldable pub win_claim : Handler W (Unit {0})
  win_claim = do
    set_condition r type_claimed "True" "Claimed" "Domain successfully claimed"
    emit r normal "Claimed" "Domain successfully claimed"

  unfoldable pub claim : Handler W (Unit {0})
  unfolding lose_claim win_claim
  claim = do
    result ← attempt (call (ensure_domain_claim r))
    elim result [
      | err e ↦ reject r type_claimed "ClaimFailed" "ClaimFailed" "Failed to claim domain: " e
      | ok claimed ↦ if claimed then win_claim else lose_claim
    ]

  -- Step 3
  unfoldable pub record_certificate : String → Handler W (Unit {0})
  record_certificate arn = do
    change_status (λ st. record st { certificate_arn = arn })
    set_condition r type_certificate_requested "True" "Requested" "Certificate requested from ACM"
    emit r normal "CertificateRequested" ("ACM certificate request submitted (" <> arn <> ")")
    must (update_status r)

  unfoldable pub obtain_certificate : Handler W (Unit {0})
  unfolding record_certificate
  obtain_certificate = do
    result ← attempt (call (request_certificate r))
    elim result [
      | err e ↦
          reject r type_certificate_requested "RequestFailed" "CertificateRequestFailed"
            "Failed to request certificate: " e
      | ok arn ↦ record_certificate arn
    ]

  unfoldable pub ensure_certificate : Handler W (Unit {0})
  unfolding obtain_certificate
  ensure_certificate = do
    arn ← gets (λ s. s.ghr.status.certificate_arn)
    if arn == "" then obtain_certificate else pure tt

  -- A step that a condition guards: it runs while the condition is not true.
  unfoldable pub unless : String → Handler W (Unit {0}) → Handler W (Unit {0})
  unless type step = do already ← is_true r type; if already then pure tt else step

  -- The end of a step that succeeded.
  unfoldable pub succeed : String → String → String → String → String → Handler W (Unit {0})
  succeed type reason message event_reason event_message = do
    set_condition r type "True" reason message
    emit r normal event_reason event_message
    must (update_status r)

  -- A step that waits for something outside: the condition says so, and the run is repeated later.
  unfoldable pub wait : String → String → String → Handler W (Unit {0})
  wait type reason message = do
    set_condition r type "False" reason message
    try_update_status r
    raise (after 30)

  -- Step 4
  unfoldable pub write_validation_records : Handler W (Unit {0})
  write_validation_records = do
    result ← attempt (call (ensure_validation_records r))
    elim result [
      | ok _ ↦
          succeed type_dns_validated "RecordsCreated" "DNS validation records created"
            "DnsValidationRecordsCreated" "DNS validation records created in Route53"
      | err e ↦
          if is_not_ready e
          then wait type_dns_validated "PendingValidationRecords"
              "Waiting for ACM to provide DNS validation records"
          else reject r type_dns_validated "ValidationRecordFailed" "DnsValidationFailed"
              "Failed to create DNS validation records: " e
    ]

  -- Step 5
  unfoldable pub await_issuance : Handler W (Unit {0})
  await_issuance = do
    result ← attempt (call (check_certificate_status r))
    elim result [
      | err e ↦
          reject r type_certificate_issued "CheckFailed" "CertificateCheckFailed"
            "Failed to check certificate status: " e
      | ok issued ↦
          if issued
          then succeed type_certificate_issued "Issued" "Certificate issued by ACM"
              "CertificateIssued" "ACM certificate issued"
          else wait type_certificate_issued "PendingIssuance" "Waiting for ACM to issue certificate"
    ]

  -- Step 6
  unfoldable pub attach : Handler W (Unit {0})
  attach = do
    result ← attempt (ensure_gateway_assignment r)
    gateway ← gets (λ s. s.ghr.status.assigned_gateway)
    elim result [
      | err e ↦
          reject r type_listener_attached "AttachmentFailed" "GatewayAssignmentFailed"
            "Failed to assign gateway: " e
      | ok _ ↦
          succeed type_listener_attached "Attached" "Certificate attached to Gateway"
            "GatewayAssigned" ("Assigned to gateway " <> gateway)
    ]

  -- Step 7: a load balancer with no address yet is waited for, with no change of the conditions.
  unfoldable pub await_load_balancer : String → Handler W (Unit {0})
  await_load_balancer gateway = do
    emit r normal "WaitingForLoadBalancer"
        ("Waiting for ALB provisioning (gateway: " <> gateway <> ")")
    raise (after 30)

  unfoldable pub publish : Handler W (Unit {0})
  unfolding await_load_balancer
  publish = do
    result ← attempt (ensure_route53_alias r)
    status ← gets (λ s. s.ghr.status)
    elim result [
      | ok _ ↦
          succeed type_dns_alias_ready "Created" "Route53 ALIAS record created" "DnsAliasReady"
            ("Route53 ALIAS record created pointing to " <> status.assigned_load_balancer)
      | err e ↦
          if error_text e == error_text (not_provisioned status.assigned_gateway)
          then await_load_balancer status.assigned_gateway
          else reject r type_dns_alias_ready "AliasFailed" "DnsAliasFailed"
              "Failed to create Route53 ALIAS record: " e
    ]

  -- Step 8: what every run puts right; failures are only logged.
  unfoldable pub sync_configuration : Handler W (Unit {0})
  sync_configuration = do
    attempt {F = Outcome} (call {E = Error} (ensure_namespace_label r))
    attempt {F = Outcome} (call {E = Error} (ensure_allowed_routes r))
    gateway ← gets (λ s. s.ghr.status.assigned_gateway)
    if gateway == ""
        then pure tt
        else attempt {F = Outcome} (call {E = Error} (ensure_gateway_configuration r)) >> pure tt

  -- Step 9
  unfoldable pub mark_ready : Handler W (Unit {0})
  mark_ready = do
    generation ← gets (λ s. s.ghr.meta.generation)
    hash ← gets (λ s. compute_spec_hash lib s.ghr.spec)
    change_status (λ st. record st { observed_generation = generation; observed_spec_hash = hash })
    succeed type_ready "Ready" "Hostname request fully provisioned" "Ready"
        "Hostname fully provisioned"
