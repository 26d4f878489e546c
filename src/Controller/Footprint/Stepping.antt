-- ===== src/Controller/Footprint/Stepping.antt =====
-- The later steps of reconcileNormal, and the whole of it.
use gateway_orchestrator.Prelude.{◌>>◌, String, ◌<>◌, ◌==◌}
use gateway_orchestrator.Prelude.Triple.{Keeps, Keeps-bind, Keeps-attempt, Keeps-if}
use gateway_orchestrator.Prelude.Keeping.{Keeps-result, Keeps-pure, Keeps-raise, Keeps-gets}
use gateway_orchestrator.Api.Meta.{error_text, is_not_ready}
use gateway_orchestrator.Api.Request.{Request, RequestSpec}
use gateway_orchestrator.Services.{normal}
use gateway_orchestrator.Controller.Types.{
  Reconciler, State, Handler, Outcome, after, type_dns_validated, type_certificate_issued,
  type_listener_attached, type_dns_alias_ready, type_ready,
}
use gateway_orchestrator.Controller.Status.{compute_spec_hash}
use gateway_orchestrator.Controller.Certificate.{
  ensure_validation_records, check_certificate_status,
}
use gateway_orchestrator.Controller.Gateway.{
  ensure_namespace_label, ensure_allowed_routes, ensure_gateway_configuration,
}
use gateway_orchestrator.Controller.Alias.{not_provisioned}
use gateway_orchestrator.Controller.Claim.{ensure_domain_claim}
use gateway_orchestrator.Controller.Steps.{
  detect_resource_drift, validate, claim, write_validation_records, await_issuance, attach,
  await_load_balancer, publish, sync_configuration, mark_ready,
}
use gateway_orchestrator.Controller.Reconcile.{provision, reconcile_normal}
use gateway_orchestrator.Controller.Footprint.Defs.{Footprint, Part, Apart, ClaimCalls, Asks}
use gateway_orchestrator.Controller.Footprint.Cluster.{
  check_look, label_look, routes_look, configuration_look,
}
use gateway_orchestrator.Controller.Footprint.Dns.{write_records_look}
use gateway_orchestrator.Controller.Footprint.Assigning.{
  call-Apart, change_status-Apart, emit-Apart, reject-Apart, assignment-Apart, alias-Apart,
}
use gateway_orchestrator.Controller.Footprint.Claiming.{
  validate-Apart, claim-Apart, certificate-Apart, unless-Apart, succeed-Apart, wait-Apart,
}
use gateway_orchestrator.Controller.Footprint.Drifting.{resource_drift-Apart, spec_drift-Apart}

-- The run from the second drift check on.
abbrev pub after_drift : {W : Type 0} → Reconciler W → Handler W (Unit {0})
after_drift r =
    detect_resource_drift r
    >> (validate r >> (claim r >> (provision r >> (sync_configuration r >> mark_ready r))))

module _ {W X : Type 0} {spec : RequestSpec} {Own : String → Type 0} (r : Reconciler W)
    (look : W → X) (frame : Footprint r.services look spec Own) (part : Part X) where
  open r use {library as lib, services as sv}

  abbrev Out : State W → Type 0
  Out = Apart look spec part

  write_records-Apart : Keeps Out (write_validation_records r)
  unfolding write_validation_records
  write_records-Apart =
      Keeps-bind _ _
        (Keeps-attempt _ (
          call-Apart r look frame part (ensure_validation_records r)
            (write_records_look r look frame)))
        (Keeps-result _ _
          (λ _.
            succeed-Apart r look frame part type_dns_validated "RecordsCreated"
              "DNS validation records created" "DnsValidationRecordsCreated"
              "DNS validation records created in Route53")
          (λ e.
            Keeps-if (is_not_ready e) _ _
              (wait-Apart r look frame part type_dns_validated "PendingValidationRecords"
                "Waiting for ACM to provide DNS validation records")
              (reject-Apart r look frame part type_dns_validated "ValidationRecordFailed"
                "DnsValidationFailed" "Failed to create DNS validation records: " e)))

  issuance-Apart : Keeps Out (await_issuance r)
  unfolding await_issuance
  issuance-Apart =
      Keeps-bind _ _
        (Keeps-attempt _ (
          call-Apart r look frame part (check_certificate_status r)
            (λ ghr w h. check_look r look frame ghr w)))
        (Keeps-result _ _
          (λ issued.
            Keeps-if issued _ _
              (succeed-Apart r look frame part type_certificate_issued "Issued"
                "Certificate issued by ACM" "CertificateIssued" "ACM certificate issued")
              (wait-Apart r look frame part type_certificate_issued "PendingIssuance"
                "Waiting for ACM to issue certificate"))
          (reject-Apart r look frame part type_certificate_issued "CheckFailed"
            "CertificateCheckFailed" "Failed to check certificate status: "))

  attach-Apart : Keeps Out (attach r)
  unfolding attach
  attach-Apart = Keeps-bind _ _ (Keeps-attempt _ (assignment-Apart r look frame part)) (λ result.
      Keeps-bind _ _ (Keeps-gets (λ s. s.ghr.status.assigned_gateway)) (λ gateway.
        Keeps-result _ _
          (λ _.
            succeed-Apart r look frame part type_listener_attached "Attached"
              "Certificate attached to Gateway" "GatewayAssigned"
              ("Assigned to gateway " <> gateway))
          (reject-Apart r look frame part type_listener_attached "AttachmentFailed"
            "GatewayAssignmentFailed" "Failed to assign gateway: ")
          result))

  await_load_balancer-Apart : (gateway : String) → Keeps Out (await_load_balancer r gateway)
  unfolding await_load_balancer
  await_load_balancer-Apart gateway =
      Keeps-bind _ _
        (emit-Apart r look frame part normal "WaitingForLoadBalancer"
          ("Waiting for ALB provisioning (gateway: " <> gateway <> ")"))
        (λ _. Keeps-raise (after 30))

  publish-Apart : Keeps Out (publish r)
  unfolding publish
  publish-Apart = Keeps-bind _ _ (Keeps-attempt _ (alias-Apart r look frame part)) (λ result.
      Keeps-bind _ _ (Keeps-gets (λ s. s.ghr.status)) (λ status.
        Keeps-result _ _
          (λ _.
            succeed-Apart r look frame part type_dns_alias_ready "Created"
              "Route53 ALIAS record created" "DnsAliasReady"
              ("Route53 ALIAS record created pointing to " <> status.assigned_load_balancer))
          (λ e.
            Keeps-if (error_text e == error_text (not_provisioned status.assigned_gateway)) _ _
              (await_load_balancer-Apart status.assigned_gateway)
              (reject-Apart r look frame part type_dns_alias_ready "AliasFailed" "DnsAliasFailed"
                "Failed to create Route53 ALIAS record: " e))
          result))

  pub configuration-Apart : Keeps Out (sync_configuration r)
  unfolding sync_configuration
  configuration-Apart =
      Keeps-bind _ _
        (Keeps-attempt {F = Outcome} _ (
          call-Apart r look frame part (ensure_namespace_label r)
            (λ ghr w h. label_look r look frame ghr w)))
        (λ _.
          Keeps-bind _ _
            (Keeps-attempt {F = Outcome} _ (
              call-Apart r look frame part (ensure_allowed_routes r)
                (λ ghr w h. routes_look r look frame ghr w)))
            (λ _. Keeps-bind _ _ (Keeps-gets (λ s. s.ghr.status.assigned_gateway)) (λ gateway.
              Keeps-if (gateway == "") _ _ (Keeps-pure tt) (
                Keeps-bind _ _
                  (Keeps-attempt {F = Outcome} _ (
                    call-Apart r look frame part (ensure_gateway_configuration r)
                      (λ ghr w h. configuration_look r look frame ghr w)))
                  (λ _. Keeps-pure tt)))))

  pub ready-Apart : Keeps Out (mark_ready r)
  unfolding mark_ready
  ready-Apart = Keeps-bind _ _ (Keeps-gets (λ s. s.ghr.meta.generation)) (λ generation.
      Keeps-bind _ _ (Keeps-gets (λ s. compute_spec_hash lib s.ghr.spec)) (λ hash.
        Keeps-bind _ _
          (change_status-Apart r look frame part
            (λ st. record st { observed_generation = generation; observed_spec_hash = hash }))
          (λ _.
            succeed-Apart r look frame part type_ready "Ready" "Hostname request fully provisioned"
              "Ready" "Hostname fully provisioned")))

  pub provision-Apart : Keeps Out (provision r)
  unfolding provision
  provision-Apart = Keeps-bind _ _ (certificate-Apart r look frame part) (λ _.
      Keeps-bind _ _ (unless-Apart r look frame part type_dns_validated _ write_records-Apart) (λ _.
        Keeps-bind _ _ (unless-Apart r look frame part type_certificate_issued _ issuance-Apart)
          (λ _.
            Keeps-bind _ _ (unless-Apart r look frame part type_listener_attached _ attach-Apart)
              (λ _. unless-Apart r look frame part type_dns_alias_ready _ publish-Apart))))

  pub after_drift-Apart :
      ((ghr : Request) (w : W)
        → Asks spec part.who ghr
        → part.holds (look w)
        → part.holds (look (ensure_domain_claim r ghr w).1))
      → Keeps Out (after_drift r)
  after_drift-Apart keeps = Keeps-bind _ _ (resource_drift-Apart r look frame part) (λ _.
      Keeps-bind _ _ (validate-Apart r look frame part) (λ _.
        Keeps-bind _ _ (claim-Apart r look frame part keeps) (λ _.
          Keeps-bind _ _ provision-Apart
            (λ _. Keeps-bind _ _ configuration-Apart (λ _. ready-Apart)))))

  pub normal-Apart : ClaimCalls r look spec part → Keeps Out (reconcile_normal r)
  unfolding reconcile_normal
  normal-Apart calls =
      Keeps-bind _ _ (spec_drift-Apart r look frame part calls)
        (λ _. after_drift-Apart calls.ensure)
