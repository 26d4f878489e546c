-- ===== src/Controller/Reconcile/Ready.antt =====
-- What a run of `reconcileNormal` that comes to its end has stored.
use gateway_orchestrator.Prelude.{
  ◌≡◌, refl, String, ◌<>◌, Result, ok, arith, List, [], ◌∷◌, ◌==◌, ==_refl,
}
use gateway_orchestrator.Prelude.Triple.{
  Triple, Triple-bind, Triple-if, Triple-try, Triple-try_gets,
}
use gateway_orchestrator.Api.Meta.{is_not_ready, error_text}
use gateway_orchestrator.Api.Request.{Request}
use gateway_orchestrator.Services.Laws.{StatusStore}
use gateway_orchestrator.Controller.Types.{
  Reconciler, State, Handler, call, type_dns_validated, type_certificate_issued,
  type_listener_attached, type_dns_alias_ready, type_ready,
}
use gateway_orchestrator.Controller.Status.{compute_spec_hash, emit}
use gateway_orchestrator.Controller.Steps.{
  write_validation_records, await_issuance, attach, publish, sync_configuration, mark_ready,
  await_load_balancer, unless, ensure_certificate, detect_spec_drift, detect_resource_drift,
  validate, claim,
}
use gateway_orchestrator.Controller.Certificate.{
  ensure_validation_records, check_certificate_status,
}
use gateway_orchestrator.Controller.Assign.{ensure_gateway_assignment}
use gateway_orchestrator.Controller.Alias.{ensure_route53_alias, not_provisioned}
use gateway_orchestrator.Controller.Alias.Keeps.{ensure_route53_alias_conditions}
use gateway_orchestrator.Controller.Assign.Keeps.{ensure_gateway_assignment_conditions}
use gateway_orchestrator.Controller.Reconcile.{provision, reconcile_normal}
use gateway_orchestrator.Controller.Reconcile.Holding.{
  Held, AllHold, Fresh, succeed-Fresh, succeed-Held, reject-Held, wait-Held, unless-Held,
}

module _ {W : Type 0} (r : Reconciler W) (store : StatusStore r.library r.services) where
  open r use {library as lib, services as sv}

  -- A call leaves the request as it was.
  call-Held :
      {E A : Type 0} (types : List String) (f : Request → (W → Result E A × W))
      → Triple (Held r store types) (call f) (λ x s. Held r store types s)
  call-Held types f = record { at = λ s p a h. p }

  write-Held :
      (types : List String)
      → Triple
          (Held r store types)
          (write_validation_records r)
          (λ a s. Held r store (type_dns_validated ∷ types) s)
  unfolding write_validation_records
  write-Held types =
      Triple-try (call (ensure_validation_records r)) _ _
        (call-Held types (ensure_validation_records r)) (λ _. succeed-Held r store types _ _ _ _ _)
        (λ e.
          Triple-if (is_not_ready e) _ _ (wait-Held r store _ _ _ _ _)
            (reject-Held r store _ _ _ _ _ _ e))

  await-Held :
      (types : List String)
      → Triple
          (Held r store types)
          (await_issuance r)
          (λ a s. Held r store (type_certificate_issued ∷ types) s)
  unfolding await_issuance
  await-Held types =
      Triple-try (call (check_certificate_status r)) _ _
        (call-Held types (check_certificate_status r))
        (λ issued.
          Triple-if issued _ _ (succeed-Held r store types _ _ _ _ _) (wait-Held r store _ _ _ _ _))
        (λ e. reject-Held r store _ _ _ _ _ _ e)

  await_load_balancer-Held :
      (P : State W → Type 0) (Q : Unit {0} → State W → Type 0) (gateway : String)
      → Triple P (await_load_balancer r gateway) Q
  unfolding await_load_balancer emit
  await_load_balancer-Held P Q gateway = record { at = λ s p a h. absurd (cc) }

  attach-Held :
      (types : List String)
      → Triple
          (Held r store types)
          (attach r)
          (λ a s. Held r store (type_listener_attached ∷ types) s)
  unfolding attach
  attach-Held types =
      Triple-try_gets (ensure_gateway_assignment r) (λ s. s.ghr.status.assigned_gateway) _ _
        (record { at = λ s p a h. rw (ensure_gateway_assignment_conditions r s) p })
        (λ gateway _.
          succeed-Held r store types _ "Attached" "Certificate attached to Gateway"
            "GatewayAssigned" ("Assigned to gateway " <> gateway))
        (λ gateway e.
          reject-Held r store _ _ type_listener_attached "AttachmentFailed"
            "GatewayAssignmentFailed" "Failed to assign gateway: " e)

  publish-Held :
      (types : List String)
      → Triple
          (Held r store types)
          (publish r)
          (λ a s. Held r store (type_dns_alias_ready ∷ types) s)
  unfolding publish
  publish-Held types =
      Triple-try_gets (ensure_route53_alias r) (λ s. s.ghr.status) _ _
        (record { at = λ s p a h. rw (ensure_route53_alias_conditions r s) p })
        (λ status _.
          succeed-Held r store types _ "Created" "Route53 ALIAS record created" "DnsAliasReady"
            ("Route53 ALIAS record created pointing to " <> status.assigned_load_balancer))
        (λ status e.
          Triple-if (error_text e == error_text (not_provisioned status.assigned_gateway)) _ _
            (await_load_balancer-Held _ _ status.assigned_gateway)
            (reject-Held r store _ _ type_dns_alias_ready "AliasFailed" "DnsAliasFailed"
              "Failed to create Route53 ALIAS record: " e))

  abbrev written : List String
  written = type_dns_validated ∷ []

  abbrev issued_types : List String
  issued_types = type_certificate_issued ∷ written

  abbrev attached : List String
  attached = type_listener_attached ∷ issued_types

  abbrev provisioned : List String
  provisioned = type_dns_alias_ready ∷ attached

  -- Steps 3 to 7.
  provision-Held : Triple (λ s. Unit) (provision r) (λ a s. Held r store provisioned s)
  unfolding provision
  provision-Held =
      Triple-bind (ensure_certificate r) _ (record { at = λ s p a h. tt })
        (λ _.
          Triple-bind (unless r type_dns_validated (write_validation_records r)) _
            (unless-Held r store [] _ _ (write-Held []))
            (λ _.
              Triple-bind (unless r type_certificate_issued (await_issuance r)) _
                (unless-Held r store written _ _ (await-Held written))
                (λ _.
                  Triple-bind (unless r type_listener_attached (attach r)) _
                    (unless-Held r store issued_types _ _ (attach-Held issued_types))
                    (λ _. unless-Held r store attached _ _ (publish-Held attached)))))

  sync_configuration_request : (s : State W) → (sync_configuration r s).1.ghr ≡ s.ghr
  unfolding sync_configuration
  sync_configuration_request s = ground arith

  sync_configuration-Held :
      (types : List String)
      → Triple (Held r store types) (sync_configuration r) (λ a s. Held r store types s)
  unfolding sync_configuration
  sync_configuration-Held types = record { at = λ s p a h. rw (sync_configuration_request s) p }

  mark_ready-Held :
      (types : List String)
      → Triple
          (Held r store types)
          (mark_ready r)
          (λ a s. Held r store (type_ready ∷ types) s × Fresh r store s.ghr)
  unfolding mark_ready
  mark_ready-Held types = record {
    at = λ s p a h. (
      (succeed-Held r store types _ "Ready" "Hostname request fully provisioned" "Ready"
            "Hostname fully provisioned").at
          _ p a h,
      (succeed-Fresh r store type_ready "Ready" "Hostname request fully provisioned" "Ready"
            "Hostname fully provisioned").at
          _ refl a h,
    );
  }

  -- What the run leaves in the request.
  pub record Provisioned (ghr : Request) : Type 0 where
    pub conditions : AllHold r store (type_ready ∷ provisioned) ghr.status
    pub hash : ghr.status.observed_spec_hash ≡ compute_spec_hash lib ghr.spec

  anything : {A : Type 0} (m : Handler W A) → Triple (λ s. Unit) m (λ a s. Unit)
  anything m = record { at = λ s p a h. tt }

  run-Held :
      Triple
        (λ s. Unit)
        (reconcile_normal r)
        (λ a s. Held r store (type_ready ∷ provisioned) s × Fresh r store s.ghr)
  unfolding reconcile_normal
  run-Held = Triple-bind _ _ (anything (detect_spec_drift r)) (λ _.
      Triple-bind _ _ (anything (detect_resource_drift r)) (λ _.
        Triple-bind _ _ (anything (validate r)) (λ _. Triple-bind _ _ (anything (claim r)) (λ _.
          Triple-bind _ _ provision-Held (λ _.
            Triple-bind _ _ (sync_configuration-Held provisioned)
              (λ _. mark_ready-Held provisioned))))))

  no_drift : (s : State W) → Fresh r store s.ghr → detect_spec_drift r s ≡ (ok tt, s)
  unfolding detect_spec_drift
  no_drift s h = ground (arith, ==_refl (compute_spec_hash lib s.ghr.spec))

  -- A run of `reconcileNormal` that comes to its end leaves a request whose conditions Ready,
  -- DnsAliasReady, ListenerAttached, CertificateIssued and DnsValidated are all true, whose observed
  -- hash is that of its spec, and in which the next run, if nothing has changed, finds no drift of
  -- the spec.
  pub reconcile_normal-Provisioned :
      (s : State W)
      → (reconcile_normal r s).0 ≡ ok tt
      → let s' = (reconcile_normal r s).1 in
        Provisioned s'.ghr × (detect_spec_drift r s' ≡ (ok tt, s'))
  reconcile_normal-Provisioned s h =
      let (conditions, hash) = run-Held.at s tt tt h in
      (record { conditions = conditions; hash = hash }, no_drift _ hash)
