-- ===== src/Controller/Reconcile/Heals.antt =====
-- A gateway that is gone.
use gateway_orchestrator.Prelude.{
  ◌≡◌, ◌≢◌, refl, ap, ◌∙◌, String, ◌<>◌, Bool, true, false, not, ◌&&◌, ◌||◌, ◌==◌, ok, err, arith,
  Exec, pure, Result, Result-cases, inl, inr, ◌>>=◌, ◌>>◌, map_err, if◌then◌else◌,
}
use gateway_orchestrator.Prelude.Triple.{
  Keeps, Keeps-bind, Keeps-attempt, Keeps-map_err, Keeps-if, bind_ok,
}
use gateway_orchestrator.Prelude.Keeping.{Keeps-result, Keeps-pure, Keeps-gets}
use gateway_orchestrator.Api.Meta.{Error, wrap, error_text}
use gateway_orchestrator.Api.Request.{Request}
use gateway_orchestrator.Services.{EventType, warning}
use gateway_orchestrator.Services.Laws.{StatusStore, ConditionRemoval}
use gateway_orchestrator.Controller.Types.{
  Reconciler, State, Handler, Action, call, change_status, type_listener_attached,
  type_dns_alias_ready, type_certificate_issued,
}
use gateway_orchestrator.Controller.Status.{
  emit, is_true, set_condition, update_status, try_update_status,
}
use gateway_orchestrator.Controller.Gateway.{gateway_key}
use gateway_orchestrator.Controller.Drift.{
  without_certificate, forget_gateway, look_for_gateway, check_gateway, forget_certificate,
  look_for_certificate, check_certificate, validate_assigned_resources,
}
use gateway_orchestrator.Controller.Reconcile.Unassigned.{
  Unassigned, without_gateway-Unassigned, without_certificate-Unassigned,
}
use gateway_orchestrator.Controller.Steps.{detect_resource_drift, unless, attach, publish}

module _ {W : Type 0} (r : Reconciler W) (store : StatusStore r.library r.services)
    (removal : ConditionRemoval r.library) where
  open r use {library as lib, services as sv}

  abbrev pub Loose : State W → Type 0
  Loose s = Unassigned lib s.ghr.status

  set_note-Loose :
      {E : Type 0} (reason message : String)
      → Keeps {E = E} Loose (set_condition r "ResourceValidationError" "True" reason message)
  unfolding set_condition
  set_note-Loose reason message = record {
    at = λ s p. record {
      no_gateway = p.no_gateway;
      no_namespace = p.no_namespace;
      no_load_balancer = p.no_load_balancer;
      not_attached = store.set_others _ _ _ (λ e. cc) ∙ p.not_attached;
      not_published = store.set_others _ _ _ (λ e. cc) ∙ p.not_published;
      not_ready = store.set_others _ _ _ (λ e. cc) ∙ p.not_ready;
    };
  }

  emit-Loose :
      {E : Type 0} (type : EventType) (reason message : String)
      → Keeps {E = E} Loose (emit r type reason message)
  unfolding emit
  emit-Loose type reason message = record { at = λ s p. p }

  call-Loose : {E A : Type 0} (f : Request → Exec W E A) → Keeps Loose (call f)
  call-Loose f = record { at = λ s p. p }

  update-Loose : Keeps Loose (update_status r)
  unfolding update_status
  update-Loose = record {
    at = λ s p. elim (Result-cases (sv.update_status s.ghr s.world).0) [
      | inl (g, e) ↦
          let (status, spec) = store.update_echo s.ghr s.world g e in
          rw (update_status, e) (rw status p)
      | inr (x, e) ↦ rw (update_status, e) p
    ];
  }

  forget_certificate-Loose :
      (reason message : String) → Keeps Loose (forget_certificate r reason message)
  unfolding forget_certificate
  forget_certificate-Loose reason message = Keeps-bind _ _ (emit-Loose warning reason message) (λ _.
      Keeps-bind (change_status (without_certificate lib)) _
        (record { at = λ s p. without_certificate-Unassigned lib removal s.ghr.status p })
        (λ _. Keeps-pure true))

  certificate-Loose : Keeps Loose (check_certificate r)
  unfolding check_certificate look_for_certificate is_true
  certificate-Loose = Keeps-bind _ _ (Keeps-gets (λ s. s.ghr.status.certificate_arn)) (λ arn.
      Keeps-bind _ _
        (Keeps-gets
          (λ s. lib.is_status_condition_true s.ghr.status.conditions type_certificate_issued))
        (λ issued.
          Keeps-if (not (arn == "") && issued) _ _
            (Keeps-bind _ _
              (Keeps-attempt _
                (call-Loose (λ ghr. sv.acm.describe_certificate ghr.status.certificate_arn)))
              (Keeps-result _ _
                (λ details.
                  Keeps-if ((details.status == "FAILED") || (details.status == "REVOKED")) _ _
                    (forget_certificate-Loose "CertificateFailed"
                      ("ACM certificate is in " <> details.status <> " state"))
                    (Keeps-pure false))
                (λ _.
                  forget_certificate-Loose "DriftDetected"
                    ("ACM certificate " <> arn <> " no longer exists"))))
            (Keeps-pure false)))

  forget_gateway-Loose : (s : State W) → Loose (forget_gateway r s).1
  unfolding forget_gateway emit
  forget_gateway-Loose s = without_gateway-Unassigned lib removal s.ghr.status

  -- The rest of `validateAssignedResources`, behind its first check.
  abbrev behind_gateway : Bool → Action W (Unit {0})
  behind_gateway gateway_drift = check_certificate r >>= λ certificate_drift.
      if gateway_drift || certificate_drift
      then map_err (wrap "failed to update status after drift detection") (update_status r)
      else pure tt

  behind_gateway-Loose : (b : Bool) → Keeps Loose (behind_gateway b)
  behind_gateway-Loose b = Keeps-bind _ _ certificate-Loose (λ certificate_drift.
      Keeps-if (b || certificate_drift) _ _
        (Keeps-map_err (wrap "failed to update status after drift detection") _ update-Loose)
        (Keeps-pure tt))

  -- The end of `reconcileNormal`'s drift check, by the answer of the validation.
  abbrev noted : Result Error (Unit {0}) → Handler W (Unit {0})
  noted result = elim result [
    | ok _ ↦ pure tt
    | err e ↦
        set_condition r "ResourceValidationError" "True" "ValidationFailed"
          ("Validation error (will auto-correct): " <> error_text e)
        >> (try_update_status r >> pure tt)
  ]

  try_update-Loose : {E : Type 0} → Keeps {E = E} Loose (try_update_status r)
  unfolding try_update_status
  try_update-Loose = Keeps-attempt (update_status r) update-Loose

  noted-Loose : (result : Result Error (Unit {0})) → Keeps Loose (noted result)
  noted-Loose =
      Keeps-result _ _ (λ _. Keeps-pure tt)
        (λ e.
          Keeps-bind _ _
            (set_note-Loose "ValidationFailed"
              ("Validation error (will auto-correct): " <> error_text e))
            (λ _. Keeps-bind _ _ try_update-Loose (λ _. Keeps-pure tt)))

  module _ (s : State W) (e : Error) (assigned : s.ghr.status.assigned_gateway ≢ "")
      (attached : lib.is_status_condition_true s.ghr.status.conditions type_listener_attached
        ≡ true)
      (answer : (sv.gateways.get (gateway_key s.ghr) s.world).0 ≡ err e)
      (missing : lib.is_not_found e ≡ true) where
    -- The state in which the gateway is forgotten.
    abbrev told : State W
    told = record s { world = (sv.gateways.get (gateway_key s.ghr) s.world).1 }

    finds_gone : check_gateway r s ≡ forget_gateway r told
    unfolding check_gateway look_for_gateway is_true
    finds_gone = ground arith

    forgets : (forget_gateway r told).0 ≡ ok true
    unfolding forget_gateway emit
    forgets = refl

    resources-Loose : Loose (validate_assigned_resources r s).1
    unfolding validate_assigned_resources
    resources-Loose =
        rw (bind_ok (check_gateway r) behind_gateway s true (ap (λ p. p.0) finds_gone ∙ forgets)) (
          (behind_gateway-Loose true).at (check_gateway r s).1
            (rw finds_gone (forget_gateway-Loose told)))

    drift-Loose : Loose (detect_resource_drift r s).1
    unfolding detect_resource_drift
    drift-Loose =
        (noted-Loose (validate_assigned_resources r s).0).at (validate_assigned_resources r s).1
          resources-Loose

    drift_goes_on : (detect_resource_drift r s).0 ≡ ok tt
    unfolding detect_resource_drift set_condition try_update_status
    drift_goes_on = ground arith

    unless-false :
        (type : String) (step : Handler W (Unit {0})) (t : State W)
        → lib.is_status_condition_true t.ghr.status.conditions type ≡ false
        → unless r type step t ≡ step t
    unfolding unless is_true
    unless-false type step t h = ground arith

    -- Where a request is attached to a gateway that the API server no longer finds, the
    -- drift check of `reconcileNormal` goes on, whether or not the status can be
    -- stored, with a status that names no gateway and no load balancer and in which none of the
    -- conditions ListenerAttached, DnsAliasReady and Ready is true; and the assignment of a
    -- gateway and the publication of the hostname, which those conditions guard, are not skipped
    -- in that state.
    pub missing_gateway_heals :
        let s' = (detect_resource_drift r s).1 in
        ((detect_resource_drift r s).0 ≡ ok tt)
        × Loose s'
        × (unless r type_listener_attached (attach r) s' ≡ attach r s')
        × (unless r type_dns_alias_ready (publish r) s' ≡ publish r s')
    missing_gateway_heals =
        let s' = (detect_resource_drift r s).1 in
        (
          drift_goes_on,
          drift-Loose,
          unless-false type_listener_attached (attach r) s' drift-Loose.not_attached,
          unless-false type_dns_alias_ready (publish r) s' drift-Loose.not_published,
        )
