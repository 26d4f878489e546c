-- ===== src/Controller/Footprint/Claiming.antt =====
-- The first steps of reconcileNormal, and the ends that its steps share.
use gateway_orchestrator.Prelude.{String, ◌<>◌, ◌==◌}
use gateway_orchestrator.Prelude.Triple.{Keeps, Keeps-bind, Keeps-attempt, Keeps-map_err, Keeps-if}
use gateway_orchestrator.Prelude.Keeping.{Keeps-result, Keeps-pure, Keeps-raise, Keeps-gets}
use gateway_orchestrator.Api.Request.{Request, RequestSpec}
use gateway_orchestrator.Services.{normal, warning}
use gateway_orchestrator.Controller.Types.{
  Reconciler, State, Handler, failed, done, after, type_claimed, type_certificate_requested,
  type_ready,
}
use gateway_orchestrator.Controller.Status.{validate_request, update_status, must}
use gateway_orchestrator.Controller.Claim.{ensure_domain_claim}
use gateway_orchestrator.Controller.Certificate.{request_certificate}
use gateway_orchestrator.Controller.Steps.{
  validate, lose_claim, win_claim, claim, record_certificate, obtain_certificate,
  ensure_certificate, unless, succeed, wait,
}
use gateway_orchestrator.Controller.Footprint.Defs.{Footprint, Part, Apart, Asks}
use gateway_orchestrator.Controller.Footprint.Cluster.{request_look}
use gateway_orchestrator.Controller.Footprint.Assigning.{
  call-Apart, claim_call-Apart, change_status-Apart, update_status-Apart, try_update-Apart,
  set_condition-Apart, emit-Apart, reject-Apart,
}
use gateway_orchestrator.Controller.Footprint.Drifting.{is_true-Apart}

module _ {W X : Type 0} {spec : RequestSpec} {Own : String → Type 0} (r : Reconciler W)
    (look : W → X) (frame : Footprint r.services look spec Own) (part : Part X) where
  open r use {library as lib, services as sv}

  abbrev Out : State W → Type 0
  Out = Apart look spec part

  pub validate-Apart : Keeps Out (validate r)
  unfolding validate
  validate-Apart = Keeps-bind _ _ (Keeps-gets (λ s. validate_request s.ghr)) (
      Keeps-result _ _ (λ _. Keeps-pure tt)
        (reject-Apart r look frame part type_ready "ValidationFailed" "ValidationFailed"
          "Request validation failed: "))

  lose_claim-Apart : Keeps Out (lose_claim r)
  unfolding lose_claim
  lose_claim-Apart =
      Keeps-bind _ _
        (set_condition-Apart r look frame part type_claimed "False" "AlreadyClaimed"
          "Hostname already claimed by another request")
        (λ _. Keeps-bind _ _ (try_update-Apart r look frame part) (λ _.
          Keeps-bind _ _
            (emit-Apart r look frame part warning "AlreadyClaimed"
              "Hostname already claimed by another request")
            (λ _. Keeps-raise done)))

  pub win_claim-Apart : Keeps Out (win_claim r)
  unfolding win_claim
  win_claim-Apart =
      Keeps-bind _ _
        (set_condition-Apart r look frame part type_claimed "True" "Claimed"
          "Domain successfully claimed")
        (λ _. emit-Apart r look frame part normal "Claimed" "Domain successfully claimed")

  pub claim-Apart :
      ((ghr : Request) (w : W)
        → Asks spec part.who ghr
        → part.holds (look w)
        → part.holds (look (ensure_domain_claim r ghr w).1))
      → Keeps Out (claim r)
  unfolding claim
  claim-Apart keeps =
      Keeps-bind _ _
        (Keeps-attempt _ (claim_call-Apart r look frame part (ensure_domain_claim r) keeps))
        (Keeps-result _ _ (λ claimed. Keeps-if claimed _ _ win_claim-Apart lose_claim-Apart)
          (reject-Apart r look frame part type_claimed "ClaimFailed" "ClaimFailed"
            "Failed to claim domain: "))

  must_update-Apart : Keeps Out (must (update_status r))
  must_update-Apart = Keeps-map_err failed _ (update_status-Apart r look frame part)

  record_certificate-Apart : (arn : String) → Keeps Out (record_certificate r arn)
  unfolding record_certificate
  record_certificate-Apart arn =
      Keeps-bind _ _
        (change_status-Apart r look frame part (λ st. record st { certificate_arn = arn }))
        (λ _.
          Keeps-bind _ _
            (set_condition-Apart r look frame part type_certificate_requested "True" "Requested"
              "Certificate requested from ACM")
            (λ _.
              Keeps-bind _ _
                (emit-Apart r look frame part normal "CertificateRequested"
                  ("ACM certificate request submitted (" <> arn <> ")"))
                (λ _. must_update-Apart)))

  pub certificate-Apart : Keeps Out (ensure_certificate r)
  unfolding ensure_certificate obtain_certificate
  certificate-Apart = Keeps-bind _ _ (Keeps-gets (λ s. s.ghr.status.certificate_arn)) (λ arn.
      Keeps-if (arn == "") _ _
        (Keeps-bind _ _
          (Keeps-attempt _ (
            call-Apart r look frame part (request_certificate r)
              (λ ghr w h. request_look r look frame ghr w)))
          (Keeps-result _ _ record_certificate-Apart (
            reject-Apart r look frame part type_certificate_requested "RequestFailed"
              "CertificateRequestFailed" "Failed to request certificate: ")))
        (Keeps-pure tt))

  pub unless-Apart :
      (type : String) (step : Handler W (Unit {0}))
      → Keeps Out step
      → Keeps Out (unless r type step)
  unfolding unless
  unless-Apart type step k =
      Keeps-bind _ _ (is_true-Apart r look frame part type)
        (λ already. Keeps-if already _ _ (Keeps-pure tt) k)

  pub succeed-Apart :
      (type reason message event_reason event_message : String)
      → Keeps Out (succeed r type reason message event_reason event_message)
  unfolding succeed
  succeed-Apart type reason message event_reason event_message =
      Keeps-bind _ _ (set_condition-Apart r look frame part type "True" reason message) (λ _.
        Keeps-bind _ _ (emit-Apart r look frame part normal event_reason event_message)
          (λ _. must_update-Apart))

  pub wait-Apart : (type reason message : String) → Keeps Out (wait r type reason message)
  unfolding wait
  wait-Apart type reason message =
      Keeps-bind _ _ (set_condition-Apart r look frame part type "False" reason message)
        (λ _. Keeps-bind _ _ (try_update-Apart r look frame part) (λ _. Keeps-raise (after 30)))
