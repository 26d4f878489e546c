-- ===== src/Controller/Steps/Observe.antt =====
-- The part of reconcileNormal before its first step: has the spec or a resource drifted?
use gateway_orchestrator.Prelude.{
  ◌<>◌, not, ◌&&◌, [], ok, err, ◌>>=◌, ◌>>◌, pure, raise, attempt, gets, ◌==◌, if◌then◌else◌,
}
use gateway_orchestrator.Api.Meta.{Error, error_text}
use gateway_orchestrator.Api.Request.{RequestStatus}
use gateway_orchestrator.Services.{normal}
use gateway_orchestrator.Controller.Types.{Reconciler, Handler, Outcome, again, call, change_status}
use gateway_orchestrator.Controller.Status.{
  compute_spec_hash, set_condition, update_status, try_update_status, emit, must,
}
use gateway_orchestrator.Controller.Drift.{validate_assigned_resources, cleanup_for_reprovisioning}

-- What a changed spec leaves of the status.
abbrev pub cleared : RequestStatus
cleared = record {
  observed_generation = 0;
  observed_spec_hash = "";
  assigned_gateway = "";
  assigned_gateway_namespace = "";
  assigned_load_balancer = "";
  certificate_arn = "";
  conditions = [];
}

module _ {W : Type 0} (r : Reconciler W) where
  open r use {library as lib, services as sv}

  -- The spec is not the one that was provisioned: clean up, clear the status, start afresh.
  unfoldable pub reprovision : Handler W (Unit {0})
  reprovision = do
    emit r normal "SpecChanged" "Spec changed, cleaning up for re-provisioning"
    attempt {F = Outcome} (call {E = Error} (cleanup_for_reprovisioning r))
    change_status (λ st. cleared)
    must (update_status r)
    raise again

  unfoldable pub detect_spec_drift : Handler W (Unit {0})
  unfolding reprovision
  detect_spec_drift = do
    observed ← gets (λ s. s.ghr.status.observed_spec_hash)
    current ← gets (λ s. compute_spec_hash lib s.ghr.spec)
    if not (observed == "") && not (observed == current) then reprovision else pure tt

  -- A failure of the validation of the assigned resources is noted, and the run goes on.
  unfoldable pub detect_resource_drift : Handler W (Unit {0})
  detect_resource_drift = do
    result ← attempt (validate_assigned_resources r)
    elim result [
      | ok _ ↦ pure tt
      | err e ↦ do
        set_condition r "ResourceValidationError" "True" "ValidationFailed"
            ("Validation error (will auto-correct): " <> error_text e)
        try_update_status r
        pure tt
    ]
