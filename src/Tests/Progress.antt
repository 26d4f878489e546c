-- ===== src/Tests/Progress.antt =====
-- Runs that stop before their end.
use gateway_orchestrator.Prelude.{◌≡◌, ◌⊎◌, refl, err, [], ◌∷◌, string_dec}
use gateway_orchestrator.Go.Strings.{lower, to_lower, replace_all}
use gateway_orchestrator.Api.Meta.{error_text}
use gateway_orchestrator.Controller.Types.{State, done, failed}
use gateway_orchestrator.Controller.Status.{
  validate_request, set_condition, update_status, emit, is_true, try_update_status,
}
use gateway_orchestrator.Controller.Claim.{
  generate_claim_name, create_domain_claim, ensure_domain_claim, delete_domain_claim,
  ignoring_not_found,
}
use gateway_orchestrator.Controller.Drift.{
  check_gateway, check_certificate, validate_assigned_resources,
}
use gateway_orchestrator.Controller.Steps.{
  detect_spec_drift, detect_resource_drift, validate, claim, lose_claim,
}
use gateway_orchestrator.Controller.Delete.{
  poll_certificate_detachment, finalize_deletion, clean_gateway, refetch, reconcile_delete,
}
use gateway_orchestrator.Controller.Reconcile.{reconcile_normal}
use gateway_orchestrator.Controller.Progress.{Retried}
use gateway_orchestrator.Controller.Progress.Retry.{
  LostAt, claimant, reconcile_normal-Retried, reconcile_delete-Retried,
}
use gateway_orchestrator.Tests.Memory.{World, named, without, not_found, empty_world}
use gateway_orchestrator.Tests.Data.{reconciler, claimed_world, rival, waiting_shop, in_world}

-- The rival asks for the shop's hostname.
abbrev late : State World
late = in_world rival (claimed_world (rival ∷ []))

loses : (reconcile_normal reconciler late).0 ≡ err done
unfolding reconcile_normal detect_spec_drift detect_resource_drift validate claim lose_claim
    validate_assigned_resources check_gateway check_certificate validate_request set_condition
    update_status emit is_true try_update_status ensure_domain_claim create_domain_claim
    generate_claim_name lower to_lower replace_all named without string_dec error_text
loses = refl

reconcile_normal-Retried_example :
    Retried done ⊎ ((done ≡ done) × LostAt reconciler (claimant reconciler late))
reconcile_normal-Retried_example = reconcile_normal-Retried reconciler late done loses

-- A deletion whose request cannot be read back.
abbrev vanished : State World
vanished =
    in_world
      (record waiting_shop {
        status = record (waiting_shop.status) { assigned_gateway = ""; certificate_arn = "" };
      })
      empty_world

fails : (reconcile_delete reconciler vanished).0 ≡ err (failed not_found)
unfolding reconcile_delete poll_certificate_detachment finalize_deletion clean_gateway refetch
    delete_domain_claim ignoring_not_found generate_claim_name lower to_lower replace_all named
    without string_dec error_text
fails = refl

reconcile_delete-Retried_example : Retried (failed not_found)
reconcile_delete-Retried_example =
    reconcile_delete-Retried reconciler vanished (failed not_found) fails
