-- ===== src/Tests/Settled.antt =====
-- A request whose spec has changed.
use gateway_orchestrator.Prelude.{◌≡◌, refl, ok, err, [], ◌∷◌, string_dec}
use gateway_orchestrator.Go.Strings.{lower, to_lower, replace_all}
use gateway_orchestrator.Go.Format.{hex_encode}
use gateway_orchestrator.Api.Meta.{error_text}
use gateway_orchestrator.Api.Request.{Request}
use gateway_orchestrator.Controller.Types.{State, again}
use gateway_orchestrator.Controller.Status.{compute_spec_hash, update_status, emit}
use gateway_orchestrator.Controller.Claim.{
  generate_claim_name, delete_domain_claim, ignoring_not_found,
}
use gateway_orchestrator.Controller.Gateway.{remove_namespace_label}
use gateway_orchestrator.Controller.Alias.{delete_aliases}
use gateway_orchestrator.Controller.Drift.{
  detach_certificate, delete_validation_records, clean_up, cleanup_for_reprovisioning,
}
use gateway_orchestrator.Controller.Steps.{reprovision, detect_spec_drift}
use gateway_orchestrator.Controller.Reconcile.Settled.{reprovision_settles, Restarted}
use gateway_orchestrator.Tests.Memory.{World, named, without}
use gateway_orchestrator.Tests.Store.{status_store}
use gateway_orchestrator.Tests.Data.{reconciler, claimed_world, shop, no_status, in_world}

abbrev changed_shop : Request
changed_shop = record shop { status = record no_status { observed_spec_hash = "00" } }

abbrev changed : State World
changed = in_world changed_shop (claimed_world (changed_shop ∷ []))

starts_again : (detect_spec_drift reconciler changed).0 ≡ err again
unfolding detect_spec_drift reprovision compute_spec_hash update_status emit hex_encode
    cleanup_for_reprovisioning clean_up delete_aliases detach_certificate delete_validation_records
    remove_namespace_label delete_domain_claim ignoring_not_found generate_claim_name lower to_lower
    replace_all named without string_dec error_text
starts_again = refl

-- The request as it was stored, in the world as it was before.
abbrev second : State World
second = in_world (detect_spec_drift reconciler changed).1.ghr (changed.world)

reprovision_settles_example :
    Restarted reconciler status_store changed (detect_spec_drift reconciler changed).1
    × (detect_spec_drift reconciler second ≡ (ok tt, second))
reprovision_settles_example =
    reprovision_settles reconciler status_store changed second starts_again refl
