-- ===== src/Tests/Healing.antt =====
-- A request whose gateway is gone.
use gateway_orchestrator.Prelude.{◌≡◌, refl, ok, [], ◌∷◌, string_dec}
use gateway_orchestrator.Api.Meta.{error_text}
use gateway_orchestrator.Api.Request.{Request}
use gateway_orchestrator.Controller.Types.{State, type_listener_attached, type_dns_alias_ready}
use gateway_orchestrator.Controller.Steps.{detect_resource_drift, unless, attach, publish}
use gateway_orchestrator.Controller.Reconcile.Heals.{missing_gateway_heals, Loose}
use gateway_orchestrator.Tests.Memory.{World, named, not_found, empty_world}
use gateway_orchestrator.Tests.Store.{status_store, condition_removal}
use gateway_orchestrator.Tests.Data.{reconciler, attached_shop, in_world}

-- The shop was attached, and nothing is left in the cluster.
abbrev bereft_shop : Request
bereft_shop = record attached_shop {
  status = record (attached_shop.status) {
    conditions =
        record {
          type = "ListenerAttached";
          status = "True";
          observed_generation = 1;
          reason = "Attached";
          message = "";
        }
        ∷ [];
  };
}

abbrev bereft : State World
bereft = in_world bereft_shop empty_world

missing_gateway_heals_example :
    let s' = (detect_resource_drift reconciler bereft).1 in
    ((detect_resource_drift reconciler bereft).0 ≡ ok tt)
    × Loose reconciler status_store condition_removal s'
    × (unless reconciler type_listener_attached (attach reconciler) s' ≡ attach reconciler s')
    × (unless reconciler type_dns_alias_ready (publish reconciler) s' ≡ publish reconciler s')
missing_gateway_heals_example =
    missing_gateway_heals reconciler status_store condition_removal bereft not_found (λ e. cc)
      (unfold named string_dec in refl) (unfold named string_dec in refl)
      (unfold error_text string_dec in refl)
