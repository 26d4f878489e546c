-- ===== src/Tests/Phases.antt =====
-- A deletion whose certificate a load balancer still uses, from its first phase to its second.
use gateway_orchestrator.Prelude.{◌≡◌, refl, some, true, ok, err, [], ◌∷◌, string_dec}
use gateway_orchestrator.Prelude.Dict
use gateway_orchestrator.Api.Request.{Request}
use gateway_orchestrator.Aws.Mock
use gateway_orchestrator.Controller.Types.{State, after}
use gateway_orchestrator.Controller.Certificate.{is_certificate_in_use}
use gateway_orchestrator.Controller.Gateway.{remove_namespace_label}
use gateway_orchestrator.Controller.Alias.{delete_aliases}
use gateway_orchestrator.Controller.Drift.{
  clean_up, detach_certificate, delete_validation_records, delete_records,
}
use gateway_orchestrator.Controller.Delete.{reconcile_delete, poll_certificate_detachment}
use gateway_orchestrator.Controller.Delete.SecondPhase.{reconcile_delete_second_phase, marked}
use gateway_orchestrator.Tests.Memory.{World, named, without}
use gateway_orchestrator.Tests.Store.{status_store, condition_lookup}
use gateway_orchestrator.Tests.Data.{reconciler, claimed_world, shop, no_status, arn, in_world}

-- The shop is being deleted, and has a certificate.
abbrev leaving_shop : Request
leaving_shop = record shop {
  meta = record (shop.meta) { deletion_timestamp = some "2025-01-01T00:00:00Z" };
  status = record no_status { certificate_arn = arn };
}

-- ACM says that a load balancer uses the certificate.
abbrev leaving : State World
leaving = in_world leaving_shop (record (claimed_world (leaving_shop ∷ [])) {
  acm = record {
    certificates =
        (
          arn,
          record {
            arn = arn;
            domain = "shop.example.com";
            status = "ISSUED";
            in_use_by = "alb" ∷ [];
          },
        )
        ∷ [];
    validation_records = [];
    in_use_by = (arn, "alb" ∷ []) ∷ [];
  };
})

-- The world with the status stored.
abbrev stored : World
stored =
    (reconciler.services.update_status
      (marked reconciler status_store condition_lookup leaving_shop) leaving.world).1

abbrev later_run : State World
later_run = record {
  ghr = marked reconciler status_store condition_lookup leaving_shop;
  world = stored;
}

cleans_up : clean_up reconciler leaving_shop leaving.world ≡ (ok tt, leaving.world)
unfolding clean_up delete_aliases detach_certificate remove_namespace_label
    delete_validation_records delete_records named string_dec Mock.mock_acm
    Mock.get_validation_records Dict.lookup
cleans_up = refl

finds_use : is_certificate_in_use reconciler arn leaving.world ≡ (ok true, leaving.world)
unfolding is_certificate_in_use named string_dec Mock.mock_acm Mock.describe_certificate Dict.lookup
    Dict.insert
finds_use = refl

reconcile_delete_second_phase_example :
    (reconcile_delete reconciler leaving ≡ (err (after 15), later_run))
    × (reconcile_delete reconciler later_run ≡ poll_certificate_detachment reconciler later_run)
reconcile_delete_second_phase_example =
    reconcile_delete_second_phase reconciler status_store condition_lookup leaving later_run
      leaving_shop later_run.ghr leaving.world leaving.world leaving.world stored
      (unfold named string_dec in refl) (unfold named string_dec in refl) cleans_up (λ e. cc)
      finds_use (unfold named string_dec in refl) (unfold named without string_dec in refl) refl
      (unfold named string_dec in refl)
