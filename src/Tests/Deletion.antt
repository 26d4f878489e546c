-- ===== src/Tests/Deletion.antt =====
-- A whole run of `reconcileDelete`, once the load balancer has let the certificate go.
use gateway_orchestrator.Prelude.{◌≡◌, refl, ok, [], ◌∷◌, string_dec, arith}
use gateway_orchestrator.Prelude.Dict
use gateway_orchestrator.Api.Meta.{error_text}
use gateway_orchestrator.Go.Strings.{to_lower, replace_all, lower}
use gateway_orchestrator.Go.Format.{format_two, decimal, digit}
use gateway_orchestrator.Aws.Mock
use gateway_orchestrator.Pool.Defs.{new_gateway}
use gateway_orchestrator.Controller.Types.{State}
use gateway_orchestrator.Controller.Certificate.{is_certificate_in_use}
use gateway_orchestrator.Controller.Claim.{
  generate_claim_name, delete_domain_claim, ignoring_not_found,
}
use gateway_orchestrator.Controller.Cleanup.{
  count_assignments, delete_if_found, delete_gateway, cleanup_empty_gateway,
}
use gateway_orchestrator.Controller.Drift.{discard_certificate}
use gateway_orchestrator.Controller.Delete.{
  reconcile_delete, poll_certificate_detachment, discard_and_finalize, finalize_deletion,
  clean_gateway, refetch, update_request, change_finalizers,
}
use gateway_orchestrator.Controller.Delete.LetGo.{finalize_deletion-LetGo, LetGo}
use gateway_orchestrator.Controller.Delete.Finished.{reconcile_delete-Freed, Freed}
use gateway_orchestrator.Services.Laws.{Spared}
use gateway_orchestrator.Tests.Memory.{World, named, without, server}
use gateway_orchestrator.Tests.Store.{finalizer_store, claim_store, owner_in}
use gateway_orchestrator.Tests.Data.{reconciler, claimed_world, waiting_shop, arn, in_world}

abbrev detached : State World
detached = in_world waiting_shop (record (claimed_world (waiting_shop ∷ [])) {
  acm = record {
    certificates =
        (arn, record { arn = arn; domain = "shop.example.com"; status = "ISSUED"; in_use_by = [] })
        ∷ [];
    validation_records = [];
    in_use_by = [];
  };
})

deletion_ends : (reconcile_delete reconciler detached).0 ≡ ok tt
unfolding reconcile_delete poll_certificate_detachment discard_and_finalize finalize_deletion
    clean_gateway refetch update_request change_finalizers discard_certificate count_assignments
    delete_if_found delete_gateway cleanup_empty_gateway generate_claim_name delete_domain_claim
    ignoring_not_found is_certificate_in_use named without string_dec error_text to_lower lower
    replace_all new_gateway format_two decimal digit Mock.mock_acm Mock.describe_certificate
    Mock.delete_certificate Dict.lookup Dict.insert Dict.erase
deletion_ends = refl

reconcile_delete-Freed_example :
    Freed reconciler finalizer_store (reconcile_delete reconciler detached).1
reconcile_delete-Freed_example =
    reconcile_delete-Freed reconciler finalizer_store detached deletion_ends

-- The claims' owners beside the calls of a deletion's end.
spared_claims : Spared server owner_in
spared_claims = record {
  list_requests = λ w. refl;
  get_request = λ k w. ground arith;
  update_request = λ g w. ground arith;
  get_config = λ k w. ground arith;
  delete_config = λ c w. ground arith;
  get_gateway = λ k w. ground arith;
  delete_gateway = λ g w. ground arith;
}

finalizes : (finalize_deletion reconciler detached).0 ≡ ok tt
unfolding finalize_deletion clean_gateway refetch update_request change_finalizers count_assignments
    delete_if_found delete_gateway cleanup_empty_gateway generate_claim_name delete_domain_claim
    ignoring_not_found named without string_dec error_text to_lower lower replace_all new_gateway
    format_two decimal digit
finalizes = refl

finalize_deletion-LetGo_example :
    LetGo reconciler claim_store spared_claims detached
      (finalize_deletion reconciler detached).1.world
finalize_deletion-LetGo_example =
    finalize_deletion-LetGo reconciler claim_store spared_claims detached finalizes
