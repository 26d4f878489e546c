-- ===== src/Tests/Ready.antt =====
-- A whole run of `reconcileNormal`, from an issued certificate to the condition Ready.
use gateway_orchestrator.Prelude.{◌≡◌, refl, ok, [], ◌∷◌, string_dec}
use gateway_orchestrator.Prelude.Dict
use gateway_orchestrator.Aws.Mock
use gateway_orchestrator.Controller.Types.{State}
use gateway_orchestrator.Controller.Reconcile.Ready.{reconcile_normal-Provisioned, Provisioned}
use gateway_orchestrator.Controller.Reconcile.Edited.{edit_tolerated}
use gateway_orchestrator.Tests.Memory.{World}
use gateway_orchestrator.Tests.Store.{status_store}
use gateway_orchestrator.Tests.Data.{reconciler, claimed_world, shop, no_status, arn, in_world}
use gateway_orchestrator.Go.Format.{
  format_two, decimal, digit, scan_digits, scan_number, scan_int, hex_encode,
}
use gateway_orchestrator.Go.Sort.{sort_insert, sort_strings}
use gateway_orchestrator.Go.Strings.{lower, to_lower, replace_all, cons_part, split}
use gateway_orchestrator.Pool.Defs.{
  count_annotation, last_hostname, get_gateway_info, is_eligible, first_fit, new_gateway, compile,
  select_gateway,
}
use gateway_orchestrator.Aws.Regions.{
  get_alb_hosted_zone_id, region_of_parts, extract_region_from_alb_dns,
}
use gateway_orchestrator.Api.Meta.{error_text}
use gateway_orchestrator.Tests.Memory.{named, without}
use gateway_orchestrator.Controller.Claim.{
  generate_claim_name, create_domain_claim, ensure_domain_claim,
}
use gateway_orchestrator.Controller.Certificate.{
  sanitize_tag_value, judge_status, create_records, ensure_validation_records,
  check_certificate_status,
}
use gateway_orchestrator.Controller.LoadBalancer.{
  https_listener, build_spec, holds_certificate, collect_arns, add_arn, create_config,
  update_config, ensure_load_balancer_configuration, get_gateway_certificate_arns,
  sync_load_balancer_configuration,
}
use gateway_orchestrator.Controller.Gateway.{
  needs_update, allow_all, any_needs_update, correct, correct_annotations, ensure_allowed_routes,
  ensure_namespace_label, sync_annotations, ensure_gateway_configuration,
}
use gateway_orchestrator.Controller.Assign.{
  set_assigned, assign_new, assign_existing, assign_from_pool, ensure_gateway_assignment,
}
use gateway_orchestrator.Controller.Alias.{
  first_hostname, hosted_zone_of, create_aliases, point_to, ensure_route53_alias,
}
use gateway_orchestrator.Controller.Status.{
  compute_spec_hash, validate_request, set_condition, update_status, emit, is_true,
  try_update_status,
}
use gateway_orchestrator.Controller.Drift.{
  check_gateway, check_certificate, validate_assigned_resources,
}
use gateway_orchestrator.Controller.Steps.{
  detect_spec_drift, detect_resource_drift, validate, win_claim, claim, ensure_certificate, unless,
  succeed, write_validation_records, await_issuance, attach, publish, sync_configuration,
  mark_ready,
}
use gateway_orchestrator.Controller.Reconcile.{provision, reconcile_normal}

-- The shop with a certificate that ACM has issued, and nothing else.
abbrev pub start : State World
start =
    in_world (record shop { status = record no_status { certificate_arn = arn } })
      (record (claimed_world
        (record shop { status = record no_status { certificate_arn = arn } } ∷ [])) {
          acm = record {
            certificates =
                (
                  arn,
                  record {
                    arn = arn;
                    domain = "shop.example.com";
                    status = "ISSUED";
                    in_use_by = [];
                  },
                )
                ∷ [];
            validation_records =
                (
                  arn,
                  record { name = "_v.shop.example.com"; type = "CNAME"; value = "_x.acm." } ∷ [],
                )
                ∷ [];
            in_use_by = [];
          };
        })

pub comes_to_its_end : (reconcile_normal reconciler start).0 ≡ ok tt
unfolding digit scan_digits scan_number scan_int hex_encode sort_insert sort_strings lower to_lower
    replace_all cons_part split count_annotation last_hostname get_gateway_info is_eligible
    first_fit new_gateway compile select_gateway get_alb_hosted_zone_id region_of_parts
    extract_region_from_alb_dns named without generate_claim_name create_domain_claim
    ensure_domain_claim sanitize_tag_value judge_status create_records ensure_validation_records
    check_certificate_status https_listener build_spec holds_certificate collect_arns add_arn
    create_config update_config ensure_load_balancer_configuration get_gateway_certificate_arns
    sync_load_balancer_configuration needs_update allow_all any_needs_update correct
    correct_annotations ensure_allowed_routes ensure_namespace_label sync_annotations
    ensure_gateway_configuration set_assigned assign_new assign_existing assign_from_pool
    ensure_gateway_assignment first_hostname hosted_zone_of create_aliases point_to
    ensure_route53_alias compute_spec_hash validate_request set_condition update_status emit is_true
    try_update_status check_gateway check_certificate validate_assigned_resources detect_spec_drift
    detect_resource_drift validate win_claim claim ensure_certificate unless succeed
    write_validation_records await_issuance attach publish sync_configuration mark_ready provision
    reconcile_normal Dict.lookup Dict.insert Dict.get string_dec Mock.mock_acm
    Mock.describe_certificate Mock.get_validation_records Mock.mock_route53
    Mock.create_or_update_record format_two decimal error_text
comes_to_its_end = refl

reconcile_normal-Provisioned_example :
    let s' = (reconcile_normal reconciler start).1 in
    Provisioned reconciler status_store s'.ghr × (detect_spec_drift reconciler s' ≡ (ok tt, s'))
reconcile_normal-Provisioned_example =
    reconcile_normal-Provisioned reconciler status_store start comes_to_its_end

-- The request as that run has left it, now with a WAF.
abbrev edited : State World
edited =
    let left = (reconcile_normal reconciler start).1.ghr in
    in_world (record left { spec = record (left.spec) { waf_arn = "waf-1" } }) (start.world)

edit_tolerated_example : detect_spec_drift reconciler edited ≡ (ok tt, edited)
edit_tolerated_example =
    edit_tolerated reconciler status_store start edited comes_to_its_end refl
      (record { hostname = refl; zone_id = refl; visibility = refl; gateway_class = refl })
