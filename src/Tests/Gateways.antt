-- ===== src/Tests/Gateways.antt =====
-- The theorems on gateways, configurations and annotations, at concrete requests.
use mathlib.Core.List.{Perm}
use mathlib.Core.List.Perm
use gateway_orchestrator.Prelude.{
  ◌≡◌, ◌↔◌, refl, Bool, true, false, ok, List, [], ◌∷◌, take, contains, map, none,
}
use gateway_orchestrator.Prelude.Dict
use gateway_orchestrator.Api.Cluster.{Listener}
use gateway_orchestrator.Go.Sort.Laws.{Sorted}
use gateway_orchestrator.Go.Int.{pos}
use gateway_orchestrator.Pool.Defs.{new_gateway, get_gateway_info, has_capacity}
use gateway_orchestrator.Controller.Cleanup.{is_gateway_empty, cleanup_empty_gateway}
use gateway_orchestrator.Controller.Cleanup.Empty.{cleanup_empty_gateway_iff, Vacant, Deletes}
use gateway_orchestrator.Controller.Gateway.{correct_annotations}
use gateway_orchestrator.Controller.Gateway.Capacity.{Made, created, corrected, counts_stay_zero}
use gateway_orchestrator.Controller.LoadBalancer.{build_spec, collect_arns, add_arn}
use gateway_orchestrator.Controller.LoadBalancer.Spec.{build_spec_serves, served, defaults_of}
use gateway_orchestrator.Controller.LoadBalancer.Order.{build_spec-collect_arns_of_perm}
use gateway_orchestrator.Api.Request.{Request}
use gateway_orchestrator.Controller.LoadBalancer.Arns.{collect_arns_iff, Kept}
use gateway_orchestrator.Tests.Data.{
  pool, reconciler, claimed_world, attached_shop, waiting_shop, arn, first_gateway,
}

-- The shop is the gateway's only request, and is left out of the count.
cleanup_empty_gateway_iff_example :
    let w = claimed_world (attached_shop ∷ []) in
    (empty : Bool) × (is_gateway_empty reconciler "gw-01" "edge" "shop" "web" w ≡ (ok empty, w))
    × ((empty ≡ true) ↔ Vacant "gw-01" "edge" "shop" "web" (attached_shop ∷ []))
    × ((empty ≡ true
          → Deletes reconciler "gw-01" "edge" "shop" "web" w
              (cleanup_empty_gateway reconciler "gw-01" "edge" "shop" "web" w))
        × (empty ≡ false
            → cleanup_empty_gateway reconciler "gw-01" "edge" "shop" "web" w ≡ (ok tt, w)))
cleanup_empty_gateway_iff_example =
    cleanup_empty_gateway_iff reconciler "gw-01" "edge" "shop" "web"
      (claimed_world (attached_shop ∷ [])) (attached_shop ∷ []) refl

collect_arns_iff_example :
    (contains (collect_arns "gw-01" "edge" (attached_shop ∷ waiting_shop ∷ [])) arn ≡ true)
    ↔ Kept "gw-01" "edge" arn (attached_shop ∷ waiting_shop ∷ [])
collect_arns_iff_example = collect_arns_iff "gw-01" "edge" arn (attached_shop ∷ waiting_shop ∷ [])

build_spec_serves_example :
    let spec = build_spec pool ("b" ∷ "a" ∷ []) "internal" "" in
    Perm (served spec) ("b" ∷ "a" ∷ [])
    × Sorted (served spec)
    × (defaults_of spec.listener_configurations ≡ take 1 (served spec))
build_spec_serves_example = build_spec_serves pool "internal" "" ("b" ∷ "a" ∷ [])

-- A second request on the gateway, with a certificate of its own.
abbrev second_shop : Request
second_shop = record attached_shop {
  status = record (attached_shop.status) { certificate_arn = "arn:second" };
}

build_spec-collect_arns_of_perm_example :
    let arns = collect_arns "gw-01" "edge" (second_shop ∷ attached_shop ∷ []) in
    let arns' = collect_arns "gw-01" "edge" (attached_shop ∷ second_shop ∷ []) in
    build_spec pool (add_arn "arn:new" arns) "internal" ""
    ≡ build_spec pool (add_arn "arn:new" arns') "internal" ""
build_spec-collect_arns_of_perm_example =
    build_spec-collect_arns_of_perm pool "internal" "" "gw-01" "edge" "arn:new"
      (Perm.swap attached_shop second_shop [])

abbrev closed : List Listener
closed = map (λ (l : Listener). record l { allowed_routes = none }) first_gateway.listeners

-- A gateway of the pool after one reconciliation of a request with a WAF.
abbrev made_gateway : Made pool (record (new_gateway pool "internal" "" (pos 7)) {
  annotations =
      (correct_annotations "gw-07" "internal" "waf-1"
        (new_gateway pool "internal" "" (pos 7)).annotations).0;
})
made_gateway =
    corrected (new_gateway pool "internal" "" (pos 7)) "gw-07" "internal" "waf-1"
      (created "internal" "" (pos 7))

counts_stay_zero_example :
    let info = get_gateway_info (record (new_gateway pool "internal" "" (pos 7)) {
      annotations =
          (correct_annotations "gw-07" "internal" "waf-1"
            (new_gateway pool "internal" "" (pos 7)).annotations).0;
    }) in
    (info.certificate_count ≡ pos 0) × (info.rule_count ≡ pos 0) × (has_capacity info ≡ true)
counts_stay_zero_example = counts_stay_zero pool _ made_gateway
