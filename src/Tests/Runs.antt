-- ===== src/Tests/Runs.antt =====
-- The theorems on whole runs of the reconciler, in the world in memory.
use gateway_orchestrator.Prelude.{◌≡◌, refl, String, ok, err, [], ◌∷◌}
use gateway_orchestrator.Prelude.{string_dec}
use gateway_orchestrator.Prelude.Dict
use gateway_orchestrator.Go.Strings.{split, cons_part}
use gateway_orchestrator.Aws.Types.{CertificateDetails}
use gateway_orchestrator.Controller.Types.{State, after}
use gateway_orchestrator.Controller.Delete.{reconcile_delete}
use gateway_orchestrator.Controller.Delete.Waiting.{reconcile_delete_waits}
use gateway_orchestrator.Controller.Alias.{delete_aliases, point_to, hosted_zone_of}
use gateway_orchestrator.Controller.Alias.Target.{delete_aliases_matches, pointing}
use gateway_orchestrator.Aws.Regions.{
  extract_region_from_alb_dns, get_alb_hosted_zone_id, region_of_parts,
}
use gateway_orchestrator.Aws.Mock
use gateway_orchestrator.Tests.Memory.{World, named}
use gateway_orchestrator.Tests.Store.{records_of, untouched_records}
use gateway_orchestrator.Tests.Data.{
  reconciler, claimed_world, shop, rival, waiting_shop, arn, in_world,
}
open reconciler use {services as sv}

-- The rival asks for the shop's hostname.
abbrev refused : State World
refused = in_world rival (claimed_world (rival ∷ []))

-- ACM says that a load balancer uses the certificate.
abbrev in_use : CertificateDetails
in_use = record {
  arn = arn;
  domain = "shop.example.com";
  status = "ISSUED";
  in_use_by = "alb" ∷ [];
}

abbrev waiting : State World
waiting = in_world waiting_shop (record (claimed_world (waiting_shop ∷ [])) {
  acm = record {
    certificates = (arn, in_use) ∷ [];
    validation_records = [];
    in_use_by = (arn, "alb" ∷ []) ∷ [];
  };
})

reconcile_delete_waits_example :
    let (res, s') = reconcile_delete reconciler waiting in
    (res ≡ err (after 15))
    × (s'.ghr ≡ waiting.ghr)
    × (records_of s'.world ≡ records_of waiting.world)
reconcile_delete_waits_example =
    reconcile_delete_waits reconciler records_of untouched_records waiting in_use
      (unfold named string_dec in refl) (unfold named string_dec in refl) (λ e. cc)
      (unfold Mock.mock_acm Mock.describe_certificate Dict.lookup Dict.insert string_dec in refl)
      (λ e. cc)

abbrev lb : String
lb = "k8s-edge.eu-west-1.elb.amazonaws.com"

abbrev start : State World
start = in_world shop (claimed_world [])

delete_aliases_matches_example :
    let s' = (point_to reconciler lb "Z32O12XQLNTSW2" start).1 in
    let a = pointing "shop.example.com" lb "Z32O12XQLNTSW2" "A" in
    let aaaa = pointing "shop.example.com" lb "Z32O12XQLNTSW2" "AAAA" in
    (s'.world
      ≡ (sv.route53.create_or_update_record "Z1" aaaa
          (sv.route53.create_or_update_record "Z1" a start.world).1).1)
    × (delete_aliases reconciler s'.ghr s'.world ≡ (
      ok tt,
      (sv.route53.delete_record "Z1" aaaa (sv.route53.delete_record "Z1" a s'.world).1).1,
    ))
delete_aliases_matches_example =
    delete_aliases_matches reconciler start lb "Z32O12XQLNTSW2"
      (point_to reconciler lb "Z32O12XQLNTSW2" start).1.world (λ e. cc)
      (unfold hosted_zone_of extract_region_from_alb_dns region_of_parts split cons_part
          get_alb_hosted_zone_id Dict.lookup string_dec in
        refl)
