-- ===== src/Tests/Claims.antt =====
-- The theorems on claims, at concrete requests.
use gateway_orchestrator.Prelude.{◌≡◌, ◌↔◌, [], arith}
use gateway_orchestrator.Go.Strings.{to_lower, replace_all}
use gateway_orchestrator.Controller.Claim.{
  create_domain_claim, ensure_domain_claim, delete_domain_claim, generate_claim_name,
}
use gateway_orchestrator.Controller.Claim.Ownership.{
  Answered, Raced, create_domain_claim-Raced, ensure_domain_claim-Answered,
}
use gateway_orchestrator.Controller.Claim.Release.{Released, delete_domain_claim-Released}
use gateway_orchestrator.Controller.Claim.Names.{generate_claim_name_iff}
use gateway_orchestrator.Tests.Store.{claim_store}
use gateway_orchestrator.Tests.Data.{reconciler, rival, claimed_world}

-- The shop has taken the claim after the rival's `Get`.
create_domain_claim-Raced_example :
    let (res, w') = create_domain_claim reconciler rival (claimed_world []) in
    Raced reconciler claim_store rival res (claimed_world []) w'
create_domain_claim-Raced_example =
    create_domain_claim-Raced reconciler claim_store rival (claimed_world [])

-- The shop has its claim; the rival asks for it.
ensure_domain_claim-Answered_example :
    let (res, w') = ensure_domain_claim reconciler rival (claimed_world []) in
    Answered reconciler claim_store rival res (claimed_world []) w'
ensure_domain_claim-Answered_example =
    ensure_domain_claim-Answered reconciler claim_store rival (claimed_world [])

-- The rival's deletion leaves the shop's claim.
delete_domain_claim-Released_example :
    let (res, w') = delete_domain_claim reconciler rival (claimed_world []) in
    Released reconciler claim_store rival res (claimed_world []) w'
delete_domain_claim-Released_example =
    delete_domain_claim-Released reconciler claim_store rival (claimed_world [])

generate_claim_name_iff_example :
    (generate_claim_name "Z1" "shop.example.com" ≡ generate_claim_name "z1" "SHOP.example.com") ↔ (
      (to_lower "Z1" ≡ to_lower "z1")
      × (to_lower (replace_all 42 "wildcard" "shop.example.com")
          ≡ to_lower (replace_all 42 "wildcard" "SHOP.example.com")))
generate_claim_name_iff_example =
    generate_claim_name_iff "Z1" "z1" "shop.example.com" "SHOP.example.com" (ground arith)
      (ground arith)
