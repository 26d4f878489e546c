-- ===== src/Tests/Contest.antt =====
-- Two requests that contend for one hostname.
use gateway_orchestrator.Prelude.{◌≡◌, ◌≢◌, refl, true, false, some, ok, [], string_dec}
use gateway_orchestrator.Api.Meta.{error_text}
use gateway_orchestrator.Go.Strings.{to_lower, replace_all, lower}
use gateway_orchestrator.Api.Request.{Request}
use gateway_orchestrator.Controller.Claim.{
  ensure_domain_claim, create_domain_claim, delete_domain_claim, claim_name, generate_claim_name,
}
use gateway_orchestrator.Controller.Claim.Ownership.{own_ref}
use gateway_orchestrator.Controller.Claim.Contest.{
  MoveOf, claims_refine, Run, here, next, ensures, deletes, claim_exclusive,
}
use gateway_orchestrator.Tests.Memory.{World, named, without}
use gateway_orchestrator.Tests.Store.{claim_store, owner_in}
use gateway_orchestrator.Tests.Data.{reconciler, shop, rival, claimed_world}

claims_refine_example :
    MoveOf reconciler claim_store false rival
      (claimed_world [])
      (create_domain_claim reconciler rival (claimed_world [])).1
    × MoveOf reconciler claim_store false rival
        (claimed_world [])
        (ensure_domain_claim reconciler rival (claimed_world [])).1
    × MoveOf reconciler claim_store true rival
        (claimed_world [])
        (delete_domain_claim reconciler rival (claimed_world [])).1
claims_refine_example = claims_refine reconciler claim_store rival (claimed_world [])

abbrev won_world : World
won_world = (ensure_domain_claim reconciler shop (claimed_world [])).1

shop_wins : (ensure_domain_claim reconciler shop (claimed_world [])).0 ≡ ok true
unfolding ensure_domain_claim named without generate_claim_name string_dec to_lower lower
    replace_all error_text
shop_wins = refl

-- The rival asks, and then deletes itself; only the rival lets claims go.
abbrev OnlyRival : Request → Type 0
OnlyRival ghr = ghr ≡ rival

abbrev asked : World
asked = (ensure_domain_claim reconciler rival won_world).1

abbrev left : World
left = (delete_domain_claim reconciler rival asked).1

rivalry : Run reconciler claim_store OnlyRival won_world left
rivalry = next (next here (ensures rival refl)) (deletes rival refl refl)

claim_exclusive_example :
    (owner_in left (claim_name shop) ≡ some (own_ref shop))
    × ((ensure_domain_claim reconciler rival left).0 ≢ ok true)
claim_exclusive_example =
    claim_exclusive reconciler claim_store shop rival (claimed_world []) shop_wins rivalry
      (λ ghr is_rival same. cc) refl (λ e. cc)
