-- ===== src/Tests/Pools.antt =====
-- The theorems on the pool, at concrete gateways.
use gateway_orchestrator.Prelude.{◌≡◌, ◌-◌, refl, ok, [], ◌∷◌, arith, All, ℕ}
use gateway_orchestrator.Go.Int.{ℤ, pos}
use gateway_orchestrator.Go.Format.{
  scan_gateway_index, scan_signed, scan_number, scan_digits, format_two, digits, digit, decimal,
  format_int,
}
use gateway_orchestrator.Go.Strings.{cut_prefix}
use gateway_orchestrator.Aws.Regions.{extract_region_from_alb_dns}
use gateway_orchestrator.Aws.Regions.Names.{extract_region-alb_name}
use gateway_orchestrator.Pool.Defs.{
  gateway_name, new_gateway, max_index, larger, get_next_gateway_index,
}
use gateway_orchestrator.Pool.Bounds.{get_next_gateway_index-InRange, InRange}
use gateway_orchestrator.Pool.Index.{get_next_gateway_index-fresh, OtherName, IndexAtMost}
use gateway_orchestrator.Tests.Memory.{lib, server}
use gateway_orchestrator.Tests.Data.{pool, claimed_world, first_gateway}

get_next_gateway_index-fresh_example :
    (n : ℕ) × (get_next_gateway_index lib server pool (claimed_world [])
      ≡ (ok (pos n), claimed_world []))
    × All (OtherName (gateway_name (pos n))) (first_gateway ∷ [])
    × All (IndexAtMost (n - 1)) (first_gateway ∷ [])
get_next_gateway_index-fresh_example =
    get_next_gateway_index-fresh lib server pool (claimed_world []) (first_gateway ∷ []) refl (
      unfold max_index larger scan_gateway_index scan_signed scan_number scan_digits new_gateway
        format_two digits digit decimal format_int cut_prefix in
      ground arith)

get_next_gateway_index-InRange_example :
    (i : ℤ) × (get_next_gateway_index lib server pool (claimed_world []) ≡ (ok i, claimed_world []))
    × InRange (first_gateway ∷ []) i
get_next_gateway_index-InRange_example =
    get_next_gateway_index-InRange lib server pool (claimed_world []) (first_gateway ∷ []) refl

extract_region-alb_name_example :
    extract_region_from_alb_dns "k8s-edge.eu-west-1.elb.amazonaws.com" ≡ ok "eu-west-1"
extract_region-alb_name_example = extract_region-alb_name "k8s-edge" "eu-west-1" (ground arith)
