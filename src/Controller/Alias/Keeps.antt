-- ===== src/Controller/Alias/Keeps.antt =====
-- Publishing a hostname leaves the request's conditions as they were, on every path.
use gateway_orchestrator.Prelude.{◌≡◌, String, arith}
use gateway_orchestrator.Controller.Types.{Reconciler, State}
use gateway_orchestrator.Controller.Alias.{point_to, ensure_route53_alias}

module _ {W : Type 0} (r : Reconciler W) where
  point_to_conditions :
      (lb_dns hosted_zone : String) (s : State W)
      → (point_to r lb_dns hosted_zone s).1.ghr.status.conditions ≡ s.ghr.status.conditions
  unfolding point_to
  point_to_conditions lb_dns hosted_zone s = ground arith

  pub ensure_route53_alias_conditions :
      (s : State W) → (ensure_route53_alias r s).1.ghr.status.conditions ≡ s.ghr.status.conditions
  unfolding ensure_route53_alias
  ensure_route53_alias_conditions s = grind (arith, point_to_conditions)
