-- ===== src/Controller/Assign/Keeps.antt =====
-- An assignment leaves the request's conditions as they were, on every path.
use gateway_orchestrator.Prelude.{◌≡◌, arith}
use gateway_orchestrator.Pool.Defs.{GatewayInfo}
use gateway_orchestrator.Controller.Types.{Reconciler, State}
use gateway_orchestrator.Controller.Assign.{
  set_assigned, assign_new, assign_existing, assign_from_pool, ensure_gateway_assignment,
}

module _ {W : Type 0} (r : Reconciler W) where
  assign_new_conditions :
      (s : State W) → (assign_new r s).1.ghr.status.conditions ≡ s.ghr.status.conditions
  unfolding assign_new set_assigned
  assign_new_conditions s = ground arith

  assign_existing_conditions :
      (info : GatewayInfo) (s : State W)
      → (assign_existing r info s).1.ghr.status.conditions ≡ s.ghr.status.conditions
  unfolding assign_existing set_assigned
  assign_existing_conditions info s = ground arith

  assign_from_pool_conditions :
      (s : State W) → (assign_from_pool r s).1.ghr.status.conditions ≡ s.ghr.status.conditions
  unfolding assign_from_pool
  assign_from_pool_conditions s = grind (arith, assign_new_conditions, assign_existing_conditions)

  pub ensure_gateway_assignment_conditions :
      (s : State W)
      → (ensure_gateway_assignment r s).1.ghr.status.conditions ≡ s.ghr.status.conditions
  unfolding ensure_gateway_assignment
  ensure_gateway_assignment_conditions s = grind (arith, assign_from_pool_conditions)
