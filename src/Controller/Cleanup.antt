-- ===== src/Controller/Cleanup.antt =====
-- internal/controller/gateway.go: cleanupEmptyGateway and isGatewayEmpty.
pub mod Empty
use gateway_orchestrator.Prelude.{
  ℕ, suc, String, ◌<>◌, Bool, true, false, ◌&&◌, List, [], ◌∷◌, Exec, Result, ok, err, ◌>>=◌, ◌>>◌,
  pure, raise, attempt, map_err, ltb, ◌==◌, if◌then◌else◌,
}
use gateway_orchestrator.Api.Meta.{Error, wrap, NamespacedName}
use gateway_orchestrator.Api.Request.{Request}
use gateway_orchestrator.Services.{Services, Objects}
use gateway_orchestrator.Pool.Defs.{config_name}
use gateway_orchestrator.Controller.Types.{Reconciler}

-- The tests of both loops: the request that is being deleted is left out.
abbrev pub is_excluded : String → String → Request → Bool
is_excluded namespace name ghr = (ghr.meta.namespace == namespace) && (ghr.meta.name == name)

abbrev pub is_assigned_to : String → String → Request → Bool
is_assigned_to gateway namespace ghr =
    (ghr.status.assigned_gateway == gateway) && (ghr.status.assigned_gateway_namespace == namespace)

module _ (gateway namespace exclude_namespace exclude_name : String) where
  -- The loop of `cleanupEmptyGateway`.
  unfoldable pub count_assignments : List Request → ℕ
  count_assignments [] = 0
  count_assignments (ghr ∷ items) =
      let rest = count_assignments items in
      if is_excluded exclude_namespace exclude_name ghr
      then rest
      else if is_assigned_to gateway namespace ghr
      then suc rest
      else rest

  -- The loop of `isGatewayEmpty`, with its early return.
  unfoldable pub none_assigned : List Request → Bool
  none_assigned [] = true
  none_assigned (ghr ∷ items) =
      let rest = none_assigned items in
      if is_excluded exclude_namespace exclude_name ghr
      then rest
      else if is_assigned_to gateway namespace ghr
      then false
      else rest

-- `Get`, and `Delete` of what it found; an object that cannot be read counts as gone.
unfoldable pub delete_if_found :
    {W O : Type 0} → Objects W O → String → NamespacedName → Exec W Error (Unit {0})
delete_if_found objects message key = do
  found ← attempt (objects.get key)
  elim found [ ok o ↦ map_err (wrap message) (objects.delete o) | err _ ↦ pure tt ]

module _ {W : Type 0} (r : Reconciler W) where
  open r use {services as sv}

  -- The deletions of `cleanupEmptyGateway`: the configuration first, then the gateway.
  unfoldable pub delete_gateway : String → String → Exec W Error (Unit {0})
  unfolding delete_if_found
  delete_gateway gateway namespace = do
    delete_if_found sv.configs "failed to delete LoadBalancerConfiguration"
        (record { namespace = namespace; name = config_name gateway })
    delete_if_found sv.gateways "failed to delete Gateway"
        (record { namespace = namespace; name = gateway })

  -- `cleanupEmptyGateway`
  unfoldable pub cleanup_empty_gateway : String → String → String → String → Exec W Error (Unit {0})
  unfolding count_assignments delete_gateway
  cleanup_empty_gateway gateway namespace exclude_namespace exclude_name = do
    items ← sv.list_requests
    if ltb 0 (count_assignments gateway namespace exclude_namespace exclude_name items)
        then pure tt
        else delete_gateway gateway namespace

  -- `isGatewayEmpty`
  unfoldable pub is_gateway_empty : String → String → String → String → Exec W Error Bool
  unfolding none_assigned
  is_gateway_empty gateway namespace exclude_namespace exclude_name = do
    items ← sv.list_requests
    pure (none_assigned gateway namespace exclude_namespace exclude_name items)
