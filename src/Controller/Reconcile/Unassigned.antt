-- ===== src/Controller/Reconcile/Unassigned.antt =====
-- A status without a gateway.
use gateway_orchestrator.Prelude.{◌≡◌, refl, String, false, List, [], ◌∷◌}
use gateway_orchestrator.Api.Request.{RequestStatus}
use gateway_orchestrator.Services.{Library}
use gateway_orchestrator.Services.Laws.{ConditionRemoval}
use gateway_orchestrator.Controller.Types.{type_listener_attached, type_dns_alias_ready, type_ready}
use gateway_orchestrator.Controller.Drift.{
  remove_conditions, certificate_conditions, without_gateway, without_certificate,
}

-- The status names no gateway, and none of the conditions that rest on one is true.
pub record Unassigned (lib : Library) (st : RequestStatus) : Type 0 where
  pub no_gateway : st.assigned_gateway ≡ ""
  pub no_namespace : st.assigned_gateway_namespace ≡ ""
  pub no_load_balancer : st.assigned_load_balancer ≡ ""
  pub not_attached : lib.is_status_condition_true st.conditions type_listener_attached ≡ false
  pub not_published : lib.is_status_condition_true st.conditions type_dns_alias_ready ≡ false
  pub not_ready : lib.is_status_condition_true st.conditions type_ready ≡ false

module _ (lib : Library) (removal : ConditionRemoval lib) where
  pub without_gateway-Unassigned : (st : RequestStatus) → Unassigned lib (without_gateway lib st)
  unfolding remove_conditions
  without_gateway-Unassigned st =
      let once = lib.remove_status_condition st.conditions type_listener_attached in
      let twice = lib.remove_status_condition once type_dns_alias_ready in
      record {
        no_gateway = refl;
        no_namespace = refl;
        no_load_balancer = refl;
        not_attached = removal.still_false twice type_ready type_listener_attached (
            removal.still_false once type_dns_alias_ready type_listener_attached
              (removal.removed st.conditions type_listener_attached));
        not_published =
            removal.still_false twice type_ready type_dns_alias_ready
              (removal.removed once type_dns_alias_ready);
        not_ready = removal.removed twice type_ready;
      }

  remove-Unassigned :
      (types : List String) (st : RequestStatus)
      → Unassigned lib st
      → Unassigned lib (remove_conditions lib types st)
  unfolding remove_conditions
  remove-Unassigned [] st p = p
  remove-Unassigned (t ∷ types) st p = remove-Unassigned types _ (record {
    no_gateway = p.no_gateway;
    no_namespace = p.no_namespace;
    no_load_balancer = p.no_load_balancer;
    not_attached = removal.still_false st.conditions t _ p.not_attached;
    not_published = removal.still_false st.conditions t _ p.not_published;
    not_ready = removal.still_false st.conditions t _ p.not_ready;
  })

  pub without_certificate-Unassigned :
      (st : RequestStatus) → Unassigned lib st → Unassigned lib (without_certificate lib st)
  without_certificate-Unassigned st p =
      let q = remove-Unassigned certificate_conditions st p in
      record {
        no_gateway = q.no_gateway;
        no_namespace = q.no_namespace;
        no_load_balancer = q.no_load_balancer;
        not_attached = q.not_attached;
        not_published = q.not_published;
        not_ready = q.not_ready;
      }
