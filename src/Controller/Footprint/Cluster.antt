-- ===== src/Controller/Footprint/Cluster.antt =====
-- The calls on gateways, configurations, namespaces and certificates.
use gateway_orchestrator.Prelude.{◌≡◌, String, List, arith}
use gateway_orchestrator.Go.Int.{ℤ}
use gateway_orchestrator.Api.Meta.{LabelSelector}
use gateway_orchestrator.Api.Request.{Request, RequestSpec}
use gateway_orchestrator.Prelude.{Option}
use gateway_orchestrator.Pool.Defs.{select_gateway, create_gateway, get_next_gateway_index}
use gateway_orchestrator.Controller.Types.{Reconciler}
use gateway_orchestrator.Controller.Certificate.{
  request_certificate, check_certificate_status, is_certificate_in_use,
}
use gateway_orchestrator.Controller.LoadBalancer.{
  create_config, update_config, ensure_load_balancer_configuration, get_gateway_certificate_arns,
  sync_load_balancer_configuration,
}
use gateway_orchestrator.Controller.Cleanup.{
  delete_gateway, delete_if_found, cleanup_empty_gateway, is_gateway_empty,
}
use gateway_orchestrator.Controller.Gateway.{
  remove_certificate_from_gateway, ensure_allowed_routes, ensure_namespace_label,
  remove_namespace_label, sync_annotations, ensure_gateway_configuration,
}
use gateway_orchestrator.Controller.Assign.{create_assigned_gateway}
use gateway_orchestrator.Controller.Footprint.Defs.{Footprint}

module _ {W X : Type 0} {spec : RequestSpec} {Own : String → Type 0} (r : Reconciler W)
    (look : W → X) (frame : Footprint r.services look spec Own) where
  open r use {library as lib, services as sv, gateway_pool as pool}

  config_look :
      (g n : String) (arns : List String) (v waf : String) (w : W)
      → look (ensure_load_balancer_configuration r g n arns v waf w).1 ≡ look w
  unfolding ensure_load_balancer_configuration create_config update_config
  config_look g n arns v waf w =
      grind (arith, frame.get_config, frame.create_config, frame.update_config)

  pub sync_look :
      (g n v waf arn : String) (w : W)
      → look (sync_load_balancer_configuration r g n v waf arn w).1 ≡ look w
  unfolding sync_load_balancer_configuration get_gateway_certificate_arns
  sync_look g n v waf arn w = grind (arith, config_look, frame.list_requests)

  pub remove_look :
      (ghr : Request) (w : W) → look (remove_certificate_from_gateway r ghr w).1 ≡ look w
  unfolding remove_certificate_from_gateway
  remove_look ghr w = grind (arith, sync_look, frame.get_gateway)

  pub routes_look : (ghr : Request) (w : W) → look (ensure_allowed_routes r ghr w).1 ≡ look w
  unfolding ensure_allowed_routes
  routes_look ghr w = grind (arith, frame.get_gateway, frame.update_gateway)

  pub label_look : (ghr : Request) (w : W) → look (ensure_namespace_label r ghr w).1 ≡ look w
  unfolding ensure_namespace_label
  label_look ghr w = grind (arith, frame.get_namespace, frame.update_namespace)

  pub unlabel_look : (ghr : Request) (w : W) → look (remove_namespace_label r ghr w).1 ≡ look w
  unfolding remove_namespace_label
  unlabel_look ghr w = grind (arith, frame.get_namespace, frame.update_namespace)

  annotations_look : (ghr : Request) (w : W) → look (sync_annotations r ghr w).1 ≡ look w
  unfolding sync_annotations
  annotations_look ghr w = grind (arith, frame.get_gateway, frame.update_gateway)

  pub configuration_look :
      (ghr : Request) (w : W) → look (ensure_gateway_configuration r ghr w).1 ≡ look w
  unfolding ensure_gateway_configuration
  configuration_look ghr w = grind (arith, sync_look, annotations_look)

  delete_gateway_look : (g n : String) (w : W) → look (delete_gateway r g n w).1 ≡ look w
  unfolding delete_gateway delete_if_found
  delete_gateway_look g n w =
      grind (arith, frame.get_config, frame.delete_config, frame.get_gateway, frame.delete_gateway)

  pub cleanup_look :
      (g n h m : String) (w : W) → look (cleanup_empty_gateway r g n h m w).1 ≡ look w
  unfolding cleanup_empty_gateway
  cleanup_look g n h m w = grind (arith, frame.list_requests, delete_gateway_look)

  pub is_empty_look : (g n h m : String) (w : W) → look (is_gateway_empty r g n h m w).1 ≡ look w
  unfolding is_gateway_empty
  is_empty_look g n h m w = grind (arith, frame.list_requests)

  pub select_look :
      (v waf : String) (selector : Option LabelSelector) (w : W)
      → look (select_gateway lib sv pool v waf selector w).1 ≡ look w
  unfolding select_gateway
  select_look v waf selector w = grind (arith, frame.list_gateways)

  index_look : (w : W) → look (get_next_gateway_index lib sv pool w).1 ≡ look w
  unfolding get_next_gateway_index
  index_look w = grind (arith, frame.list_gateways)

  create_look :
      (v waf : String) (i : ℤ) (w : W) → look (create_gateway lib sv pool v waf i w).1 ≡ look w
  unfolding create_gateway
  create_look v waf i w = grind (arith, frame.create_gateway)

  pub create_assigned_look :
      (ghr : Request) (w : W) → look (create_assigned_gateway r ghr w).1 ≡ look w
  unfolding create_assigned_gateway
  create_assigned_look ghr w = grind (arith, index_look, config_look, create_look)

  pub request_look : (ghr : Request) (w : W) → look (request_certificate r ghr w).1 ≡ look w
  unfolding request_certificate
  request_look ghr w = grind (arith, frame.request_certificate)

  pub check_look : (ghr : Request) (w : W) → look (check_certificate_status r ghr w).1 ≡ look w
  unfolding check_certificate_status
  check_look ghr w = grind (arith, frame.describe)

  pub in_use_look : (arn : String) (w : W) → look (is_certificate_in_use r arn w).1 ≡ look w
  unfolding is_certificate_in_use
  in_use_look arn w = grind (arith, frame.describe)
