-- ===== src/Controller/Footprint/Assigning.antt =====
-- The handlers that change the request: its status, its gateway and its aliases.
use gateway_orchestrator.Prelude.{
  Bool, ◌≡◌, String, List, ◌∷◌, Exec, Result-cases, inl, inr, ◌<>◌, ◌==◌,
}
use gateway_orchestrator.Prelude.Triple.{
  Keeps, Keeps-bind, Keeps-attempt, Keeps-map_err, Keeps-if, Keeps-still,
}
use gateway_orchestrator.Prelude.Keeping.{
  Keeps-result, Keeps-option, Keeps-list, Keeps-pure, Keeps-raise, Keeps-gets,
}
use gateway_orchestrator.Api.Meta.{Error, errorf, error_text, wrap}
use gateway_orchestrator.Api.Request.{Request, RequestSpec, RequestStatus}
use gateway_orchestrator.Go.Strings.{join}
use gateway_orchestrator.Aws.Types.{AliasTarget}
use gateway_orchestrator.Services.{EventType, warning}
use gateway_orchestrator.Controller.Gateway.{gateway_key}
use gateway_orchestrator.Controller.LoadBalancer.{sync_load_balancer_configuration}
use gateway_orchestrator.Pool.Defs.{GatewayInfo, select_gateway}
use gateway_orchestrator.Controller.Types.{Reconciler, State, failed, call, change_status}
use gateway_orchestrator.Controller.Status.{
  set_condition, update_status, emit, reject, try_update_status,
}
use gateway_orchestrator.Controller.Assign.{
  desired_visibility, create_assigned_gateway, set_assigned, assign_new, assign_existing,
  assign_from_pool, ensure_gateway_assignment,
}
use gateway_orchestrator.Controller.Delete.{update_request, change_finalizers}
use gateway_orchestrator.Controller.Alias.{
  alias_target, alias_types, create_aliases, first_hostname, not_provisioned, point_to,
  hosted_zone_of, ensure_route53_alias,
}
use gateway_orchestrator.Controller.Footprint.Defs.{Footprint, Part, Apart, moved, Asks, Asks-next}
use gateway_orchestrator.Controller.Footprint.Cluster.{sync_look, select_look, create_assigned_look}
use gateway_orchestrator.Controller.Footprint.Dns.{aliases_look}

module _ {W X : Type 0} {spec : RequestSpec} {Own : String → Type 0} (r : Reconciler W)
    (look : W → X) (frame : Footprint r.services look spec Own) (part : Part X) where
  open r use {library as lib, services as sv, gateway_pool as pool}

  abbrev Out : State W → Type 0
  Out = Apart look spec part

  pub claim_call-Apart :
      {E A : Type 0} (f : Request → Exec W E A)
      → ((ghr : Request) (w : W)
          → Asks spec part.who ghr
          → part.holds (look w)
          → part.holds (look (f ghr w).1))
      → Keeps Out (call f)
  claim_call-Apart f h = record {
    at = λ s p. record { world_same = h s.ghr s.world p.asks p.world_same; asks = p.asks };
  }

  pub call-Apart :
      {E A : Type 0} (f : Request → Exec W E A)
      → ((ghr : Request) (w : W) → ghr.spec ≡ spec → look (f ghr w).1 ≡ look w)
      → Keeps Out (call f)
  call-Apart f h = claim_call-Apart f (λ ghr w a p. moved part (h ghr w a.0) p)

  pub change_status-Apart :
      {E : Type 0} (f : RequestStatus → RequestStatus) → Keeps {E = E} Out (change_status f)
  change_status-Apart f = record { at = λ s p. record { world_same = p.world_same; asks = p.asks } }

  pub update_status-Apart : Keeps Out (update_status r)
  unfolding update_status
  update_status-Apart = record {
    at = λ s p.
        let same = moved part (frame.update_status s.ghr s.world) p.world_same in
        elim (Result-cases (sv.update_status s.ghr s.world).0) [
          | inl (g, e) ↦
              let asks = Asks-next s.ghr g p.asks (frame.status_same s.ghr s.world g e) in
              rw (update_status, e) (record { world_same = same; asks = asks })
          | inr (_, e) ↦ rw (update_status, e) (record { world_same = same; asks = p.asks })
        ];
  }

  pub update_request-Apart : Keeps Out (update_request r)
  unfolding update_request
  update_request-Apart = record {
    at = λ s p.
        let same = moved part (frame.update_request s.ghr s.world) p.world_same in
        elim (Result-cases (sv.requests.update s.ghr s.world).0) [
          | inl (g, e) ↦
              let asks = Asks-next s.ghr g p.asks (frame.request_same s.ghr s.world g e) in
              rw (update_request, e) (record { world_same = same; asks = asks })
          | inr (_, e) ↦ rw (update_request, e) (record { world_same = same; asks = p.asks })
        ];
  }

  pub change_finalizers-Apart : (present : Bool) → Keeps Out (change_finalizers r present)
  unfolding change_finalizers
  change_finalizers-Apart present = record {
    at = λ s p. record { world_same = p.world_same; asks = p.asks };
  }

  pub try_update-Apart : {E : Type 0} → Keeps {E = E} Out (try_update_status r)
  unfolding try_update_status
  try_update-Apart = Keeps-attempt (update_status r) update_status-Apart

  pub set_condition-Apart :
      {E : Type 0} (type status reason message : String)
      → Keeps {E = E} Out (set_condition r type status reason message)
  unfolding set_condition
  set_condition-Apart type status reason message = record {
    at = λ s p. record { world_same = p.world_same; asks = p.asks };
  }

  pub emit-Apart :
      {E : Type 0} (type : EventType) (reason message : String)
      → Keeps {E = E} Out (emit r type reason message)
  unfolding emit
  emit-Apart type reason message = record {
    at = λ s p. record {
      world_same = moved part (frame.event s.ghr type reason message s.world) p.world_same;
      asks = p.asks;
    };
  }

  pub reject-Apart :
      {A : Type 0} (type reason event_reason text : String) (e : Error)
      → Keeps Out (reject r {A = A} type reason event_reason text e)
  unfolding reject
  reject-Apart type reason event_reason text e =
      Keeps-bind _ _ (set_condition-Apart type "False" reason (error_text e)) (λ _.
        Keeps-bind _ _ try_update-Apart (λ _.
          Keeps-bind _ _ (emit-Apart warning event_reason (text <> error_text e))
            (λ _. Keeps-raise (failed e))))

  set_assigned-Apart : {E : Type 0} (info : GatewayInfo) → Keeps {E = E} Out (set_assigned info)
  unfolding set_assigned
  set_assigned-Apart info = change_status-Apart _

  assign_new-Apart : Keeps Out (assign_new r)
  unfolding assign_new
  assign_new-Apart = Keeps-bind _ _ (Keeps-gets (λ s. s.ghr.spec.gateway_selector)) (
      Keeps-option _ _
        (Keeps-bind _ _
          (call-Apart (create_assigned_gateway r)
            (λ ghr w h. create_assigned_look r look frame ghr w))
          set_assigned-Apart)
        (λ _. Keeps-raise (errorf "no Gateway matching selector with available capacity")))

  assign_existing-Apart : (info : GatewayInfo) → Keeps Out (assign_existing r info)
  unfolding assign_existing
  assign_existing-Apart info = Keeps-bind _ _ (set_assigned-Apart info) (λ _.
      Keeps-map_err (wrap "failed to sync LoadBalancerConfiguration") _ (
        call-Apart
          (λ ghr.
            sync_load_balancer_configuration r info.name info.namespace (desired_visibility ghr)
              ghr.spec.waf_arn ghr.status.certificate_arn)
          (λ ghr w h. sync_look r look frame _ _ _ _ _ w)))

  assign_from_pool-Apart : Keeps Out (assign_from_pool r)
  unfolding assign_from_pool
  assign_from_pool-Apart =
      Keeps-bind _ _
        (Keeps-map_err (wrap "failed to select gateway") _ (
          call-Apart
            (λ ghr.
              select_gateway lib sv pool (desired_visibility ghr) ghr.spec.waf_arn
                ghr.spec.gateway_selector)
            (λ ghr w h. select_look r look frame _ _ _ w)))
        (Keeps-option _ _ assign_new-Apart assign_existing-Apart)

  get_gateway-Apart : Keeps Out (call (λ ghr. sv.gateways.get (gateway_key ghr)))
  get_gateway-Apart = call-Apart _ (λ ghr w h. frame.get_gateway (gateway_key ghr) w)

  pub assignment-Apart : Keeps Out (ensure_gateway_assignment r)
  unfolding ensure_gateway_assignment
  assignment-Apart = Keeps-bind _ _ (Keeps-gets (λ s. s.ghr.status.assigned_gateway)) (λ assigned.
      Keeps-if (assigned == "") _ _ assign_from_pool-Apart (
        Keeps-bind _ _ (Keeps-attempt _ get_gateway-Apart)
          (Keeps-result _ _ (λ _. Keeps-pure tt) (λ _. assign_from_pool-Apart))))

  aliases-Apart :
      (target : AliasTarget) (types : List String)
      → Keeps Out (call (λ ghr. create_aliases r ghr.spec.zone_id ghr.spec.hostname target types))
  aliases-Apart target types =
      call-Apart _ (λ ghr w h. aliases_look r look frame ghr target types w h)

  point_to-Apart : (lb_dns hosted_zone : String) → Keeps Out (point_to r lb_dns hosted_zone)
  unfolding point_to
  point_to-Apart lb_dns hosted_zone =
      Keeps-bind _ _ (change_status-Apart (λ st. record st { assigned_load_balancer = lb_dns }))
        (λ _. Keeps-bind _ _ (aliases-Apart (alias_target lb_dns hosted_zone) alias_types) (
          Keeps-list _ _ (Keeps-pure tt) (λ e es.
            Keeps-raise
              (errorf ("failed to create Route53 ALIAS records: " <> join (e ∷ es) "\n")))))

  pub alias-Apart : Keeps Out (ensure_route53_alias r)
  unfolding ensure_route53_alias
  alias-Apart = Keeps-bind _ _ (Keeps-gets (λ s. s.ghr.status.assigned_gateway)) (λ assigned.
      Keeps-if (assigned == "") _ _ (Keeps-raise (errorf "no gateway assigned")) (
        Keeps-bind _ _ (Keeps-map_err (wrap "failed to get gateway") _ get_gateway-Apart) (λ gw.
          let lb_dns = first_hostname gw.addresses in
          Keeps-if (lb_dns == "") _ _ (Keeps-raise (not_provisioned gw.name))
            (Keeps-bind _ _ (Keeps-still (λ _. hosted_zone_of lb_dns)) (point_to-Apart lb_dns)))))
