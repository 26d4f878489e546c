-- ===== src/Controller/Alias.antt =====
-- The alias records of a hostname: ensureRoute53Alias of internal/controller/gateway.go, and the
-- deletions of gatewayhostnamerequest_controller.go.
pub mod Keeps
pub mod Target
use gateway_orchestrator.Prelude.{
  String, ◌<>◌, true, none, some, List, [], ◌∷◌, Exec, Result, ok, err, ◌>>=◌, ◌>>◌, pure, raise,
  attempt, map_err, gets, lift, find, ◌==◌, if◌then◌else◌,
}
use gateway_orchestrator.Go.Strings.{join}
use gateway_orchestrator.Api.Meta.{Error, errorf, wrap, error_text}
use gateway_orchestrator.Api.Request.{Request}
use gateway_orchestrator.Api.Cluster.{Address}
use gateway_orchestrator.Aws.Types.{DnsRecord, AliasTarget}
use gateway_orchestrator.Aws.Regions.{extract_region_from_alb_dns, get_alb_hosted_zone_id}
use gateway_orchestrator.Pool.Defs.{is_hostname}
use gateway_orchestrator.Controller.Types.{Reconciler, Action, call, change_status}
use gateway_orchestrator.Controller.Gateway.{gateway_key}

-- The loop over the gateway's addresses, with its break.
unfoldable pub first_hostname : List Address → String
first_hostname addresses = elim (find is_hostname addresses) [ none ↦ "" | some a ↦ a.value ]

-- `getALBHostedZoneId`: an error, also of the region, gives the empty id.
unfoldable pub get_alb_hosted_zone_id_or_empty : String → String
get_alb_hosted_zone_id_or_empty alb_dns = elim (extract_region_from_alb_dns alb_dns) [
  | err _ ↦ ""
  | ok region ↦ elim (get_alb_hosted_zone_id region) [ err _ ↦ "" | ok zone_id ↦ zone_id ]
]

abbrev pub alias_target : String → String → AliasTarget
alias_target lb_dns zone_id = record {
  dns_name = lb_dns;
  hosted_zone_id = zone_id;
  evaluate_target_health = true;
}

abbrev pub alias_record : String → AliasTarget → String → DnsRecord
alias_record hostname target type = record {
  name = hostname;
  type = type;
  alias_target = some target;
  value = "";
  ttl = 0;
}

abbrev pub alias_types : List String
alias_types = "A" ∷ "AAAA" ∷ []

abbrev pub not_provisioned : String → Error
not_provisioned gateway =
    errorf ("gateway " <> gateway <> " does not have LoadBalancer address yet")

-- The hosted zone of a load balancer, with the errors of `ensureRoute53Alias`.
unfoldable pub hosted_zone_of : String → Result Error String
hosted_zone_of lb_dns = elim (extract_region_from_alb_dns lb_dns) [
  | err e ↦ err (wrap "failed to extract region from ALB DNS" e)
  | ok region ↦ elim (get_alb_hosted_zone_id region) [
    | err e ↦ err (wrap "failed to get ALB hosted zone ID" e)
    | ok zone_id ↦ ok zone_id
  ]
]

module _ {W : Type 0} (r : Reconciler W) where
  open r use {services as sv}

  -- The loop over the record types, which goes on after an error: the errors' texts.
  unfoldable pub create_aliases :
      String → String → AliasTarget → List String → Exec W Error (List String)
  create_aliases zone_id hostname target [] = pure []
  create_aliases zone_id hostname target (type ∷ types) = do
    result ←
        attempt (sv.route53.create_or_update_record zone_id (alias_record hostname target type))
    errors ← create_aliases zone_id hostname target types
    elim result [ ok _ ↦ pure errors | err e ↦ pure ((type <> ": " <> error_text e) ∷ errors) ]

  -- The records for a load balancer that is known.
  unfoldable pub point_to : String → String → Action W (Unit {0})
  unfolding create_aliases
  point_to lb_dns hosted_zone = do
    change_status (λ st. record st { assigned_load_balancer = lb_dns })
    errors ← call (λ ghr.
        create_aliases ghr.spec.zone_id ghr.spec.hostname (alias_target lb_dns hosted_zone)
          alias_types)
    elim errors [
      | [] ↦ pure tt
      | e ∷ es ↦ raise (errorf ("failed to create Route53 ALIAS records: " <> join (e ∷ es) "\n"))
    ]

  -- `ensureRoute53Alias`
  unfoldable pub ensure_route53_alias : Action W (Unit {0})
  unfolding first_hostname hosted_zone_of point_to
  ensure_route53_alias = do
    assigned ← gets (λ s. s.ghr.status.assigned_gateway)
    if assigned == "" then raise (errorf "no gateway assigned") else do
      gw ← map_err (wrap "failed to get gateway") (call (λ ghr. sv.gateways.get (gateway_key ghr)))
      let lb_dns = first_hostname gw.addresses
      if lb_dns == ""
          then raise (not_provisioned gw.name)
          else do hosted_zone ← lift (hosted_zone_of lb_dns); point_to lb_dns hosted_zone

  -- The loop that deletes the alias records; a failure is only logged.
  unfoldable pub delete_each : String → String → AliasTarget → List String → Exec W Error (Unit {0})
  delete_each zone_id hostname target [] = pure tt
  delete_each zone_id hostname target (type ∷ types) = do
    attempt {F = Error} (sv.route53.delete_record zone_id (alias_record hostname target type))
    delete_each zone_id hostname target types

  -- Step 1 of the deletion and of the clean-up before re-provisioning.
  unfoldable pub delete_aliases : Request → Exec W Error (Unit {0})
  unfolding delete_each get_alb_hosted_zone_id_or_empty
  delete_aliases ghr =
      let lb_dns = ghr.status.assigned_load_balancer in
      if lb_dns == ""
      then pure tt
      else delete_each ghr.spec.zone_id ghr.spec.hostname
          (alias_target lb_dns (get_alb_hosted_zone_id_or_empty lb_dns)) alias_types
