-- ===== src/Controller/Alias/Target.antt =====
-- The deletion of the alias records names the records that were created.
use gateway_orchestrator.Prelude.{◌≡◌, ◌≢◌, String, true, some, ok, arith}
use gateway_orchestrator.Aws.Types.{DnsRecord}
use gateway_orchestrator.Controller.Types.{Reconciler, State}
use gateway_orchestrator.Controller.Alias.{
  hosted_zone_of, get_alb_hosted_zone_id_or_empty, delete_aliases, delete_each, create_aliases,
  point_to,
}

same_zone :
    (lb_dns zone_id : String)
    → hosted_zone_of lb_dns ≡ ok zone_id
    → get_alb_hosted_zone_id_or_empty lb_dns ≡ zone_id
unfolding hosted_zone_of get_alb_hosted_zone_id_or_empty
same_zone lb_dns zone_id h = ground arith

-- The record that points a hostname at a load balancer.
abbrev pub pointing : String → String → String → String → DnsRecord
pointing hostname lb_dns zone_id type = record {
  name = hostname;
  type = type;
  alias_target =
      some (record { dns_name = lb_dns; hosted_zone_id = zone_id; evaluate_target_health = true });
  value = "";
  ttl = 0;
}

module _ {W : Type 0} (r : Reconciler W) where
  open r use {services as sv}

  -- For a load balancer that `ensureRoute53Alias` accepts, two calls are all that the creation does
  -- to the world: it upserts the A record and the AAAA record of the request's hostname, in the
  -- request's zone, that point at the load balancer, the second also where the first fails. The
  -- request's deletion, in any world, makes two calls and no other: it deletes the same two
  -- records, the second also where the first fails, and its own result is no error.
  pub delete_aliases_matches :
      (s : State W) (lb_dns zone_id : String) (w : W)
      → lb_dns ≢ ""
      → hosted_zone_of lb_dns ≡ ok zone_id
      → let s' = (point_to r lb_dns zone_id s).1 in
        let zone = s.ghr.spec.zone_id in
        let a = pointing s.ghr.spec.hostname lb_dns zone_id "A" in
        let aaaa = pointing s.ghr.spec.hostname lb_dns zone_id "AAAA" in
        (s'.world
          ≡ (sv.route53.create_or_update_record zone aaaa
              (sv.route53.create_or_update_record zone a s.world).1).1)
        × (delete_aliases r s'.ghr w
            ≡ (ok tt, (sv.route53.delete_record zone aaaa (sv.route53.delete_record zone a w).1).1))
  unfolding point_to create_aliases delete_aliases delete_each
  delete_aliases_matches s lb_dns zone_id w set h =
      (ground arith, ground (arith, same_zone lb_dns zone_id h))
