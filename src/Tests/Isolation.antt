-- ===== src/Tests/Isolation.antt =====
-- A run for the shop beside another hostname's claim and record.
use gateway_orchestrator.Prelude.{
  none, ◌≡◌, refl, String, ◌⊎◌, inl, inr, Option, List, [], ◌∷◌, ok, arith, All, string_dec,
  Option-cases, false, ◌==◌,
}
use gateway_orchestrator.Prelude.Dict.{lookup, insert, erase, lookup-insert, lookup-erase}
use gateway_orchestrator.Go.Strings.{to_lower, replace_all, lower}
use gateway_orchestrator.Api.Request.{Request}
use gateway_orchestrator.Api.Claim.{DomainClaim, OwnerRef}
use gateway_orchestrator.Api.Meta.{NamespacedName}
use gateway_orchestrator.Aws.Types.{DnsRecord, ValidationRecord}
use gateway_orchestrator.Services.{Services}
use gateway_orchestrator.Controller.Types.{Reconciler}
use gateway_orchestrator.Controller.Claim.{generate_claim_name}
use gateway_orchestrator.Controller.Reconcile.{reconcile}
use gateway_orchestrator.Controller.Footprint.{Footprint, name_of_claim}
use gateway_orchestrator.Controller.Footprint.Isolation.{ClaimElsewhere, reconcile_isolated}
use gateway_orchestrator.Tests.Memory.{World, named, lib, server}
use gateway_orchestrator.Tests.Store.{claim_named, owner_in, named-cons, named-name, named-without}
use gateway_orchestrator.Tests.Data.{pool, shop, attached_shop, claim_of_shop, claimed_world}

abbrev validation_name : String
validation_name = "_acm-validation.shop.example.com"

-- The world in memory with its records under their names, and one validation record for each
-- certificate.
abbrev by_name : Services World
by_name = record server {
  acm = record (server.acm) {
    get_validation_records =
        λ a w. (ok (record { name = validation_name; type = "CNAME"; value = "v" } ∷ []), w);
  };
  route53 = record (server.route53) {
    create_or_update_record = λ z d w. (ok tt, record w { route53 = insert d.name d w.route53 });
    delete_record = λ z d w. (ok tt, record w { route53 = erase d.name w.route53 });
  };
}

abbrev by_name_reconciler : Reconciler World
by_name_reconciler = record { library = lib; services = by_name; gateway_pool = pool }

abbrev other_host : String
other_host = "blog.example.com"

abbrev other_claim : String
other_claim = "z1-blog.example.com"

-- The other hostname's owner and its record.
abbrev other_part : World → Option OwnerRef × Option DnsRecord
other_part w = (owner_in w other_claim, lookup other_host w.route53)

abbrev OfShop : String → Type 0
OfShop n = (n ≡ "shop.example.com") ⊎ (n ≡ validation_name)

name_of_shop : name_of_claim shop.spec ≡ "z1-shop.example.com"
unfolding generate_claim_name to_lower lower replace_all
name_of_shop = refl

not_other_claim : (n : String) → n ≡ name_of_claim shop.spec → (n == other_claim) ≡ false
unfolding string_dec
not_other_claim n h = rw (h, name_of_shop) refl

not_other_host : (n : String) → OfShop n → (n == other_host) ≡ false
unfolding string_dec
not_other_host n (inl h) = rw h refl
not_other_host n (inr h) = rw h refl

create_claim_look :
    (c : DomainClaim) (w : World)
    → c.name ≡ name_of_claim shop.spec
    → other_part (server.claims.create c w).1 ≡ other_part w
create_claim_look c w h =
    ground (arith, not_other_claim c.name h, named-cons other_claim c w.claims)

delete_claim_look :
    (c : DomainClaim) (w : World)
    → c.name ≡ name_of_claim shop.spec
    → other_part (server.claims.delete c w).1 ≡ other_part w
delete_claim_look c w h =
    ground
      (arith, not_other_claim c.name h, named-without (λ d. d.name) other_claim c.name w.claims)

create_record_look :
    (d : DnsRecord) (w : World)
    → OfShop d.name
    → other_part (by_name.route53.create_or_update_record "Z1" d w).1 ≡ other_part w
create_record_look d w h =
    ground (arith, not_other_host d.name h, lookup-insert d.name other_host d w.route53)

delete_record_look :
    (d : DnsRecord) (w : World)
    → OfShop d.name
    → other_part (by_name.route53.delete_record "Z1" d w).1 ≡ other_part w
delete_record_look d w h =
    ground (arith, not_other_host d.name h, lookup-erase d.name other_host w.route53)

abbrev the_records : List ValidationRecord
the_records = record { name = validation_name; type = "CNAME"; value = "v" } ∷ []

names-OfShop :
    (a : String) (w : World) (records : List ValidationRecord)
    → (by_name.acm.get_validation_records a w).0 ≡ ok records
    → All (λ v. OfShop v.name) records
names-OfShop a w records h = let same : records ≡ the_records = cc in rw same (inr refl, tt)

claim_found :
    (k : NamespacedName) (w : World) (c : DomainClaim)
    → (server.claims.get k w).0 ≡ ok c
    → c.name ≡ k.name
claim_found k w c h = elim (Option-cases (claim_named k.name w.claims)) [
  | inl e ↦ absurd (ground arith)
  | inr (d, e) ↦ ground (arith, named-name k.name w.claims d e)
]

shop_footprint : Footprint by_name other_part shop.spec OfShop
shop_footprint = record {
  own_hostname = inl refl;
  get_request = λ k w. ground arith;
  update_request = λ g w. ground arith;
  update_status = λ g w. ground arith;
  list_requests = λ w. refl;
  get_gateway = λ k w. ground arith;
  create_gateway = λ g w. ground arith;
  update_gateway = λ g w. ground arith;
  delete_gateway = λ g w. ground arith;
  list_gateways = λ n w. refl;
  get_config = λ k w. ground arith;
  create_config = λ c w. ground arith;
  update_config = λ c w. ground arith;
  delete_config = λ c w. ground arith;
  get_namespace = λ k w. ground arith;
  update_namespace = λ n w. ground arith;
  event = λ g t reason message w. refl;
  request_certificate = λ d tags w. refl;
  describe = λ a w. refl;
  delete_certificate = λ a w. refl;
  get_validation = λ a w. refl;
  create_record = create_record_look;
  delete_record = delete_record_look;
  validation_names = names-OfShop;
  request_same = λ g w g' h. (ground arith, ground arith);
  status_same = λ g w g' h. (ground arith, ground arith);
}

other-ClaimElsewhere : ClaimElsewhere by_name other_part shop.spec
other-ClaimElsewhere = record {
  get_claim = λ k w. ground arith;
  create_claim = create_claim_look;
  delete_claim = delete_claim_look;
  claim_found = claim_found;
}

-- The claims of both hostnames, and the record of the other one.
abbrev shared_world : World
shared_world = record (claimed_world (attached_shop ∷ [])) {
  claims = record claim_of_shop { name = other_claim } ∷ claim_of_shop ∷ [];
  route53 =
      (
        other_host,
        record { name = other_host; type = "A"; alias_target = none; value = "10.0.0.1"; ttl = 60 },
      )
      ∷ [];
}

abbrev shop_key : NamespacedName
shop_key = record { namespace = "shop"; name = "web" }

reads_shop :
    (g : Request) → (by_name.requests.get shop_key shared_world).0 ≡ ok g → g.spec ≡ shop.spec
unfolding named string_dec
reads_shop g h = let same : g ≡ attached_shop = cc in rw same refl

reconcile_isolated_example :
    other_part (reconcile by_name_reconciler shop_key shared_world).1 ≡ other_part shared_world
reconcile_isolated_example =
    reconcile_isolated by_name_reconciler other_part shop_footprint other-ClaimElsewhere shop_key
      shared_world reads_shop
