-- ===== src/Controller/Footprint/Defs.antt =====
-- The calls that leave a part of the world alone.
use gateway_orchestrator.Prelude.{◌≡◌, ◌∙◌, String, List, ok, All}
use gateway_orchestrator.Prelude.Dict.{Dict}
use gateway_orchestrator.Api.Meta.{NamespacedName}
use gateway_orchestrator.Api.Request.{Request, RequestSpec}
use gateway_orchestrator.Api.Claim.{OwnerRef}
use gateway_orchestrator.Api.Cluster.{Gateway, Namespace, LbConfig}
use gateway_orchestrator.Aws.Types.{DnsRecord, ValidationRecord}
use gateway_orchestrator.Services.{Services, EventType}
use gateway_orchestrator.Controller.Types.{Reconciler, State}
use gateway_orchestrator.Controller.Claim.{
  generate_claim_name, ensure_domain_claim, delete_domain_claim,
}
use gateway_orchestrator.Controller.Claim.Ownership.{own_ref}

-- The claim's name of a spec.
abbrev pub name_of_claim : RequestSpec → String
name_of_claim spec = generate_claim_name spec.zone_id spec.hostname

-- A request with the spec and the identity.
abbrev pub Asks : RequestSpec → OwnerRef → Request → Type 0
Asks spec who ghr = (ghr.spec ≡ spec) × (own_ref ghr ≡ who)

-- `look` reads a part of the world in which a request with the spec has a share by its claim alone:
-- no call on the cluster's other objects, on certificates or on events changes it, and no write of a
-- record in the spec's zone under one of the names `Own`. Those are the hostname and the names that
-- ACM wants for the validation of certificates. What an update of the request or of its status
-- sends back has the spec and the identity that were sent.
pub record Footprint {W X : Type 0} (sv : Services W) (look : W → X) (spec : RequestSpec)
    (Own : String → Type 0) : Type 0 where
  pub own_hostname : Own spec.hostname
  pub get_request : (k : NamespacedName) (w : W) → look (sv.requests.get k w).1 ≡ look w
  pub update_request : (g : Request) (w : W) → look (sv.requests.update g w).1 ≡ look w
  pub update_status : (g : Request) (w : W) → look (sv.update_status g w).1 ≡ look w
  pub list_requests : (w : W) → look (sv.list_requests w).1 ≡ look w
  pub get_gateway : (k : NamespacedName) (w : W) → look (sv.gateways.get k w).1 ≡ look w
  pub create_gateway : (g : Gateway) (w : W) → look (sv.gateways.create g w).1 ≡ look w
  pub update_gateway : (g : Gateway) (w : W) → look (sv.gateways.update g w).1 ≡ look w
  pub delete_gateway : (g : Gateway) (w : W) → look (sv.gateways.delete g w).1 ≡ look w
  pub list_gateways : (n : String) (w : W) → look (sv.list_gateways n w).1 ≡ look w
  pub get_config : (k : NamespacedName) (w : W) → look (sv.configs.get k w).1 ≡ look w
  pub create_config : (c : LbConfig) (w : W) → look (sv.configs.create c w).1 ≡ look w
  pub update_config : (c : LbConfig) (w : W) → look (sv.configs.update c w).1 ≡ look w
  pub delete_config : (c : LbConfig) (w : W) → look (sv.configs.delete c w).1 ≡ look w
  pub get_namespace : (k : NamespacedName) (w : W) → look (sv.namespaces.get k w).1 ≡ look w
  pub update_namespace : (n : Namespace) (w : W) → look (sv.namespaces.update n w).1 ≡ look w
  pub event :
      (g : Request) (t : EventType) (reason message : String) (w : W)
      → look (sv.event g t reason message w) ≡ look w
  pub request_certificate :
      (d : String) (tags : Dict String) (w : W)
      → look (sv.acm.request_certificate d tags w).1 ≡ look w
  pub describe : (arn : String) (w : W) → look (sv.acm.describe_certificate arn w).1 ≡ look w
  pub delete_certificate :
      (arn : String) (w : W) → look (sv.acm.delete_certificate arn w).1 ≡ look w
  pub get_validation :
      (arn : String) (w : W) → look (sv.acm.get_validation_records arn w).1 ≡ look w
  pub create_record :
      (d : DnsRecord) (w : W)
      → Own d.name
      → look (sv.route53.create_or_update_record spec.zone_id d w).1 ≡ look w
  pub delete_record :
      (d : DnsRecord) (w : W)
      → Own d.name
      → look (sv.route53.delete_record spec.zone_id d w).1 ≡ look w
  pub validation_names :
      (arn : String) (w : W) (records : List ValidationRecord)
      → (sv.acm.get_validation_records arn w).0 ≡ ok records
      → All (λ v. Own v.name) records
  pub request_same :
      (g : Request) (w : W) (g' : Request)
      → (sv.requests.update g w).0 ≡ ok g'
      → Asks g.spec (own_ref g) g'
  pub status_same :
      (g : Request) (w : W) (g' : Request)
      → (sv.update_status g w).0 ≡ ok g'
      → Asks g.spec (own_ref g) g'

-- What is followed of the part: the identity of the request, and what is to hold of what is read.
pub record Part (X : Type 0) : Type 1 where
  pub who : OwnerRef
  pub holds : X → Type 0

-- The operations on claims of a request with the identity and the spec keep it.
pub record ClaimCalls {W X : Type 0} (r : Reconciler W) (look : W → X) (spec : RequestSpec)
    (part : Part X) : Type 0 where
  pub ensure :
      (ghr : Request) (w : W)
      → Asks spec part.who ghr
      → part.holds (look w)
      → part.holds (look (ensure_domain_claim r ghr w).1)
  pub delete :
      (ghr : Request) (w : W)
      → Asks spec part.who ghr
      → part.holds (look w)
      → part.holds (look (delete_domain_claim r ghr w).1)

-- It holds, and the request still is the one that is followed.
pub record Apart {W X : Type 0} (look : W → X) (spec : RequestSpec) (part : Part X) (s : State W)
    : Type 0 where
  pub world_same : part.holds (look s.world)
  pub asks : Asks spec part.who s.ghr

pub moved : {X : Type 0} (part : Part X) {u v : X} → u ≡ v → part.holds v → part.holds u
moved part e h = rw e h

pub Asks-next :
    {spec : RequestSpec} {who : OwnerRef} (g g' : Request)
    → Asks spec who g
    → Asks g.spec (own_ref g) g'
    → Asks spec who g'
Asks-next g g' (a, b) (a', b') = (a' ∙ a, b' ∙ b)
