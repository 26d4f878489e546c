-- ===== src/Tests/Data.antt =====
-- Requests, gateways and a world to run the theorems on.
use gateway_orchestrator.Prelude.{String, none, some, List, [], ◌∷◌}
use gateway_orchestrator.Go.Int.{pos}
use gateway_orchestrator.Api.Request.{Request, RequestStatus}
use gateway_orchestrator.Api.Claim.{DomainClaim}
use gateway_orchestrator.Api.Cluster.{Gateway}
use gateway_orchestrator.Pool.Defs.{Pool, new_gateway}
use gateway_orchestrator.Controller.Types.{Reconciler, State}
use gateway_orchestrator.Tests.Memory.{World, lib, server, empty_world}

abbrev pub pool : Pool
pool = record {
  namespace = "edge";
  gateway_class = "alb";
  http_port = pos 80;
  https_port = pos 443;
}

abbrev pub reconciler : Reconciler World
reconciler = record { library = lib; services = server; gateway_pool = pool }

abbrev pub no_status : RequestStatus
no_status = record {
  observed_generation = 0;
  observed_spec_hash = "";
  assigned_gateway = "";
  assigned_gateway_namespace = "";
  assigned_load_balancer = "";
  certificate_arn = "";
  conditions = [];
}

abbrev pub shop : Request
shop = record {
  meta = record {
    namespace = "shop";
    name = "web";
    uid = "u-1";
    generation = 1;
    resource_version = "1";
    deletion_timestamp = none;
    finalizers = "gateway-orchestrator.opendi.com/finalizer" ∷ [];
  };
  spec = record {
    zone_id = "Z1";
    hostname = "shop.example.com";
    environment = "prod";
    visibility = "";
    gateway_class = "alb";
    gateway_selector = none;
    waf_arn = "";
  };
  status = no_status;
}

-- The same hostname, asked for by another request.
abbrev pub rival : Request
rival = record shop { meta = record (shop.meta) { namespace = "rival"; uid = "u-2" } }

abbrev pub claim_of_shop : DomainClaim
claim_of_shop = record {
  name = "z1-shop.example.com";
  spec = record {
    zone_id = "Z1";
    hostname = "shop.example.com";
    owner_ref = record { namespace = "shop"; name = "web"; uid = "u-1" };
  };
  claimed_at = none;
}

abbrev pub first_gateway : Gateway
first_gateway = record (new_gateway pool "internet-facing" "" (pos 1)) {
  addresses =
      record { type = some "Hostname"; value = "k8s-edge.eu-west-1.elb.amazonaws.com" } ∷ [];
}

abbrev pub arn : String
arn = "arn:aws:acm:us-east-1:123456789012:certificate/shop.example.com"

-- The shop's request with its certificate on the first gateway.
abbrev pub attached_shop : Request
attached_shop = record shop {
  status = record no_status {
    assigned_gateway = "gw-01";
    assigned_gateway_namespace = "edge";
    assigned_load_balancer = "k8s-edge.eu-west-1.elb.amazonaws.com";
    certificate_arn = arn;
  };
}

-- The same, in the second phase of its deletion.
abbrev pub waiting_shop : Request
waiting_shop = record attached_shop {
  meta = record (shop.meta) { deletion_timestamp = some "2025-01-01T00:00:00Z" };
  status = record (attached_shop.status) {
    conditions =
        record {
          type = "Deleting";
          status = "True";
          observed_generation = 1;
          reason = "WaitingForCertDetachment";
          message = "";
        }
        ∷ [];
  };
}

-- A request in the world in memory, with the first gateway and the shop's claim.
abbrev pub claimed_world : List Request → World
claimed_world requests = record empty_world {
  requests = requests;
  claims = claim_of_shop ∷ [];
  gateways = first_gateway ∷ [];
}

abbrev pub in_world : Request → World → State World
in_world ghr w = record { ghr = ghr; world = w }
