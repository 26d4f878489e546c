-- ===== src/Tests/Process.antt =====
-- The process with flags of one's own.
use gateway_orchestrator.Prelude.{ℕ, ok, err, ◌+◌, ◌^◌, All}
use gateway_orchestrator.Go.Int.{pos}
use gateway_orchestrator.Pool.Defs.{new_gateway}
use gateway_orchestrator.Api.Meta.{Error, external}
use gateway_orchestrator.Aws.Types.{AcmClient, Route53Client}
use gateway_orchestrator.Services.{Services, Objects}
use gateway_orchestrator.Main.{Flags, default_flags, gateway_pool, Platform}
use gateway_orchestrator.Tests.Memory.{lib}
use gateway_orchestrator.Main.Ports.{IsPort, ports, listener_ports-IsPort}

-- The HTTP port is 2^32, which is cut to 0.
abbrev wrapped : Flags
wrapped = record default_flags { http_port = pos (2 ^ 32) }

listener_ports-IsPort_example :
    All IsPort (ports (new_gateway (gateway_pool wrapped) "internal" "" (pos 1)).listeners)
listener_ports-IsPort_example = listener_ports-IsPort wrapped "internal" "" (pos 1)

abbrev unreachable : Error
unreachable = external "unreachable"

-- An API server that does not answer.
abbrev idle_objects : {O : Type 0} → Objects ℕ O
idle_objects = record {
  get = λ k w. (err unreachable, w);
  create = λ o w. (err unreachable, w);
  update = λ o w. (err unreachable, w);
  delete = λ o w. (err unreachable, w);
}

abbrev idle_services : AcmClient ℕ → Route53Client ℕ → Services ℕ
idle_services acm route53 = record {
  requests = idle_objects;
  update_status = λ g w. (err unreachable, w);
  list_requests = λ w. (err unreachable, w);
  claims = idle_objects;
  gateways = idle_objects;
  list_gateways = λ n w. (err unreachable, w);
  configs = idle_objects;
  namespaces = idle_objects;
  event = λ g t reason message w. w;
  now = λ w. "";
  acm = acm;
  route53 = route53;
}

-- A process whose ready check cannot be added; its world counts the starts of a manager.
abbrev platform : Platform ℕ (Unit {0}) (Unit {0}) (Unit {0})
platform = record {
  parse = λ f w. (ok f, w);
  load_default_config = λ w. (ok tt, w);
  acm_from_config = λ cfg. record {
    request_certificate = λ i w. (err unreachable, w);
    describe_certificate = λ a w. (err unreachable, w);
    delete_certificate = λ a w. (err unreachable, w);
  };
  route53_from_config = λ cfg. record {
    change_resource_record_sets = λ z a s w. (err unreachable, w);
    list_resource_record_sets = λ z n t w. (err unreachable, w);
  };
  get_config_or_die = λ w. (ok tt, w);
  new_manager = λ rest o w. (ok tt, w);
  services_of = λ mgr acm route53. idle_services acm route53;
  library = lib;
  complete = λ mgr r w. (ok tt, w);
  add_healthz_check = λ mgr n w. (ok tt, w);
  add_readyz_check = λ mgr n w. (err unreachable, w);
  start = λ mgr w. (ok tt, w + 1);
}
