-- ===== src/Main.antt =====
-- cmd/controller/main.go: the flags, the wiring of the controller and the start of the manager.
-- Also SetupWithManager of the reconciler, and the constructors of the SDK's clients.
pub mod Ports
pub mod Startup
use gateway_orchestrator.Prelude.{
  String, Bool, false, Exec, Result, ok, err, ◌>>=◌, ◌>>◌, pure, gets, map_err,
}
use gateway_orchestrator.Go.Int.{ℤ, pos, to_int32}
use gateway_orchestrator.Api.Meta.{Error}
use gateway_orchestrator.Aws.Types.{AcmClient, Route53Client}
use gateway_orchestrator.Aws.Acm.{AcmApi, sdk_acm}
use gateway_orchestrator.Aws.Route53.{Route53Api, sdk_route53}
use gateway_orchestrator.Services.{Services, Library}
use gateway_orchestrator.Pool.{Pool, new_pool}
use gateway_orchestrator.Controller.Types.{Reconciler}

-- The variables of `main` that flags set.
pub record Flags : Type 0 where
  pub metrics_addr : String
  pub probe_addr : String
  pub enable_leader_election : Bool
  pub gateway_namespace : String
  pub gateway_class_name : String
  pub http_port : ℤ
  pub https_port : ℤ

-- The defaults.
abbrev pub default_flags : Flags
default_flags = record {
  metrics_addr = ":8080";
  probe_addr = ":8081";
  enable_leader_election = false;
  gateway_namespace = "edge";
  gateway_class_name = "aws-alb";
  http_port = pos 80;
  https_port = pos 443;
}

-- `ctrl.Options`, without the scheme.
pub record ManagerOptions : Type 0 where
  pub metrics_bind_address : String
  pub health_probe_bind_address : String
  pub leader_election : Bool
  pub leader_election_id : String

-- `os.Exit(1)` behind an error that is logged with a message.
pub record Exit : Type 0 where
  pub message : String
  pub error : Error

-- The libraries that `main` calls: package flag, the AWS SDK and controller-runtime. `Config`,
-- `Rest` and `Manager` are their types. A call that ends the process itself has an Exit as its error.
pub record Platform (W Config Rest Manager : Type 0) : Type 0 where
  pub parse : Flags → Exec W Exit Flags
  pub load_default_config : Exec W Error Config
  pub acm_from_config : Config → AcmApi W
  pub route53_from_config : Config → Route53Api W
  pub get_config_or_die : Exec W Exit Rest
  pub new_manager : Rest → ManagerOptions → Exec W Error Manager
  pub services_of : Manager → AcmClient W → Route53Client W → Services W
  pub library : Library
  pub complete : Manager → Reconciler W → Exec W Error (Unit {0})
  pub add_healthz_check : Manager → String → Exec W Error (Unit {0})
  pub add_readyz_check : Manager → String → Exec W Error (Unit {0})
  pub start : Manager → Exec W Error (Unit {0})

unfoldable pub manager_options : Flags → ManagerOptions
manager_options flags = record {
  metrics_bind_address = flags.metrics_addr;
  health_probe_bind_address = flags.probe_addr;
  leader_election = flags.enable_leader_election;
  leader_election_id = "gateway-orchestrator.opendi.com";
}

-- The pool that `main` makes: its ports are cut to 32 bits first.
unfoldable pub gateway_pool : Flags → Pool
unfolding new_pool to_int32
gateway_pool flags =
    new_pool flags.gateway_namespace flags.gateway_class_name (to_int32 flags.http_port)
      (to_int32 flags.https_port)

-- `if err != nil { setupLog.Error(err, …); os.Exit(1) }`
abbrev pub or_exit : {W A : Type 0} → String → Exec W Error A → Exec W Exit A
or_exit message m = map_err (λ e. record { message = message; error = e }) m

module _ {W Config Rest Manager : Type 0} (p : Platform W Config Rest Manager) where
  -- `NewSDKACMClient`
  abbrev pub new_sdk_acm_client : Config → AcmClient W
  new_sdk_acm_client cfg = sdk_acm (p.acm_from_config cfg)

  -- `NewSDKRoute53Client`
  abbrev pub new_sdk_route53_client : Config → Route53Client W
  new_sdk_route53_client cfg = sdk_route53 (p.route53_from_config cfg)

  -- The reconciler that `main` registers.
  unfoldable pub new_reconciler : Flags → Config → Manager → Reconciler W
  unfolding gateway_pool sdk_acm sdk_route53
  new_reconciler flags cfg mgr = record {
    library = p.library;
    services = p.services_of mgr (new_sdk_acm_client cfg) (new_sdk_route53_client cfg);
    gateway_pool = gateway_pool flags;
  }

  -- `SetupWithManager`
  unfoldable pub setup_with_manager : Manager → Reconciler W → Exec W Error (Unit {0})
  setup_with_manager mgr r = p.complete mgr r

  -- `main`
  unfoldable pub main : Exec W Exit (Unit {0})
  unfolding manager_options new_reconciler setup_with_manager
  main = do
    flags ← p.parse default_flags
    cfg ← or_exit "unable to load AWS config" p.load_default_config
    rest ← p.get_config_or_die
    mgr ← or_exit "unable to start manager" (p.new_manager rest (manager_options flags))
    or_exit "unable to create controller" (setup_with_manager mgr (new_reconciler flags cfg mgr))
    or_exit "unable to set up health check" (p.add_healthz_check mgr "healthz")
    or_exit "unable to set up ready check" (p.add_readyz_check mgr "readyz")
    or_exit "problem running manager" (p.start mgr)
