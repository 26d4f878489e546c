-- ===== src/Services/Types.antt =====
-- The interfaces. Each call acts on a world that stands for everything outside the process: it
-- may fail, and other clients may have changed the world before it answers.
use gateway_orchestrator.Prelude.{ℕ, String, Bool, Option, List, Exec, Result}
use gateway_orchestrator.Prelude.Dict.{Dict}
use gateway_orchestrator.Api.Meta.{Error, NamespacedName, Condition, LabelSelector}
use gateway_orchestrator.Api.Request.{Request}
use gateway_orchestrator.Api.Claim.{DomainClaim}
use gateway_orchestrator.Api.Cluster.{Gateway, Namespace, LbConfig}
use gateway_orchestrator.Aws.Types.{AcmClient, Route53Client}

-- The client's calls on one kind of object. An update returns the object that the server sends
-- back, which the client writes over the one that it was given.
pub record Objects (W O : Type 0) : Type 0 where
  pub get : NamespacedName → Exec W Error O
  pub create : O → Exec W Error (Unit {0})
  pub update : O → Exec W Error O
  pub delete : O → Exec W Error (Unit {0})

pub data EventType : Type 0 where
  normal warning : EventType

-- Package apierrors and `client.IgnoreNotFound`, meta's functions on conditions, controllerutil's
-- on finalizers, the compiled label selector, and SHA-256.
pub record Library : Type 0 where
  pub is_not_found : Error → Bool
  pub is_already_exists : Error → Bool
  pub ignore_not_found : Error → Option Error
  pub set_status_condition : List Condition → Condition → List Condition
  pub remove_status_condition : List Condition → String → List Condition
  pub find_status_condition : List Condition → String → Option Condition
  pub is_status_condition_true : List Condition → String → Bool
  pub contains_finalizer : List String → String → Bool
  pub add_finalizer : List String → String → List String
  pub remove_finalizer : List String → String → List String
  pub label_selector_as_selector : LabelSelector → Result Error (Dict String → Bool)
  pub sum256 : String → List ℕ

-- The reconciler's collaborators, over a world.
pub record Services (W : Type 0) : Type 0 where
  pub requests : Objects W Request
  pub update_status : Request → Exec W Error Request
  pub list_requests : Exec W Error (List Request)
  pub claims : Objects W DomainClaim
  pub gateways : Objects W Gateway
  pub list_gateways : String → Exec W Error (List Gateway)
  pub configs : Objects W LbConfig
  pub namespaces : Objects W Namespace
  pub event : Request → EventType → String → String → W → W
  pub now : W → String
  pub acm : AcmClient W
  pub route53 : Route53Client W
