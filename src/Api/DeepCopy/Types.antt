-- ===== src/Api/DeepCopy/Types.antt =====
-- The structs of api/v1alpha1 as they lie in memory: where the source has a pointer, a slice or a
-- type of apimachinery, a parameter stands, which is what is held there or what is read through it.
use gateway_orchestrator.Prelude.{String, ℕ, Option, List}
use gateway_orchestrator.Api.Claim.{OwnerRef, DomainClaimSpec}
use gateway_orchestrator.Api.DeepCopy.Heap.{Stored}
use gateway_orchestrator.Api.DeepCopy.Linked.{Linked}

-- `metav1.TypeMeta`
pub record TypeMeta : Type 0 where
  pub kind : String
  pub api_version : String

-- `DomainClaimStatus`
pub record ClaimStatus (Time : Type 0) : Type 0 where
  pub claimed_at : Option Time

-- `DomainClaim`
pub record ClaimStruct (Meta Time : Type 0) : Type 0 where
  pub type_meta : TypeMeta
  pub object_meta : Meta
  pub spec : DomainClaimSpec
  pub status : ClaimStatus Time

-- `GatewayHostnameRequestSpec`
pub record SpecStruct (Selector : Type 0) : Type 0 where
  pub zone_id : String
  pub hostname : String
  pub environment : String
  pub visibility : String
  pub gateway_class : String
  pub gateway_selector : Option Selector
  pub waf_arn : String

-- `GatewayHostnameRequestStatus`
pub record StatusStruct (Conditions : Type 0) : Type 0 where
  pub observed_generation : ℕ
  pub observed_spec_hash : String
  pub assigned_gateway : String
  pub assigned_gateway_namespace : String
  pub assigned_load_balancer : String
  pub certificate_arn : String
  pub conditions : Option Conditions

-- `GatewayHostnameRequest`
pub record RequestStruct (Meta Selector Conditions : Type 0) : Type 0 where
  pub type_meta : TypeMeta
  pub object_meta : Meta
  pub spec : SpecStruct Selector
  pub status : StatusStruct Conditions

-- `HostnameGrantSpec`
pub record GrantSpec (Hostnames : Type 0) : Type 0 where
  pub namespace : String
  pub hostnames : Option Hostnames

-- `HostnameGrantStatus`
pub record GrantStatus (Time : Type 0) : Type 0 where
  pub granted_at : Option Time

-- `HostnameGrant`
pub record GrantStruct (Meta Hostnames Time : Type 0) : Type 0 where
  pub type_meta : TypeMeta
  pub object_meta : Meta
  pub spec : GrantSpec Hostnames
  pub status : GrantStatus Time

-- `DomainClaimList`, `GatewayHostnameRequestList` and `HostnameGrantList`
pub record ListStruct (Meta Items : Type 0) : Type 0 where
  pub type_meta : TypeMeta
  pub list_meta : Meta
  pub items : Option Items

-- The types of apimachinery, with their deep copies; `time` is `*metav1.Time`.
pub record MetaTypes (Cell : Type 0) : Type 1 where
  pub object_meta : Linked Cell
  pub list_meta : Linked Cell
  pub label_selector : Linked Cell
  pub condition : Linked Cell
  pub time : Linked Cell

-- How memory holds what `new` and `make` are called for.
pub record Cells {Cell : Type 0} (lib : MetaTypes Cell) : Type 0 where
  pub selector : Stored Cell lib.label_selector.Held
  pub conditions : Stored Cell (List lib.condition.Held)
  pub strings : Stored Cell (List String)
  pub owner_ref : Stored Cell OwnerRef
  pub claim_spec : Stored Cell DomainClaimSpec
  pub claim_status : Stored Cell (ClaimStatus lib.time.Held)
  pub claim : Stored Cell (ClaimStruct lib.object_meta.Held lib.time.Held)
  pub claims : Stored Cell (List (ClaimStruct lib.object_meta.Held lib.time.Held))
  pub request_spec : Stored Cell (SpecStruct ℕ)
  pub request_status : Stored Cell (StatusStruct ℕ)
  pub request : Stored Cell (RequestStruct lib.object_meta.Held ℕ ℕ)
  pub requests : Stored Cell (List (RequestStruct lib.object_meta.Held ℕ ℕ))
  pub grant_spec : Stored Cell (GrantSpec ℕ)
  pub grant_status : Stored Cell (GrantStatus lib.time.Held)
  pub grant : Stored Cell (GrantStruct lib.object_meta.Held ℕ lib.time.Held)
  pub grants : Stored Cell (List (GrantStruct lib.object_meta.Held ℕ lib.time.Held))
  pub item_list : Stored Cell (ListStruct lib.list_meta.Held ℕ)
