-- ===== src/Api/DeepCopy/Objects.antt =====
-- `DeepCopy` of each struct and `DeepCopyObject` of each kind.
use gateway_orchestrator.Prelude.{ℕ, Option, none, some, pure, ◌>>=◌}
use gateway_orchestrator.Api.Claim.{OwnerRef, DomainClaimSpec}
use gateway_orchestrator.Api.DeepCopy.Heap.{Go}
use gateway_orchestrator.Api.DeepCopy.Linked.{Linked}
use gateway_orchestrator.Api.DeepCopy.Pointers.{plain}
use gateway_orchestrator.Api.DeepCopy.Types.{ListStruct, MetaTypes, Cells}
use gateway_orchestrator.Api.DeepCopy.Claims.{deep_copy, claim_status, claim, list_into, list_of}
use gateway_orchestrator.Api.DeepCopy.Requests.{request_spec, request_status, request}
use gateway_orchestrator.Api.DeepCopy.Grants.{grant_spec, grant_status, grant}

-- The kinds of the group, which are the dynamic types of a `runtime.Object` here.
pub data Kind : Type 0 where
  domain_claim : Kind
  domain_claim_list : Kind
  hostname_request : Kind
  hostname_request_list : Kind
  hostname_grant : Kind
  hostname_grant_list : Kind

-- `runtime.Object`: a pointer with its type; the pointer may be nil.
pub record Object : Type 0 where
  pub kind : Kind
  pub address : Option ℕ

-- `if c := in.DeepCopy(); c != nil { return c }; return nil`
abbrev pub as_object : {Cell : Type 0} → Kind → Option ℕ → Go Cell (Option Object)
as_object k none = pure none
as_object k (some p) = pure (some (record { kind = k; address = some p }))

module _ {Cell : Type 0} (lib : MetaTypes Cell) (cells : Cells lib) where
  abbrev pub claim_list_into :
      ListStruct lib.list_meta.Held ℕ → Go Cell (ListStruct lib.list_meta.Held ℕ)
  claim_list_into = list_into lib (claim lib) cells.claims

  abbrev pub claim_list : Linked Cell
  claim_list = record (list_of lib (claim lib) cells.claims) { copy = claim_list_into }

  abbrev pub request_list_into :
      ListStruct lib.list_meta.Held ℕ → Go Cell (ListStruct lib.list_meta.Held ℕ)
  request_list_into = list_into lib (request lib cells) cells.requests

  abbrev pub request_list : Linked Cell
  request_list = record (list_of lib (request lib cells) cells.requests) {
    copy = request_list_into;
  }

  abbrev pub grant_list_into :
      ListStruct lib.list_meta.Held ℕ → Go Cell (ListStruct lib.list_meta.Held ℕ)
  grant_list_into = list_into lib (grant lib cells) cells.grants

  abbrev pub grant_list : Linked Cell
  grant_list = record (list_of lib (grant lib cells) cells.grants) { copy = grant_list_into }

  -- The two structs without pointers: their `DeepCopyInto` is `*out = *in`.
  abbrev pub owner_ref_copy : Option ℕ → Go Cell (Option ℕ)
  owner_ref_copy = deep_copy (plain OwnerRef) cells.owner_ref

  abbrev pub claim_spec_copy : Option ℕ → Go Cell (Option ℕ)
  claim_spec_copy = deep_copy (plain DomainClaimSpec) cells.claim_spec

  abbrev pub claim_status_copy : Option ℕ → Go Cell (Option ℕ)
  claim_status_copy = deep_copy (claim_status lib) cells.claim_status

  abbrev pub claim_copy : Option ℕ → Go Cell (Option ℕ)
  claim_copy = deep_copy (claim lib) cells.claim

  abbrev pub claim_list_copy : Option ℕ → Go Cell (Option ℕ)
  claim_list_copy = deep_copy claim_list cells.item_list

  abbrev pub request_spec_copy : Option ℕ → Go Cell (Option ℕ)
  request_spec_copy = deep_copy (request_spec lib cells) cells.request_spec

  abbrev pub request_status_copy : Option ℕ → Go Cell (Option ℕ)
  request_status_copy = deep_copy (request_status lib cells) cells.request_status

  abbrev pub request_copy : Option ℕ → Go Cell (Option ℕ)
  request_copy = deep_copy (request lib cells) cells.request

  abbrev pub request_list_copy : Option ℕ → Go Cell (Option ℕ)
  request_list_copy = deep_copy request_list cells.item_list

  abbrev pub grant_spec_copy : Option ℕ → Go Cell (Option ℕ)
  grant_spec_copy = deep_copy (grant_spec lib cells) cells.grant_spec

  abbrev pub grant_status_copy : Option ℕ → Go Cell (Option ℕ)
  grant_status_copy = deep_copy (grant_status lib cells) cells.grant_status

  abbrev pub grant_copy : Option ℕ → Go Cell (Option ℕ)
  grant_copy = deep_copy (grant lib cells) cells.grant

  abbrev pub grant_list_copy : Option ℕ → Go Cell (Option ℕ)
  grant_list_copy = deep_copy grant_list cells.item_list

  abbrev pub claim_object : Option ℕ → Go Cell (Option Object)
  claim_object p = claim_copy p >>= as_object domain_claim

  abbrev pub claim_list_object : Option ℕ → Go Cell (Option Object)
  claim_list_object p = claim_list_copy p >>= as_object domain_claim_list

  abbrev pub request_object : Option ℕ → Go Cell (Option Object)
  request_object p = request_copy p >>= as_object hostname_request

  abbrev pub request_list_object : Option ℕ → Go Cell (Option Object)
  request_list_object p = request_list_copy p >>= as_object hostname_request_list

  abbrev pub grant_object : Option ℕ → Go Cell (Option Object)
  grant_object p = grant_copy p >>= as_object hostname_grant

  abbrev pub grant_list_object : Option ℕ → Go Cell (Option Object)
  grant_list_object p = grant_list_copy p >>= as_object hostname_grant_list

  -- The call `obj.DeepCopyObject()` on an interface value.
  unfoldable pub deep_copy_object : Object → Go Cell (Option Object)
  deep_copy_object o = elim (o.kind) [
    | domain_claim ↦ claim_object o.address
    | domain_claim_list ↦ claim_list_object o.address
    | hostname_request ↦ request_object o.address
    | hostname_request_list ↦ request_list_object o.address
    | hostname_grant ↦ grant_object o.address
    | hostname_grant_list ↦ grant_list_object o.address
  ]
