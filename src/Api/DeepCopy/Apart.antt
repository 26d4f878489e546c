-- ===== src/Api/DeepCopy/Apart.antt =====
-- Objects and their deep copies share no memory.
use gateway_orchestrator.Prelude.{◌≡◌, ℕ, ◌≤◌, Option, none, some, ok}
use gateway_orchestrator.Api.DeepCopy.Heap.{Heap, Stored}
use gateway_orchestrator.Api.DeepCopy.Linked.{Linked, Agree}
use gateway_orchestrator.Api.DeepCopy.Pointers.{nilable}
use gateway_orchestrator.Api.DeepCopy.Behind.{behind}
use gateway_orchestrator.Api.DeepCopy.Types.{MetaTypes, Cells}
use gateway_orchestrator.Api.DeepCopy.Claims.{claim}
use gateway_orchestrator.Api.DeepCopy.Requests.{request}
use gateway_orchestrator.Api.DeepCopy.Grants.{grant}
use gateway_orchestrator.Api.DeepCopy.Objects.{
  Kind, domain_claim, domain_claim_list, hostname_request, hostname_request_list, hostname_grant,
  hostname_grant_list, Object, claim_list, request_list, grant_list, as_object,
}

module _ {Cell : Type 0} (lib : MetaTypes Cell) (cells : Cells lib) where
  -- The struct of each kind, and its cells.
  abbrev pub struct_of : Kind → Linked Cell
  struct_of domain_claim = claim lib
  struct_of domain_claim_list = claim_list lib cells
  struct_of hostname_request = request lib cells
  struct_of hostname_request_list = request_list lib cells
  struct_of hostname_grant = grant lib cells
  struct_of hostname_grant_list = grant_list lib cells

  abbrev pub cells_of : (k : Kind) → Stored Cell ((struct_of k).Held)
  cells_of domain_claim = cells.claim
  cells_of domain_claim_list = cells.item_list
  cells_of hostname_request = cells.request
  cells_of hostname_request_list = cells.item_list
  cells_of hostname_grant = cells.grant
  cells_of hostname_grant_list = cells.item_list

  -- A pointer of the kind, which may be nil.
  abbrev pub pointer : Kind → Linked Cell
  pointer k = nilable (behind (struct_of k) (cells_of k))

  -- The result of a deep copy of an object that reads as v. It is an object of the same kind at the
  -- address `copy`, or nil for nil; the memory that was there is as it was; the copy reads as v through
  -- new addresses alone. So, in any later memory, the original still reads as v where nothing was
  -- written at the old addresses, and the copy does where nothing was written at the new ones.
  pub record CopiedApart (o : Object) (v : (pointer o.kind).Seen) (h : Heap Cell)
      (c : Option Object) (h' : Heap Cell) : Type 0 where
    pub copy : Option ℕ
    pub object : as_object o.kind copy h' ≡ (ok c, h')
    pub grows : h.next ≤ h'.next
    pub kept : Agree 0 h.next h' h
    pub original_safe :
        (g : Heap Cell) → Agree 0 h.next g h' → (pointer o.kind).Reads 0 h.next g o.address v
    pub copy_safe :
        (g : Heap Cell) → Agree h.next h'.next g h' → (pointer o.kind).Reads h.next h'.next g copy v

  wrap_object : Kind → Option ℕ → Option Object
  wrap_object k none = none
  wrap_object k (some p) = some (record { kind = k; address = some p })
