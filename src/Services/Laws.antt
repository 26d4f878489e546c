-- ===== src/Services/Laws.antt =====
-- What the controller relies on of the Kubernetes API and its libraries, as far as theorems use it.
-- Each call is one atomic step of the API server.
use gateway_orchestrator.Prelude.{◌≡◌, ◌≢◌, String, true, false, Option, none, some, List, ok, err}
use gateway_orchestrator.Api.Meta.{Error, NamespacedName, Condition}
use gateway_orchestrator.Api.Request.{Request}
use gateway_orchestrator.Api.Claim.{DomainClaim, OwnerRef}
use gateway_orchestrator.Api.Cluster.{Gateway, LbConfig}
use gateway_orchestrator.Services.Types.{Services, Library, EventType}

-- The claims as a store: `owner w n` is the owner of the claim named n in the world w. A `Get`
-- changes nothing, `Create` fails where the name is taken, and a call that fails leaves the claims
-- alone. A theorem on one call holds after whatever others have done; one on a sequence of calls
-- supposes that no other client writes claims between them.
pub record ClaimStore {W : Type 0} (lib : Library) (sv : Services W) : Type 0 where
  pub owner : W → String → Option OwnerRef
  pub get_same : (k : NamespacedName) (w : W) → owner (sv.claims.get k w).1 ≡ owner w
  pub get_found :
      (k : NamespacedName) (w : W) (c : DomainClaim)
      → (sv.claims.get k w).0 ≡ ok c
      → (c.name ≡ k.name) × (owner w k.name ≡ some c.spec.owner_ref)
  pub get_missing :
      (k : NamespacedName) (w : W) (e : Error)
      → (sv.claims.get k w).0 ≡ err e
      → lib.is_not_found e ≡ true
      → owner w k.name ≡ none
  pub create_done :
      (c : DomainClaim) (w : W)
      → (sv.claims.create c w).0 ≡ ok tt
      → (owner w c.name ≡ none) × (owner (sv.claims.create c w).1 c.name ≡ some c.spec.owner_ref)
  pub create_failed :
      (c : DomainClaim) (w : W) (e : Error)
      → (sv.claims.create c w).0 ≡ err e
      → owner (sv.claims.create c w).1 ≡ owner w
  pub create_exists :
      (c : DomainClaim) (w : W) (e : Error)
      → (sv.claims.create c w).0 ≡ err e
      → lib.is_already_exists e ≡ true
      → owner w c.name ≢ none
  pub create_others :
      (c : DomainClaim) (w : W) (n : String)
      → n ≢ c.name
      → owner (sv.claims.create c w).1 n ≡ owner w n
  pub delete_done :
      (c : DomainClaim) (w : W)
      → (sv.claims.delete c w).0 ≡ ok tt
      → owner (sv.claims.delete c w).1 c.name ≡ none
  pub delete_failed :
      (c : DomainClaim) (w : W) (e : Error)
      → (sv.claims.delete c w).0 ≡ err e
      → owner (sv.claims.delete c w).1 ≡ owner w
  pub delete_missing :
      (c : DomainClaim) (w : W) (e : Error)
      → (sv.claims.delete c w).0 ≡ err e
      → lib.ignore_not_found e ≡ none
      → owner w c.name ≡ none
  pub delete_others :
      (c : DomainClaim) (w : W) (n : String)
      → n ≢ c.name
      → owner (sv.claims.delete c w).1 n ≡ owner w n

-- The conditions of a request: setting one to True makes it true and leaves the other types; a
-- status update that succeeds hands back the spec and the status that were sent.
pub record StatusStore {W : Type 0} (lib : Library) (sv : Services W) : Type 0 where
  pub set_true :
      (cs : List Condition) (c : Condition)
      → c.status ≡ "True"
      → lib.is_status_condition_true (lib.set_status_condition cs c) c.type ≡ true
  pub set_others :
      (cs : List Condition) (c : Condition) (t : String)
      → t ≢ c.type
      → lib.is_status_condition_true (lib.set_status_condition cs c) t
        ≡ lib.is_status_condition_true cs t
  pub update_echo :
      (g : Request) (w : W) (g' : Request)
      → (sv.update_status g w).0 ≡ ok g'
      → (g'.status ≡ g.status) × (g'.spec ≡ g.spec)

-- A condition that is set is found under its type, with the reason that it was given.
pub record ConditionLookup (lib : Library) : Type 0 where
  pub find_set :
      (cs : List Condition) (c : Condition)
      → (d : Condition) × (lib.find_status_condition (lib.set_status_condition cs c) c.type
          ≡ some d)
        × (d.reason ≡ c.reason)

-- A condition that is removed is true no more, and a removal makes none true.
pub record ConditionRemoval (lib : Library) : Type 0 where
  pub removed :
      (cs : List Condition) (t : String)
      → lib.is_status_condition_true (lib.remove_status_condition cs t) t ≡ false
  pub still_false :
      (cs : List Condition) (t u : String)
      → lib.is_status_condition_true cs u ≡ false
      → lib.is_status_condition_true (lib.remove_status_condition cs t) u ≡ false

-- A part of the world that these calls leave alone, whatever they answer: the reads, the writes of
-- claims and of a request's status, the events, and the deletion of a gateway and of its
-- configuration. The records and certificates at AWS are such a part.
pub record Untouched {W X : Type 0} (sv : Services W) (look : W → X) : Type 0 where
  pub list_requests : (w : W) → look (sv.list_requests w).1 ≡ look w
  pub update_status : (g : Request) (w : W) → look (sv.update_status g w).1 ≡ look w
  pub event :
      (g : Request) (t : EventType) (reason message : String) (w : W)
      → look (sv.event g t reason message w) ≡ look w
  pub get_claim : (k : NamespacedName) (w : W) → look (sv.claims.get k w).1 ≡ look w
  pub create_claim : (c : DomainClaim) (w : W) → look (sv.claims.create c w).1 ≡ look w
  pub get_config : (k : NamespacedName) (w : W) → look (sv.configs.get k w).1 ≡ look w
  pub delete_config : (c : LbConfig) (w : W) → look (sv.configs.delete c w).1 ≡ look w
  pub get_gateway : (k : NamespacedName) (w : W) → look (sv.gateways.get k w).1 ≡ look w
  pub delete_gateway : (g : Gateway) (w : W) → look (sv.gateways.delete g w).1 ≡ look w
  pub describe : (arn : String) (w : W) → look (sv.acm.describe_certificate arn w).1 ≡ look w

-- The finalizers of a request: one that is removed is gone, and an update that succeeds hands back
-- the finalizers that were sent.
pub record FinalizerStore {W : Type 0} (lib : Library) (sv : Services W) : Type 0 where
  pub removed :
      (fs : List String) (f : String) → lib.contains_finalizer (lib.remove_finalizer fs f) f ≡ false
  pub request_echo :
      (g : Request) (w : W) (g' : Request)
      → (sv.requests.update g w).0 ≡ ok g'
      → g'.meta.finalizers ≡ g.meta.finalizers

-- A part of the world that the calls of a deletion's end leave alone: those on requests, gateways
-- and configurations. The claims are such a part.
pub record Spared {W X : Type 0} (sv : Services W) (look : W → X) : Type 0 where
  pub list_requests : (w : W) → look (sv.list_requests w).1 ≡ look w
  pub get_request : (k : NamespacedName) (w : W) → look (sv.requests.get k w).1 ≡ look w
  pub update_request : (g : Request) (w : W) → look (sv.requests.update g w).1 ≡ look w
  pub get_config : (k : NamespacedName) (w : W) → look (sv.configs.get k w).1 ≡ look w
  pub delete_config : (c : LbConfig) (w : W) → look (sv.configs.delete c w).1 ≡ look w
  pub get_gateway : (k : NamespacedName) (w : W) → look (sv.gateways.get k w).1 ≡ look w
  pub delete_gateway : (g : Gateway) (w : W) → look (sv.gateways.delete g w).1 ≡ look w
