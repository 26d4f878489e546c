-- ===== src/Tests/Store.antt =====
-- The claims of the world in memory keep the laws that the controller relies on.
use gateway_orchestrator.Prelude.{
  ◌≡◌, refl, String, true, false, ◌≢◌, ==_refl, Option, none, some, List, [], ◌∷◌, ok, arith, ◌==◌,
  if◌then◌else◌, Option-cases, inl, inr,
}
use gateway_orchestrator.Api.Meta.{NamespacedName, Condition}
use gateway_orchestrator.Api.Claim.{DomainClaim, OwnerRef}
use gateway_orchestrator.Services.Laws.{
  ClaimStore, StatusStore, Untouched, FinalizerStore, ConditionRemoval, ConditionLookup,
}
use gateway_orchestrator.Aws.Mock.{MockRoute53Client}
use gateway_orchestrator.Tests.Memory.{World, named, without, lib, server}

abbrev pub claim_named : String → List DomainClaim → Option DomainClaim
claim_named = named (λ c. c.name)

abbrev pub owner_of : Option DomainClaim → Option OwnerRef
owner_of none = none
owner_of (some c) = some c.spec.owner_ref

abbrev pub owner_in : World → String → Option OwnerRef
owner_in w n = owner_of (claim_named n w.claims)

pub named-name :
    (n : String) (l : List DomainClaim) (c : DomainClaim) → claim_named n l ≡ some c → c.name ≡ n
unfolding named
named-name n [] c h = cc
named-name n (x ∷ l) c h = ground (arith, named-name n l c)

pub named-without :
    {O : Type 0} (name_of : O → String) (n m : String) (l : List O)
    → named name_of n (without name_of m l) ≡ (if m == n then none else named name_of n l)
unfolding named without
named-without name_of n m [] = ground arith
named-without name_of n m (x ∷ l) = ground (arith, named-without name_of n m l)

pub named-cons :
    (n : String) (c : DomainClaim) (l : List DomainClaim)
    → claim_named n (c ∷ l) ≡ (if c.name == n then some c else claim_named n l)
unfolding named
named-cons n c l = refl

pub get_found :
    (k : NamespacedName) (w : World) (c : DomainClaim)
    → (server.claims.get k w).0 ≡ ok c
    → (c.name ≡ k.name) × (owner_in w k.name ≡ some c.spec.owner_ref)
get_found k w c h = elim (Option-cases (claim_named k.name w.claims)) [
  | inl e ↦ absurd (ground arith)
  | inr (d, e) ↦ (ground (arith, named-name k.name w.claims d e), ground arith)
]

abbrev pub claim_store : ClaimStore lib server
claim_store = record {
  owner = owner_in;
  get_same = λ k w. ground arith;
  get_found = get_found;
  get_missing = λ k w e h x. ground arith;
  create_done = λ c w h. ground (arith, named-cons c.name c w.claims);
  create_failed = λ c w e h. ground arith;
  create_exists = λ c w e h x. ground arith;
  create_others = λ c w n h. ground (arith, named-cons n c w.claims);
  delete_done = λ c w h. ground (arith, named-without (λ d. d.name) c.name c.name w.claims);
  delete_failed = λ c w e h. ground arith;
  delete_missing = λ c w e h x. ground arith;
  delete_others = λ c w n h. ground (arith, named-without (λ d. d.name) n c.name w.claims);
}

abbrev pub type_of : Condition → String
type_of c = c.type

pub set_true :
    (cs : List Condition) (c : Condition)
    → c.status ≡ "True"
    → lib.is_status_condition_true (lib.set_status_condition cs c) c.type ≡ true
unfolding named
set_true cs c h = ground (arith, ==_refl c.type)

pub set_others :
    (cs : List Condition) (c : Condition) (t : String)
    → t ≢ c.type
    → lib.is_status_condition_true (lib.set_status_condition cs c) t
      ≡ lib.is_status_condition_true cs t
unfolding named
set_others cs c t h = ground (arith, named-without type_of t c.type cs)

abbrev pub status_store : StatusStore lib server
status_store = record {
  set_true = set_true;
  set_others = set_others;
  update_echo = λ g w g' h. ground arith;
}

-- The records of the world in memory.
abbrev pub records_of : World → MockRoute53Client
records_of w = w.route53

abbrev pub untouched_records : Untouched server records_of
untouched_records = record {
  list_requests = λ w. refl;
  update_status = λ g w. ground arith;
  event = λ g t reason message w. refl;
  get_claim = λ k w. ground arith;
  create_claim = λ c w. ground arith;
  get_config = λ k w. ground arith;
  delete_config = λ c w. ground arith;
  get_gateway = λ k w. ground arith;
  delete_gateway = λ g w. ground arith;
  describe = λ arn w. ground arith;
}

pub removed_lem :
    (fs : List String) (f : String) → lib.contains_finalizer (lib.remove_finalizer fs f) f ≡ false
removed_lem fs f = ground (arith, named-without (λ x. x) f f fs, ==_refl f)

abbrev pub finalizer_store : FinalizerStore lib server
finalizer_store = record { removed = removed_lem; request_echo = λ g w g' h. ground arith }

abbrev pub condition_removal : ConditionRemoval lib
unfolding named
condition_removal = record {
  removed = λ cs t. ground (arith, named-without type_of t t cs, ==_refl t);
  still_false = λ cs t u h. ground (arith, named-without type_of u t cs);
}

pub find_set :
    (cs : List Condition) (c : Condition)
    → (d : Condition) × (lib.find_status_condition (lib.set_status_condition cs c) c.type ≡ some d)
      × (d.reason ≡ c.reason)
unfolding named
find_set cs c = (c, ground (arith, ==_refl c.type), refl)

abbrev pub condition_lookup : ConditionLookup lib
condition_lookup = record { find_set = find_set }
