-- ===== src/Controller/Footprint/Isolation.antt =====
-- A run for one request and the rest of the world.
use gateway_orchestrator.Prelude.{ok, Result-cases, inl, inr, ◌∙◌, ◌≡◌, String, refl, arith}
use gateway_orchestrator.Api.Meta.{NamespacedName}
use gateway_orchestrator.Api.Request.{Request, RequestSpec}
use gateway_orchestrator.Api.Claim.{DomainClaim, OwnerRef}
use gateway_orchestrator.Services.{Services}
use gateway_orchestrator.Controller.Types.{Reconciler}
use gateway_orchestrator.Controller.Claim.{
  claim_key, create_domain_claim, ensure_domain_claim, ignoring_not_found, delete_domain_claim,
}
use gateway_orchestrator.Controller.Claim.Ownership.{own_ref}
use gateway_orchestrator.Controller.Reconcile.{reconcile}
use gateway_orchestrator.Controller.Footprint.Defs.{Footprint, Part, ClaimCalls, name_of_claim}
use gateway_orchestrator.Controller.Footprint.Whole.{reconcile_holds}

-- Nor does the part hold the claim with the spec's name: a write of that claim leaves it alone. A
-- `Get` answers with the claim that is asked for.
pub record ClaimElsewhere {W X : Type 0} (sv : Services W) (look : W → X) (spec : RequestSpec)
    : Type 0 where
  pub get_claim : (k : NamespacedName) (w : W) → look (sv.claims.get k w).1 ≡ look w
  pub create_claim :
      (c : DomainClaim) (w : W)
      → c.name ≡ name_of_claim spec
      → look (sv.claims.create c w).1 ≡ look w
  pub delete_claim :
      (c : DomainClaim) (w : W)
      → c.name ≡ name_of_claim spec
      → look (sv.claims.delete c w).1 ≡ look w
  pub claim_found :
      (k : NamespacedName) (w : W) (c : DomainClaim)
      → (sv.claims.get k w).0 ≡ ok c
      → c.name ≡ k.name

module _ {W X : Type 0} {spec : RequestSpec} {Own : String → Type 0} (r : Reconciler W)
    (look : W → X) (frame : Footprint r.services look spec Own)
    (elsewhere : ClaimElsewhere r.services look spec) where
  open r use {services as sv}

  create_claim_look :
      (ghr : Request) (w : W) → ghr.spec ≡ spec → look (create_domain_claim r ghr w).1 ≡ look w
  unfolding create_domain_claim
  create_claim_look ghr w h = grind (arith, elsewhere.create_claim)

  ensure_claim_look :
      (ghr : Request) (w : W) → ghr.spec ≡ spec → look (ensure_domain_claim r ghr w).1 ≡ look w
  unfolding ensure_domain_claim
  ensure_claim_look ghr w h = grind (arith, create_claim_look, elsewhere.get_claim)

  delete_claim_look :
      (ghr : Request) (w : W) → ghr.spec ≡ spec → look (delete_domain_claim r ghr w).1 ≡ look w
  unfolding delete_domain_claim ignoring_not_found
  delete_claim_look ghr w h =
      grind (
        arith,
        elsewhere.get_claim,
        elsewhere.delete_claim,
        elsewhere.claim_found (claim_key ghr) w,
      )

  -- The part is what it was.
  abbrev same_as : OwnerRef → X → Part X
  same_as who x = record { who = who; holds = λ v. v ≡ x }

  own_claim_only : (who : OwnerRef) (x : X) → ClaimCalls r look spec (same_as who x)
  own_claim_only who x = record {
    ensure = λ ghr w a p. ensure_claim_look ghr w a.0 ∙ p;
    delete = λ ghr w a p. delete_claim_look ghr w a.0 ∙ p;
  }

  -- A run's claims and DNS records: every `Reconcile` of a key, provisioning or deleting, on every
  -- path and whatever its calls answer, writes of all claims at most the one with the name of the
  -- zone and the hostname of the request of that key, as it is read first, and of all DNS records at
  -- most those in that zone under that hostname or under a name that ACM gives for the validation
  -- of some certificate. It is said of each part of the world, such as another hostname's claim and
  -- alias record, that no such write changes and that no read and no write of any request, status,
  -- gateway, configuration, namespace, event or certificate changes: these writes are not limited
  -- here. A lookup of a claim is supposed to answer with the claim of that name, and an update of
  -- the request with the spec and the identity that were sent.
  pub reconcile_isolated :
      (key : NamespacedName) (w : W)
      → ((g : Request) → (sv.requests.get key w).0 ≡ ok g → g.spec ≡ spec)
      → look (reconcile r key w).1 ≡ look w
  unfolding reconcile
  reconcile_isolated key w h = elim (Result-cases (sv.requests.get key w).0) [
    | inr (e, x) ↦ rw (reconcile, x) (frame.get_request key w)
    | inl (g, x) ↦
        reconcile_holds r look frame (same_as (own_ref g) (look w)) (own_claim_only _ _) key w
          (λ g' x'. let same : g' ≡ g = cc in (h g' x', rw same refl)) refl
  ]
