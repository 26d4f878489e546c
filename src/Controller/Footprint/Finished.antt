-- ===== src/Controller/Footprint/Finished.antt =====
-- A run of `reconcileNormal` that comes to its end owns the hostname's claim.
use gateway_orchestrator.Prelude.{◌≡◌, ok, String, Bool, true, false, if◌then◌else◌, refl}
use gateway_orchestrator.Prelude.Triple.{
  Triple, Triple-bind, Triple-try, Triple-of_Keeps, Keeps-bind,
}
use gateway_orchestrator.Api.Request.{Request, RequestSpec}
use gateway_orchestrator.Api.Claim.{OwnerRef}
use gateway_orchestrator.Prelude.{some}
use gateway_orchestrator.Services.Laws.{ClaimStore}
use gateway_orchestrator.Controller.Types.{Reconciler, State, call}
use gateway_orchestrator.Controller.Claim.{ensure_domain_claim, claim_name}
use gateway_orchestrator.Controller.Claim.Moves.{Table}
use gateway_orchestrator.Controller.Claim.Ownership.{own_ref, ensure_domain_claim-Answered}
use gateway_orchestrator.Controller.Status.{reject, set_condition, emit, try_update_status}
use gateway_orchestrator.Controller.Steps.{claim, win_claim, lose_claim}
use gateway_orchestrator.Controller.Reconcile.{reconcile_normal}
use gateway_orchestrator.Controller.Footprint.Defs.{
  Footprint, Part, Apart, ClaimCalls, Asks, name_of_claim,
}
use gateway_orchestrator.Controller.Footprint.Claiming.{win_claim-Apart, validate-Apart}
use gateway_orchestrator.Controller.Footprint.Drifting.{spec_drift-Apart, resource_drift-Apart}
use gateway_orchestrator.Controller.Footprint.Stepping.{
  provision-Apart, configuration-Apart, ready-Apart,
}

module _ {W : Type 0} {spec : RequestSpec} {Own : String → Type 0} (r : Reconciler W)
    (store : ClaimStore r.library r.services) (frame : Footprint r.services store.owner spec Own)
    (who : OwnerRef) where
  open r use {services as sv}
  open store use {owner}

  -- Nothing is followed but the request.
  abbrev anything : Part Table
  anything = record { who = who; holds = λ t. Unit {0} }

  -- The claim is the request's.
  abbrev owned : Part Table
  owned = record { who = who; holds = λ t. t (name_of_claim spec) ≡ some who }

  abbrev Before : State W → Type 0
  Before = Apart owner spec anything

  abbrev After : State W → Type 0
  After = Apart owner spec owned

  anything-ClaimCalls : ClaimCalls r owner spec anything
  anything-ClaimCalls = record { ensure = λ ghr w a p. tt; delete = λ ghr w a p. tt }

  named_alike :
      (ghr : Request) (w : W)
      → Asks spec who ghr
      → owner w (claim_name ghr) ≡ some (own_ref ghr)
      → owner w (name_of_claim spec) ≡ some who
  named_alike ghr w a h = rw (a.0, a.1) at h

  ensured :
      Triple Before
        (call (ensure_domain_claim r))
        (λ claimed s. Before s × (claimed ≡ true → After s))
  ensured = record {
    at = λ s p claimed h. (
      record { world_same = tt; asks = p.asks },
      λ won.
          let answer = ensure_domain_claim-Answered r store s.ghr s.world in
          let mine = (rw (h, won) at answer).1 in
          record { world_same = named_alike s.ghr _ p.asks mine; asks = p.asks },
    );
  }

  decided :
      (claimed : Bool)
      → Triple
          (λ s. Before s × (claimed ≡ true → After s))
          (if claimed then win_claim r else lose_claim r)
          (λ a s. After s)
  unfolding lose_claim set_condition try_update_status emit
  decided true = record { at = λ s p a h. (win_claim-Apart r owner frame owned).at s (p.1 refl) }
  decided false = record { at = λ s p a h. absurd (cc) }

  claim-After : Triple Before (claim r) (λ a s. After s)
  unfolding claim reject
  claim-After =
      Triple-try (call (ensure_domain_claim r)) _ _ ensured decided
        (λ e. record { at = λ s p a h. absurd (cc) })

  normal-After : Triple Before (reconcile_normal r) (λ a s. After s)
  unfolding reconcile_normal
  normal-After =
      Triple-bind _ _
        (Triple-of_Keeps _ (spec_drift-Apart r owner frame anything anything-ClaimCalls))
        (λ _.
          Triple-bind _ _ (Triple-of_Keeps _ (resource_drift-Apart r owner frame anything)) (λ _.
            Triple-bind _ _ (Triple-of_Keeps _ (validate-Apart r owner frame anything)) (λ _.
              Triple-bind _ _ claim-After (λ _. Triple-of_Keeps _ (
                Keeps-bind _ _ (provision-Apart r owner frame owned) (λ _.
                  Keeps-bind _ _ (configuration-Apart r owner frame owned)
                    (λ _. ready-Apart r owner frame owned)))))))

  -- Where a run of `reconcileNormal` comes to its end, the claim of its hostname is its own.
  pub finished-owner :
      (s : State W)
      → Asks spec who s.ghr
      → (reconcile_normal r s).0 ≡ ok tt
      → owner (reconcile_normal r s).1.world (name_of_claim spec) ≡ some who
  finished-owner s a h = (normal-After.at s (record { world_same = tt; asks = a }) tt h).world_same
