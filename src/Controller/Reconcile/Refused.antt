-- ===== src/Controller/Reconcile/Refused.antt =====
-- What lies at AWS before the hostname is claimed.
use gateway_orchestrator.Prelude.{◌≡◌, true, ok, ◌>>◌}
use gateway_orchestrator.Services.Laws.{Untouched}
use gateway_orchestrator.Controller.Types.{Reconciler, State, Handler}
use gateway_orchestrator.Controller.Claim.{ensure_domain_claim}
use gateway_orchestrator.Controller.Steps.{
  detect_resource_drift, validate, claim, sync_configuration, mark_ready,
}
use gateway_orchestrator.Controller.Reconcile.{provision}

module _ {W X : Type 0} (r : Reconciler W) (look : W → X) (frame : Untouched r.services look) where
  open r use {library as lib, services as sv}

  -- The state in which the run comes to its claim, behind the drift check and the validation, with
  -- the request that it then claims for.
  abbrev pub at_claim : State W → State W
  at_claim s = (validate r (detect_resource_drift r s).1).1

  -- The run has passed its validation and come to its claim with the part as it was, and has there
  -- been told that the hostname's claim is its request's.
  pub record Won (s : State W) : Type 0 where
    pub valid : (validate r (detect_resource_drift r s).1).0 ≡ ok tt
    pub untouched : look (at_claim s).world ≡ look s.world
    pub answer : (ensure_domain_claim r (at_claim s).ghr (at_claim s).world).0 ≡ ok true

  -- The run from the claim on, and from the validation on.
  abbrev from_claim : Handler W (Unit {0})
  from_claim = claim r >> (provision r >> (sync_configuration r >> mark_ready r))
