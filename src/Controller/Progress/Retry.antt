-- ===== src/Controller/Progress/Retry.antt =====
-- A run that stops before its end is run again, or has lost its hostname.
use gateway_orchestrator.Prelude.{
  ◌≡◌, ◌⊎◌, inl, inr, false, Result-cases, Bool-cases, ok, err, refl, ◌>>◌,
}
use gateway_orchestrator.Prelude.Stopping.{Stops, StopsAt, StopsAt-bind, Stops-bind}
use gateway_orchestrator.Controller.Types.{Reconciler, State, Outcome, Handler, done, type_claimed}
use gateway_orchestrator.Controller.Status.{set_condition, try_update_status, emit}
use gateway_orchestrator.Controller.Claim.{ensure_domain_claim}
use gateway_orchestrator.Controller.Steps.{
  detect_spec_drift, detect_resource_drift, validate, claim, lose_claim, sync_configuration,
  mark_ready,
}
use gateway_orchestrator.Controller.Delete.{reconcile_delete}
use gateway_orchestrator.Controller.Reconcile.{provision, reconcile_normal}
use gateway_orchestrator.Controller.Progress.Defs.{Retried, reject-Retried}
use gateway_orchestrator.Controller.Progress.Stepping.{
  spec_drift-Retried, resource_drift-Retried, validate-Retried, win_claim-Retried,
  provision-Retried, configuration-Retried, ready-Retried,
}
use gateway_orchestrator.Controller.Progress.Deleting.{delete-Retried}

module _ {W : Type 0} (r : Reconciler W) where
  open r use {library as lib}

  -- The claim's answer in this state is that the hostname belongs to another request.
  abbrev pub LostAt : State W → Type 0
  LostAt s = (ensure_domain_claim r s.ghr s.world).0 ≡ ok false

  -- The run stops for good with a lost claim only.
  abbrev pub RetriedOrLost : State W → Outcome → Type 0
  RetriedOrLost s o = Retried o ⊎ ((o ≡ done) × LostAt s)

  lose_claim-done : (s : State W) → (lose_claim r s).0 ≡ err done
  unfolding lose_claim set_condition try_update_status emit
  lose_claim-done s = refl

  claim-Stops : (s : State W) → StopsAt (RetriedOrLost s) (claim r) s
  unfolding claim ensure_domain_claim
  claim-Stops s o h =
      let s' : State W = record s { world = (ensure_domain_claim r s.ghr s.world).1 } in
      elim (Result-cases (ensure_domain_claim r s.ghr s.world).0) [
        | inr (e, x) ↦ inl (
            (reject-Retried r type_claimed "ClaimFailed" "ClaimFailed" "Failed to claim domain: "
                e).at
              s' o (rw (claim, x) at h))
        | inl (b, x) ↦ elim (Bool-cases b) [
          | inl won ↦ inl ((win_claim-Retried r).at s' o (rw (claim, x, won) at h))
          | inr lost ↦
              let stopped : (lose_claim r s').0 ≡ err o = rw (claim, x, lost) at h in
              inr (cc (stopped, lose_claim-done s'), cc (x, lost))
        ]
      ]

  -- The state in which a run asks for its hostname.
  abbrev pub claimant : State W → State W
  claimant s = (validate r (detect_resource_drift r (detect_spec_drift r s).1).1).1

  -- The rest of the run, from each of its first steps on.
  abbrev after_claim : Handler W (Unit {0})
  after_claim = provision r >> (sync_configuration r >> mark_ready r)

  abbrev from_validation : Handler W (Unit {0})
  from_validation = validate r >> (claim r >> after_claim)

  after_claim-Retried : Stops Retried after_claim
  after_claim-Retried =
      Stops-bind _ _ (provision-Retried r)
        (λ _. Stops-bind _ _ (configuration-Retried r) (λ _. ready-Retried r))

  -- A run of `reconcileNormal` that does not come to its end, the mark Ready, is run again by
  -- controller-runtime: it returns an error, asks to be run at once, or asks to be run after a
  -- positive delay. The only other way to stop is a lost claim, and then the run returns
  -- `ctrl.Result{}, nil` for good: the lookup of the hostname's claim, after the drift checks and
  -- the validation, has answered that it belongs to another request.
  pub reconcile_normal-Retried :
      (s : State W) (o : Outcome)
      → (reconcile_normal r s).0 ≡ err o
      → Retried o ⊎ ((o ≡ done) × LostAt (claimant s))
  unfolding reconcile_normal
  reconcile_normal-Retried s =
      let observed = (detect_spec_drift r s).1 in
      let repaired = (detect_resource_drift r observed).1 in
      let asked = (claim r (claimant s)).1 in
      StopsAt-bind (detect_spec_drift r) (λ _. detect_resource_drift r >> from_validation) s
        (soon (spec_drift-Retried r) s)
        (λ _ _.
          StopsAt-bind (detect_resource_drift r) (λ _. from_validation) observed
            (soon (resource_drift-Retried r) observed)
            (λ _ _.
              StopsAt-bind (validate r) (λ _. claim r >> after_claim) repaired
                (soon (validate-Retried r) repaired)
                (λ _ _.
                  StopsAt-bind (claim r) (λ _. after_claim) (claimant s) (claim-Stops (claimant s))
                    (λ _ _. soon after_claim-Retried asked))))
    where
      soon :
          {A : Type 0} {m : Handler W A} (t : Stops Retried m) (s' : State W)
          → StopsAt (RetriedOrLost (claimant s)) m s'
      soon t s' o h = inl (t.at s' o h)

  -- A run of `reconcileDelete` that does not come to its end, where the request is let go or is not
  -- the controller's, is run again: no path of the deletion stops for good.
  pub reconcile_delete-Retried :
      (s : State W) (o : Outcome) → (reconcile_delete r s).0 ≡ err o → Retried o
  reconcile_delete-Retried s = (delete-Retried r).at s
