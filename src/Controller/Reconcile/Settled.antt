-- ===== src/Controller/Reconcile/Settled.antt =====
-- A changed spec is cleaned up after once.
use gateway_orchestrator.Prelude.{
  ◌≡◌, refl, ap, ◌∙◌, ok, err, arith, Result-cases, inl, inr, ◌>>◌, raise,
}
use gateway_orchestrator.Services.{normal}
use gateway_orchestrator.Services.Laws.{StatusStore}
use gateway_orchestrator.Controller.Types.{Reconciler, State, again}
use gateway_orchestrator.Controller.Status.{update_status, emit, must}
use gateway_orchestrator.Controller.Drift.{cleanup_for_reprovisioning}
use gateway_orchestrator.Controller.Steps.{cleared, reprovision, detect_spec_drift}

module _ {W : Type 0} (r : Reconciler W) (store : StatusStore r.library r.services) where
  open r use {library as lib, services as sv}

  -- The request as a re-provisioning stores it.
  pub record Restarted (s s' : State W) : Type 0 where
    pub status_cleared : s'.ghr.status ≡ cleared
    pub spec_same : s'.ghr.spec ≡ s.ghr.spec

  -- The status update of a re-provisioning, from the state behind the clean-up.
  update-Restarted :
      (s s' : State W)
      → s'.ghr ≡ record (s.ghr) { status = cleared }
      → (update_status r s').0 ≡ ok tt
      → Restarted s (update_status r s').1
  unfolding update_status
  update-Restarted s s' same h = elim (Result-cases (sv.update_status s'.ghr s'.world).0) [
    | inl (g, e) ↦
        let (status, spec) = store.update_echo s'.ghr s'.world g e in
        rw (update_status, e)
          (record {
            status_cleared = status ∙ ap (λ ghr. ghr.status) same;
            spec_same = spec ∙ ap (λ ghr. ghr.spec) same;
          })
    | inr (x, e) ↦ absurd (cc (rw (update_status, e) at h))
  ]

  -- The state behind the clean-up.
  abbrev behind : State W → State W
  behind s = record {
    ghr = record (s.ghr) { status = cleared };
    world =
        (cleanup_for_reprovisioning r s.ghr (
          sv.event s.ghr normal "SpecChanged" "Spec changed, cleaning up for re-provisioning"
            s.world)).1;
  }

  reprovision_update :
      (s : State W) → reprovision r s ≡ (must (update_status r) >> raise again) (behind s)
  unfolding reprovision emit
  reprovision_update s = refl

  reprovision-Restarted :
      (s : State W) → (reprovision r s).0 ≡ err again → Restarted s (reprovision r s).1
  reprovision-Restarted s h = elim (Result-cases (update_status r (behind s)).0) [
    | inl (_, e) ↦
        let end : (reprovision r s).1 ≡ (update_status r (behind s)).1 =
          ground (arith, reprovision_update s) in
        rw end (update-Restarted s (behind s) refl e)
    | inr (x, e) ↦ absurd (ground (arith, reprovision_update s))
  ]

  no_drift : (t : State W) → t.ghr.status ≡ cleared → detect_spec_drift r t ≡ (ok tt, t)
  unfolding detect_spec_drift
  no_drift t h = ground arith

  drift-Restarted :
      (s : State W) → (detect_spec_drift r s).0 ≡ err again → Restarted s (detect_spec_drift r s).1
  unfolding detect_spec_drift
  drift-Restarted s h = ground (arith, reprovision-Restarted s)

  -- Where a status update that succeeds hands back what was sent: a run that has cleaned up after
  -- a changed spec and asks to be run at once has stored a cleared status beside the spec, and each
  -- later run that begins with that status, whatever has become of the rest of the request
  -- and of the world, goes past the drift check with nothing changed: the clean-up does not repeat
  -- itself.
  pub reprovision_settles :
      (s t : State W)
      → (detect_spec_drift r s).0 ≡ err again
      → t.ghr.status ≡ (detect_spec_drift r s).1.ghr.status
      → Restarted s (detect_spec_drift r s).1 × (detect_spec_drift r t ≡ (ok tt, t))
  reprovision_settles s t h same =
      let restarted = drift-Restarted s h in
      (restarted, no_drift t (same ∙ restarted.status_cleared))
