-- ===== src/Controller/Reconcile/Edited.antt =====
-- A provisioned request whose spec is edited.
use gateway_orchestrator.Prelude.{◌≡◌, refl, sym, ap, ◌∙◌, ok, arith, ==_refl}
use gateway_orchestrator.Api.Request.{RequestSpec}
use gateway_orchestrator.Services.{Library}
use gateway_orchestrator.Services.Laws.{StatusStore}
use gateway_orchestrator.Controller.Types.{Reconciler, State}
use gateway_orchestrator.Controller.Status.{compute_spec_hash}
use gateway_orchestrator.Controller.Steps.{detect_spec_drift}
use gateway_orchestrator.Controller.Reconcile.{reconcile_normal}
use gateway_orchestrator.Controller.Reconcile.Ready.{reconcile_normal-Provisioned}

-- The specs agree in the fields that the hash is of.
pub record SameHashed (a b : RequestSpec) : Type 0 where
  pub hostname : a.hostname ≡ b.hostname
  pub zone_id : a.zone_id ≡ b.zone_id
  pub visibility : a.visibility ≡ b.visibility
  pub gateway_class : a.gateway_class ≡ b.gateway_class

hash-SameHashed :
    (lib : Library) (a b : RequestSpec)
    → SameHashed a b
    → compute_spec_hash lib a ≡ compute_spec_hash lib b
unfolding compute_spec_hash
hash-SameHashed lib a b same =
    rw (same.hostname, same.zone_id, same.visibility, same.gateway_class) refl

module _ {W : Type 0} (r : Reconciler W) (store : StatusStore r.library r.services) where
  open r use {library as lib}

  fresh_no_drift :
      (t : State W)
      → t.ghr.status.observed_spec_hash ≡ compute_spec_hash lib t.ghr.spec
      → detect_spec_drift r t ≡ (ok tt, t)
  unfolding detect_spec_drift
  fresh_no_drift t h = ground (arith, ==_refl (compute_spec_hash lib t.ghr.spec))

  -- Once a run of `reconcileNormal` has come to its end, an edit of the spec's environment, WAF or
  -- gateway selector is no drift: each later run that begins with the status which that run has left,
  -- and with a spec of the same hostname, zone, visibility and gateway class, goes past
  -- the drift check with nothing changed.
  pub edit_tolerated :
      (s t : State W)
      → (reconcile_normal r s).0 ≡ ok tt
      → t.ghr.status ≡ (reconcile_normal r s).1.ghr.status
      → SameHashed t.ghr.spec (reconcile_normal r s).1.ghr.spec
      → detect_spec_drift r t ≡ (ok tt, t)
  edit_tolerated s t done same_status same_spec =
      let (provisioned, _) = reconcile_normal-Provisioned r store s done in
      fresh_no_drift t (
        ap (λ st. st.observed_spec_hash) same_status
        ∙ provisioned.hash
        ∙ sym (hash-SameHashed lib _ _ same_spec))
