-- ===== src/Controller/Reconcile.antt =====
-- internal/controller/gatewayhostnamerequest_controller.go: Reconcile and reconcileNormal.
pub mod Holding
pub mod Ready
pub mod Refused
pub mod Settled
pub mod Unassigned
pub mod Heals
pub mod Edited
use gateway_orchestrator.Prelude.{
  true, false, none, some, Result, ok, err, ◌>>=◌, ◌>>◌, pure, gets, if◌then◌else◌,
}
use gateway_orchestrator.Api.Meta.{NamespacedName}
use gateway_orchestrator.Controller.Types.{
  Reconciler, Handler, Outcome, done, finalizer_name, type_dns_validated, type_certificate_issued,
  type_listener_attached, type_dns_alias_ready,
}
use gateway_orchestrator.Controller.Status.{must}
use gateway_orchestrator.Controller.Steps.{
  detect_spec_drift, detect_resource_drift, validate, claim, ensure_certificate, unless,
  write_validation_records, await_issuance, attach, publish, sync_configuration, mark_ready,
}
use gateway_orchestrator.Controller.Delete.{change_finalizers, update_request, reconcile_delete}

-- A handler that runs to its end returns `ctrl.Result{}, nil`.
abbrev pub outcome_of : {A : Type 0} → Result Outcome A → Outcome
outcome_of (ok _) = done
outcome_of (err o) = o

module _ {W : Type 0} (r : Reconciler W) where
  open r use {library as lib, services as sv}

  -- Steps 3 to 7.
  unfoldable pub provision : Handler W (Unit {0})
  provision = do
    ensure_certificate r
    unless r type_dns_validated (write_validation_records r)
    unless r type_certificate_issued (await_issuance r)
    unless r type_listener_attached (attach r)
    unless r type_dns_alias_ready (publish r)

  -- `reconcileNormal`
  unfoldable pub reconcile_normal : Handler W (Unit {0})
  unfolding provision
  reconcile_normal = do
    detect_spec_drift r
    detect_resource_drift r
    validate r
    claim r
    provision
    sync_configuration r
    mark_ready r

  unfoldable pub ensure_finalizer : Handler W (Unit {0})
  ensure_finalizer = do
    present ← gets (λ s. lib.contains_finalizer s.ghr.meta.finalizers finalizer_name)
    if present then pure tt else must (change_finalizers r true >> update_request r)

  -- `Reconcile` behind its `Get`.
  unfoldable pub reconcile_request : Handler W (Unit {0})
  unfolding ensure_finalizer reconcile_normal
  reconcile_request = do
    deleted ← gets (λ s. s.ghr.meta.deletion_timestamp)
    elim deleted [ some _ ↦ reconcile_delete r | none ↦ do ensure_finalizer; reconcile_normal ]

  -- `Reconcile`
  unfoldable pub reconcile : NamespacedName → W → Outcome × W
  unfolding reconcile_request
  reconcile key w =
      let (found, w') = sv.requests.get key w in
      elim found [
        | err e ↦
            (record { requeue = false; requeue_after = 0; error = lib.ignore_not_found e }, w')
        | ok ghr ↦
            let (result, s) = reconcile_request (record { ghr = ghr; world = w' }) in
            (outcome_of result, s.world)
      ]
