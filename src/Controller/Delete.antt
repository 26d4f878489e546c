-- ===== src/Controller/Delete.antt =====
-- internal/controller/gatewayhostnamerequest_controller.go: reconcileDelete and its phases.
pub mod Waiting
pub mod Finished
pub mod LetGo
pub mod SecondPhase
use gateway_orchestrator.Prelude.{
  String, Bool, false, not, ◌&&◌, Option, none, some, Exec, Result, ok, err, ◌>>=◌, ◌>>◌, pure,
  raise, attempt, gets, ◌==◌, if◌then◌else◌,
}
use gateway_orchestrator.Api.Meta.{Error, Condition}
use gateway_orchestrator.Api.Request.{Request, key_of}
use gateway_orchestrator.Controller.Types.{
  Reconciler, Action, Handler, Outcome, after, call, finalizer_name, type_deleting,
}
use gateway_orchestrator.Controller.Status.{set_condition, try_update_status, must}
use gateway_orchestrator.Controller.Claim.{delete_domain_claim}
use gateway_orchestrator.Controller.Certificate.{is_certificate_in_use}
use gateway_orchestrator.Controller.Cleanup.{cleanup_empty_gateway, is_gateway_empty}
use gateway_orchestrator.Controller.Drift.{clean_up, discard_certificate}

-- The reason that puts a deletion into its second phase.
abbrev pub waiting_reason : String
waiting_reason = "WaitingForCertDetachment"

-- A test that may fail: an error is no yes.
abbrev pub said_yes : Result Error Bool → Bool
said_yes (ok b) = b
said_yes (err _) = false

module _ {W : Type 0} (r : Reconciler W) where
  open r use {library as lib, services as sv}

  -- `r.Get(ctx, client.ObjectKeyFromObject(ghr), ghr)`
  unfoldable pub refetch : Action W (Unit {0})
  refetch s =
      let (result, w) = sv.requests.get (key_of s.ghr) s.world in
      elim result [
        | ok g ↦ (ok tt, record { ghr = g; world = w })
        | err e ↦ (err e, record s { world = w })
      ]

  -- `r.Update(ctx, ghr)`
  unfoldable pub update_request : Action W (Unit {0})
  update_request s =
      let (result, w) = sv.requests.update s.ghr s.world in
      elim result [
        | ok g ↦ (ok tt, record { ghr = g; world = w })
        | err e ↦ (err e, record s { world = w })
      ]

  unfoldable pub change_finalizers : Bool → Action W (Unit {0})
  change_finalizers present s = (
    ok tt,
    record s {
      ghr = record (s.ghr) {
        meta = record (s.ghr.meta) {
          finalizers =
              if present
              then lib.add_finalizer s.ghr.meta.finalizers finalizer_name
              else lib.remove_finalizer s.ghr.meta.finalizers finalizer_name;
        };
      };
    },
  )

  abbrev has_gateway : Request → Bool
  has_gateway ghr =
      not (ghr.status.assigned_gateway == "") && not (ghr.status.assigned_gateway_namespace == "")

  -- `cleanupEmptyGateway` for the request's own gateway.
  abbrev clean_own_gateway : Request → Exec W Error (Unit {0})
  clean_own_gateway ghr =
      cleanup_empty_gateway r ghr.status.assigned_gateway ghr.status.assigned_gateway_namespace
        ghr.meta.namespace ghr.meta.name

  -- Step 8
  unfoldable pub clean_gateway : Request → Exec W Error (Unit {0})
  clean_gateway ghr = if has_gateway ghr then clean_own_gateway ghr else pure tt

  -- `finalizeDeletion`
  unfoldable pub finalize_deletion : Handler W (Unit {0})
  unfolding clean_gateway refetch update_request change_finalizers
  finalize_deletion = do
    attempt {F = Outcome} (call (delete_domain_claim r))
    must (call clean_gateway)
    must refetch
    must (change_finalizers false)
    must update_request

  -- The wait's proactive step: the last request's gateway is deleted, so that its load balancer
  -- lets the certificate go. An error counts as "not empty".
  unfoldable pub release_load_balancer : Request → Exec W Error (Unit {0})
  release_load_balancer ghr = if not (has_gateway ghr) then pure tt else do
    empty ← attempt (
        is_gateway_empty r ghr.status.assigned_gateway ghr.status.assigned_gateway_namespace
          ghr.meta.namespace ghr.meta.name)
    if said_yes empty then attempt {F = Error} (clean_own_gateway ghr) >> pure tt else pure tt

  unfoldable pub discard_and_finalize : Handler W (Unit {0})
  unfolding finalize_deletion
  discard_and_finalize = do must (call (discard_certificate r)); finalize_deletion

  unfoldable pub keep_polling : Handler W (Unit {0})
  unfolding release_load_balancer
  keep_polling = do must (call release_load_balancer); raise (after 15)

  -- `pollCertificateDetachment`
  unfoldable pub poll_certificate_detachment : Handler W (Unit {0})
  unfolding discard_and_finalize keep_polling
  poll_certificate_detachment = do
    arn ← gets (λ s. s.ghr.status.certificate_arn)
    if arn == "" then finalize_deletion else do
      in_use ← attempt (call (λ ghr. is_certificate_in_use r arn))
      if said_yes in_use then keep_polling else discard_and_finalize

  -- The certificate is still in use: the second phase begins, if the condition can be stored.
  unfoldable pub begin_waiting : Handler W (Unit {0})
  unfolding refetch
  begin_waiting = do
    fetched ← attempt refetch
    elim fetched [
      | err _ ↦ raise (after 15)
      | ok _ ↦ do
        set_condition r type_deleting "True" waiting_reason "Waiting for ALB to detach certificate"
        try_update_status r
        raise (after 15)
    ]

  -- Steps 5 and 6, and what follows.
  unfoldable pub release_certificate : Handler W (Unit {0})
  unfolding begin_waiting discard_and_finalize
  release_certificate = do
    arn ← gets (λ s. s.ghr.status.certificate_arn)
    if arn == "" then finalize_deletion else do
      in_use ← attempt (call (λ ghr. is_certificate_in_use r arn))
      if said_yes in_use then begin_waiting else discard_and_finalize

  unfoldable pub first_phase : Handler W (Unit {0})
  unfolding release_certificate
  first_phase = do must (call (clean_up r)); release_certificate

  -- Is the request in the second phase?
  abbrev pub is_waiting : Option Condition → Bool
  is_waiting none = false
  is_waiting (some c) = c.reason == waiting_reason

  -- `reconcileDelete`
  unfoldable pub reconcile_delete : Handler W (Unit {0})
  unfolding first_phase poll_certificate_detachment
  reconcile_delete = do
    present ← gets (λ s. lib.contains_finalizer s.ghr.meta.finalizers finalizer_name)
    condition ← gets (λ s. lib.find_status_condition s.ghr.status.conditions type_deleting)
    if not present
        then pure tt
        else if is_waiting condition
        then poll_certificate_detachment
        else first_phase
