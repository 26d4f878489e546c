-- ===== src/Controller/Delete/Finished.antt =====
-- A deletion that comes to its end.
use gateway_orchestrator.Prelude.{
  ◌≡◌, false, ok, arith, inl, inr, Result-cases, ◌==◌, Bool-cases, Exec, attempt, gets,
}
use gateway_orchestrator.Prelude.Triple.{
  Triple, Triple-bind, Triple-map_err, Triple-raise, Triple-if, Triple-try,
}
use gateway_orchestrator.Services.Laws.{FinalizerStore}
use gateway_orchestrator.Controller.Types.{
  Reconciler, State, Outcome, failed, finalizer_name, type_deleting, after, call,
}
use gateway_orchestrator.Controller.Status.{must, set_condition, try_update_status}
use gateway_orchestrator.Controller.Claim.{delete_domain_claim}
use gateway_orchestrator.Controller.Certificate.{is_certificate_in_use}
use gateway_orchestrator.Controller.Drift.{clean_up, discard_certificate}
use gateway_orchestrator.Controller.Delete.{
  refetch, update_request, change_finalizers, finalize_deletion, discard_and_finalize, keep_polling,
  poll_certificate_detachment, begin_waiting, release_certificate, first_phase, is_waiting,
  reconcile_delete, said_yes, clean_gateway, release_load_balancer,
}

module _ {W : Type 0} (r : Reconciler W) (store : FinalizerStore r.library r.services) where
  open r use {library as lib, services as sv}

  -- The request has lost the finalizer.
  abbrev pub Freed : State W → Type 0
  Freed s = lib.contains_finalizer s.ghr.meta.finalizers finalizer_name ≡ false

  anything : {E A : Type 0} (m : Exec (State W) E A) → Triple (λ s. Unit) m (λ a s. Unit)
  anything m = record { at = λ s p a h. tt }

  change-Freed : Triple (λ s. Unit) (change_finalizers r false) (λ a s. Freed s)
  unfolding change_finalizers
  change-Freed = record { at = λ s p a h. store.removed _ _ }

  update-Freed : Triple Freed (update_request r) (λ a s. Freed s)
  unfolding update_request
  update-Freed = record {
    at = λ s p a h. elim (Result-cases (sv.requests.update s.ghr s.world).0) [
      | inl (g, e) ↦ rw (update_request, e) (rw (store.request_echo s.ghr s.world g e) p)
      | inr (x, e) ↦ absurd (cc (rw (update_request, e) at h))
    ];
  }

  finalize-Freed : Triple (λ s. Unit) (finalize_deletion r) (λ a s. Freed s)
  unfolding finalize_deletion
  finalize-Freed =
      Triple-bind (attempt {F = Outcome} (call (delete_domain_claim r))) _ (anything _) (λ _.
        Triple-bind (must (call (clean_gateway r))) _ (anything _) (λ _.
          Triple-bind (must (refetch r)) _ (anything _) (λ _.
            Triple-bind (must (change_finalizers r false)) _
              (Triple-map_err failed (change_finalizers r false) change-Freed)
              (λ _. Triple-map_err failed (update_request r) update-Freed))))

  discard-Freed : Triple (λ s. Unit) (discard_and_finalize r) (λ a s. Freed s)
  unfolding discard_and_finalize
  discard-Freed =
      Triple-bind (must (call (discard_certificate r))) _ (anything _) (λ _. finalize-Freed)

  keep_polling-Freed : Triple (λ s. Unit) (keep_polling r) (λ a s. Freed s)
  unfolding keep_polling
  keep_polling-Freed =
      Triple-bind (must (call (release_load_balancer r))) _ (anything _)
        (λ _. Triple-raise (after 15))

  begin_waiting-Freed : Triple (λ s. Unit) (begin_waiting r) (λ a s. Freed s)
  unfolding begin_waiting set_condition try_update_status
  begin_waiting-Freed =
      Triple-try (refetch r) _ _ (anything (refetch r))
        (λ _. record { at = λ s p a h. absurd (cc) }) (λ e. Triple-raise (after 15))

  poll-Freed : Triple (λ s. Unit) (poll_certificate_detachment r) (λ a s. Freed s)
  unfolding poll_certificate_detachment
  poll-Freed = Triple-bind (gets (λ s. s.ghr.status.certificate_arn)) _ (anything _) (λ arn.
      Triple-if (arn == "") _ _ finalize-Freed (
        Triple-bind (attempt (call (λ ghr. is_certificate_in_use r arn))) _ (anything _)
          (λ in_use. Triple-if (said_yes in_use) _ _ keep_polling-Freed discard-Freed)))

  release-Freed : Triple (λ s. Unit) (release_certificate r) (λ a s. Freed s)
  unfolding release_certificate
  release-Freed = Triple-bind (gets (λ s. s.ghr.status.certificate_arn)) _ (anything _) (λ arn.
      Triple-if (arn == "") _ _ finalize-Freed (
        Triple-bind (attempt (call (λ ghr. is_certificate_in_use r arn))) _ (anything _)
          (λ in_use. Triple-if (said_yes in_use) _ _ begin_waiting-Freed discard-Freed)))

  first_phase-Freed : Triple (λ s. Unit) (first_phase r) (λ a s. Freed s)
  unfolding first_phase
  first_phase-Freed = Triple-bind (must (call (clean_up r))) _ (anything _) (λ _. release-Freed)

  -- A run of `reconcileDelete` that comes to its end, whichever phase it is in and whether or not
  -- there is a certificate, leaves the request without the finalizer.
  pub reconcile_delete-Freed :
      (s : State W) → (reconcile_delete r s).0 ≡ ok tt → Freed (reconcile_delete r s).1
  unfolding reconcile_delete
  reconcile_delete-Freed s h =
      elim (Bool-cases (lib.contains_finalizer s.ghr.meta.finalizers finalizer_name)) [
        | inr gone ↦ ground arith
        | inl present ↦
            elim (Bool-cases
              (is_waiting r (lib.find_status_condition s.ghr.status.conditions type_deleting))) [
                | inl waiting ↦
                    rw (present, waiting) (poll-Freed.at s tt tt (rw (present, waiting) at h))
                | inr first ↦
                    rw (present, first) (first_phase-Freed.at s tt tt (rw (present, first) at h))
              ]
      ]
