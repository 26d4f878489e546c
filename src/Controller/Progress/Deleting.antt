-- ===== src/Controller/Progress/Deleting.antt =====
-- The deletion.
use gateway_orchestrator.Prelude.{◌==◌, not, false, arith}
use gateway_orchestrator.Prelude.Stopping.{
  Stops, Stops-bind, Stops-gets, Stops-pure, Stops-result, Stops-if, Stops-attempt, Stops-raise,
}
use gateway_orchestrator.Controller.Types.{Reconciler, call, after, finalizer_name, type_deleting}
use gateway_orchestrator.Controller.Certificate.{is_certificate_in_use}
use gateway_orchestrator.Controller.Claim.{delete_domain_claim}
use gateway_orchestrator.Controller.Drift.{clean_up, discard_certificate}
use gateway_orchestrator.Controller.Delete.{
  waiting_reason, said_yes, refetch, update_request, change_finalizers, clean_gateway,
  finalize_deletion, release_load_balancer, discard_and_finalize, keep_polling,
  poll_certificate_detachment, begin_waiting, release_certificate, first_phase, is_waiting,
  reconcile_delete,
}
use gateway_orchestrator.Controller.Progress.Defs.{
  Retried, later, must-Retried, set_condition-Retried, try_update-Retried,
}

module _ {W : Type 0} (r : Reconciler W) where
  open r use {library as lib}

  finalize-Retried : Stops Retried (finalize_deletion r)
  unfolding finalize_deletion
  finalize-Retried = Stops-bind _ _ (Stops-attempt (call (delete_domain_claim r))) (λ _.
      Stops-bind _ _ (must-Retried r (call (clean_gateway r))) (λ _.
        Stops-bind _ _ (must-Retried r (refetch r)) (λ _.
          Stops-bind _ _ (must-Retried r (change_finalizers r false))
            (λ _. must-Retried r (update_request r)))))

  discard-Retried : Stops Retried (discard_and_finalize r)
  unfolding discard_and_finalize
  discard-Retried =
      Stops-bind _ _ (must-Retried r (call (discard_certificate r))) (λ _. finalize-Retried)

  keep_polling-Retried : Stops Retried (keep_polling r)
  unfolding keep_polling
  keep_polling-Retried =
      Stops-bind _ _ (must-Retried r (call (release_load_balancer r)))
        (λ _. Stops-raise (after 15) (later 15 (omega arith)))

  poll-Retried : Stops Retried (poll_certificate_detachment r)
  unfolding poll_certificate_detachment
  poll-Retried = Stops-bind _ _ (Stops-gets (λ s. s.ghr.status.certificate_arn)) (λ arn.
      Stops-if (arn == "") _ _ finalize-Retried (
        Stops-bind _ _ (Stops-attempt (call (λ ghr. is_certificate_in_use r arn)))
          (λ in_use. Stops-if (said_yes in_use) _ _ keep_polling-Retried discard-Retried)))

  begin_waiting-Retried : Stops Retried (begin_waiting r)
  unfolding begin_waiting
  begin_waiting-Retried = Stops-bind _ _ (Stops-attempt (refetch r)) (
      Stops-result _ _
        (λ _.
          Stops-bind _ _
            (set_condition-Retried r type_deleting "True" waiting_reason
              "Waiting for ALB to detach certificate")
            (λ _.
              Stops-bind _ _ (try_update-Retried r)
                (λ _. Stops-raise (after 15) (later 15 (omega arith)))))
        (λ _. Stops-raise (after 15) (later 15 (omega arith))))

  first_phase-Retried : Stops Retried (first_phase r)
  unfolding first_phase release_certificate
  first_phase-Retried = Stops-bind _ _ (must-Retried r (call (clean_up r))) (λ _.
      Stops-bind _ _ (Stops-gets (λ s. s.ghr.status.certificate_arn)) (λ arn.
        Stops-if (arn == "") _ _ finalize-Retried (
          Stops-bind _ _ (Stops-attempt (call (λ ghr. is_certificate_in_use r arn)))
            (λ in_use. Stops-if (said_yes in_use) _ _ begin_waiting-Retried discard-Retried))))

  pub delete-Retried : Stops Retried (reconcile_delete r)
  unfolding reconcile_delete
  delete-Retried =
      Stops-bind _ _ (Stops-gets (λ s. lib.contains_finalizer s.ghr.meta.finalizers finalizer_name))
        (λ present.
          Stops-bind _ _
            (Stops-gets (λ s. lib.find_status_condition s.ghr.status.conditions type_deleting))
            (λ condition.
              Stops-if (not present) _ _ (Stops-pure tt)
                (Stops-if (is_waiting r condition) _ _ poll-Retried first_phase-Retried)))
