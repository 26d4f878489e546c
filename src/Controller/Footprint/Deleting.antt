-- ===== src/Controller/Footprint/Deleting.antt =====
-- The deletion. What it fetches again may have another spec, and it then writes the request alone.
use gateway_orchestrator.Prelude.{
  String, arith, ◌==◌, not, Bool, false, attempt, ◌≡◌, Result-cases, inl, inr,
}
use gateway_orchestrator.Prelude.Triple.{Keeps, Keeps-bind, Keeps-attempt, Keeps-map_err}
use gateway_orchestrator.Prelude.Keeping.{
  Keeps-result, Keeps-pure, Keeps-raise, Keeps-gets, Ends, Ends-of_Keeps, Ends-if, Ends-bind,
  Ends-last, Ends-map_err, Ends-attempt,
}
use gateway_orchestrator.Api.Request.{Request, RequestSpec, key_of}
use gateway_orchestrator.Controller.Types.{
  Reconciler, State, Outcome, failed, after, call, finalizer_name, type_deleting,
}
use gateway_orchestrator.Controller.Status.{set_condition, update_status, try_update_status, must}
use gateway_orchestrator.Controller.Claim.{delete_domain_claim}
use gateway_orchestrator.Controller.Certificate.{is_certificate_in_use}
use gateway_orchestrator.Controller.Drift.{clean_up, discard_certificate}
use gateway_orchestrator.Controller.Delete.{
  waiting_reason, said_yes, refetch, update_request, change_finalizers, clean_gateway,
  finalize_deletion, release_load_balancer, discard_and_finalize, keep_polling,
  poll_certificate_detachment, begin_waiting, release_certificate, first_phase, is_waiting,
  reconcile_delete,
}
use gateway_orchestrator.Controller.Footprint.Defs.{Footprint, Part, Apart, ClaimCalls, moved}
use gateway_orchestrator.Controller.Footprint.Cluster.{cleanup_look, is_empty_look, in_use_look}
use gateway_orchestrator.Controller.Footprint.Dns.{discard_look, clean_up_look}
use gateway_orchestrator.Controller.Footprint.Assigning.{call-Apart, claim_call-Apart}

module _ {W X : Type 0} {spec : RequestSpec} {Own : String → Type 0} (r : Reconciler W)
    (look : W → X) (frame : Footprint r.services look spec Own) (part : Part X)
    (calls : ClaimCalls r look spec part) where
  open r use {library as lib, services as sv}

  abbrev Out : State W → Type 0
  Out = Apart look spec part

  -- It holds; the request may have another spec.
  abbrev pub Still : State W → Type 0
  Still s = part.holds (look s.world)

  pub Still-of_Apart : (s : State W) → Out s → Still s
  Still-of_Apart s p = p.world_same

  refetch-Still : Keeps Still (refetch r)
  unfolding refetch
  refetch-Still = record {
    at = λ s p.
        let same = moved part (frame.get_request (key_of s.ghr) s.world) p in
        elim (Result-cases (sv.requests.get (key_of s.ghr) s.world).0) [
          | inl (g, e) ↦ rw (refetch, e) same
          | inr (_, e) ↦ rw (refetch, e) same
        ];
  }

  refetch-Ends : Ends Out Still (refetch r)
  refetch-Ends = record { at = λ s p. refetch-Still.at s p.world_same }

  update_request-Still : Keeps Still (update_request r)
  unfolding update_request
  update_request-Still = record {
    at = λ s p.
        let same = moved part (frame.update_request s.ghr s.world) p in
        elim (Result-cases (sv.requests.update s.ghr s.world).0) [
          | inl (g, e) ↦ rw (update_request, e) same
          | inr (_, e) ↦ rw (update_request, e) same
        ];
  }

  change_finalizers-Still : (present : Bool) → Keeps Still (change_finalizers r present)
  unfolding change_finalizers
  change_finalizers-Still present = record { at = λ s p. p }

  set_condition-Still :
      (type status reason message : String)
      → Keeps Still (set_condition r {E = Outcome} type status reason message)
  unfolding set_condition
  set_condition-Still type status reason message = record { at = λ s p. p }

  try_update-Still : Keeps Still (try_update_status r {E = Outcome})
  unfolding try_update_status update_status
  try_update-Still = record {
    at = λ s p.
        let same = moved part (frame.update_status s.ghr s.world) p in
        elim (Result-cases (sv.update_status s.ghr s.world).0) [
          | inl (g, e) ↦ rw (try_update_status, update_status, e) same
          | inr (_, e) ↦ rw (try_update_status, update_status, e) same
        ];
  }

  clean_gateway_look : (ghr : Request) (w : W) → look (clean_gateway r ghr w).1 ≡ look w
  unfolding clean_gateway
  clean_gateway_look ghr w = ground (
    arith,
    cleanup_look r look frame ghr.status.assigned_gateway ghr.status.assigned_gateway_namespace
        ghr.meta.namespace ghr.meta.name w,
  )

  clean_gateway-Apart : Keeps Out (must (call (clean_gateway r)))
  clean_gateway-Apart =
      Keeps-map_err failed _
        (call-Apart r look frame part (clean_gateway r) (λ ghr w h. clean_gateway_look ghr w))

  finalize-Ends : Ends Out Still (finalize_deletion r)
  unfolding finalize_deletion
  finalize-Ends =
      Ends-bind _ _ Still-of_Apart
        (Keeps-attempt {F = Outcome} _
          (claim_call-Apart r look frame part (delete_domain_claim r) calls.delete))
        (λ _. Ends-bind _ _ Still-of_Apart clean_gateway-Apart (λ _.
          Ends-last _ _ (Ends-map_err failed _ refetch-Ends) (λ _.
            Keeps-bind _ _ (Keeps-map_err failed _ (change_finalizers-Still false))
              (λ _. Keeps-map_err failed _ update_request-Still))))

  release_look : (ghr : Request) (w : W) → look (release_load_balancer r ghr w).1 ≡ look w
  unfolding release_load_balancer
  release_look ghr w = grind (arith, cleanup_look r look frame, is_empty_look r look frame)

  discard-Ends : Ends Out Still (discard_and_finalize r)
  unfolding discard_and_finalize
  discard-Ends =
      Ends-bind _ _ Still-of_Apart
        (Keeps-map_err failed _ (
          call-Apart r look frame part (discard_certificate r)
            (λ ghr w h. discard_look r look frame ghr w)))
        (λ _. finalize-Ends)

  keep_polling-Apart : Keeps Out (keep_polling r)
  unfolding keep_polling
  keep_polling-Apart =
      Keeps-bind _ _
        (Keeps-map_err failed _
          (call-Apart r look frame part (release_load_balancer r) (λ ghr w h. release_look ghr w)))
        (λ _. Keeps-raise (after 15))

  in_use-Apart :
      (arn : String) → Keeps Out (attempt {F = Outcome} (call (λ ghr. is_certificate_in_use r arn)))
  in_use-Apart arn = Keeps-attempt _ (
      call-Apart r look frame part (λ ghr. is_certificate_in_use r arn)
        (λ ghr w h. in_use_look r look frame arn w))

  poll-Ends : Ends Out Still (poll_certificate_detachment r)
  unfolding poll_certificate_detachment
  poll-Ends = Ends-bind _ _ Still-of_Apart (Keeps-gets (λ s. s.ghr.status.certificate_arn)) (λ arn.
      Ends-if (arn == "") _ _ finalize-Ends (
        Ends-bind _ _ Still-of_Apart (in_use-Apart arn) (λ in_use.
          Ends-if (said_yes in_use) _ _ (Ends-of_Keeps _ Still-of_Apart keep_polling-Apart)
            discard-Ends)))

  begin_waiting-Ends : Ends Out Still (begin_waiting r)
  unfolding begin_waiting
  begin_waiting-Ends = Ends-last _ _ (Ends-attempt {F = Outcome} _ refetch-Ends) (
      Keeps-result _ _
        (λ _.
          Keeps-bind _ _
            (set_condition-Still type_deleting "True" waiting_reason
              "Waiting for ALB to detach certificate")
            (λ _. Keeps-bind _ _ try_update-Still (λ _. Keeps-raise (after 15))))
        (λ _. Keeps-raise (after 15)))

  release-Ends : Ends Out Still (release_certificate r)
  unfolding release_certificate
  release-Ends =
      Ends-bind _ _ Still-of_Apart (Keeps-gets (λ s. s.ghr.status.certificate_arn)) (λ arn.
        Ends-if (arn == "") _ _ finalize-Ends (
          Ends-bind _ _ Still-of_Apart (in_use-Apart arn)
            (λ in_use. Ends-if (said_yes in_use) _ _ begin_waiting-Ends discard-Ends)))

  first_phase-Ends : Ends Out Still (first_phase r)
  unfolding first_phase
  first_phase-Ends =
      Ends-bind _ _ Still-of_Apart
        (Keeps-map_err failed _
          (call-Apart r look frame part (clean_up r) (clean_up_look r look frame)))
        (λ _. release-Ends)

  pub delete-Ends : Ends Out Still (reconcile_delete r)
  unfolding reconcile_delete
  delete-Ends =
      Ends-bind _ _ Still-of_Apart
        (Keeps-gets (λ s. lib.contains_finalizer s.ghr.meta.finalizers finalizer_name))
        (λ present.
          Ends-bind _ _ Still-of_Apart
            (Keeps-gets (λ s. lib.find_status_condition s.ghr.status.conditions type_deleting))
            (λ condition.
              Ends-if (not present) _ _ (Ends-of_Keeps _ Still-of_Apart (Keeps-pure tt))
                (Ends-if (is_waiting r condition) _ _ poll-Ends first_phase-Ends)))
