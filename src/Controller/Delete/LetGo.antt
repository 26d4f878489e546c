-- ===== src/Controller/Delete/LetGo.antt =====
-- The hostname's claim at the end of a deletion.
use gateway_orchestrator.Prelude.{
  ◌≡◌, ◌≢◌, refl, ◌∙◌, String, some, Bool, false, ok, err, Result-cases, inl, inr, ◌⊎◌, arith, ◌>>◌,
}
use gateway_orchestrator.Prelude.Triple.{Keeps, Keeps-bind, Keeps-map_err}
use gateway_orchestrator.Api.Meta.{Error}
use gateway_orchestrator.Api.Request.{Request, key_of}
use gateway_orchestrator.Api.Claim.{DomainClaim}
use gateway_orchestrator.Services.Laws.{ClaimStore, Spared}
use gateway_orchestrator.Controller.Types.{Reconciler, State, Handler, call, failed}
use gateway_orchestrator.Controller.Status.{must}
use gateway_orchestrator.Controller.Claim.{
  claim_name, claim_key, ignoring_not_found, delete_domain_claim,
}
use gateway_orchestrator.Controller.Claim.Ownership.{own_ref}
use gateway_orchestrator.Controller.Claim.Release.{delete_domain_claim-Released}
use gateway_orchestrator.Controller.Cleanup.{delete_if_found, delete_gateway, cleanup_empty_gateway}
use gateway_orchestrator.Controller.Delete.{
  refetch, update_request, change_finalizers, clean_gateway, finalize_deletion,
}

module _ {W : Type 0} (r : Reconciler W) (store : ClaimStore r.library r.services)
    (frame : Spared r.services (store.owner)) where
  open r use {library as lib, services as sv}
  open store use {owner}

  ignoring_failed :
      (c : DomainClaim) (w : W) (e : Error)
      → (ignoring_not_found r (sv.claims.delete c) w).0 ≡ err e
      → owner (ignoring_not_found r (sv.claims.delete c) w).1 ≡ owner w
  unfolding ignoring_not_found
  ignoring_failed c w e h = elim (Result-cases (sv.claims.delete c w).0) [
    | inl (_, x) ↦ absurd (ground arith)
    | inr (d, x) ↦ ground (arith, store.delete_failed c w d x)
  ]

  -- A deletion of the claim that fails has changed no claim.
  delete_claim_failed :
      (ghr : Request) (w : W) (e : Error)
      → (delete_domain_claim r ghr w).0 ≡ err e
      → owner (delete_domain_claim r ghr w).1 ≡ owner w
  unfolding delete_domain_claim
  delete_claim_failed ghr w e h =
      let k = claim_key ghr in
      let w' = (sv.claims.get k w).1 in
      elim (Result-cases (sv.claims.get k w).0) [
        | inr (d, x) ↦ ground (arith, store.get_same k w)
        | inl (c, x) ↦ ground (arith, store.get_same k w, ignoring_failed c w' e)
      ]

  delete_gateway_owner : (g n : String) (w : W) → owner (delete_gateway r g n w).1 ≡ owner w
  unfolding delete_gateway delete_if_found
  delete_gateway_owner g n w =
      grind (arith, frame.get_config, frame.delete_config, frame.get_gateway, frame.delete_gateway)

  cleanup_owner : (g n h m : String) (w : W) → owner (cleanup_empty_gateway r g n h m w).1 ≡ owner w
  unfolding cleanup_empty_gateway
  cleanup_owner g n h m w = grind (arith, frame.list_requests, delete_gateway_owner)

  clean_gateway_owner : (ghr : Request) (w : W) → owner (clean_gateway r ghr w).1 ≡ owner w
  unfolding clean_gateway
  clean_gateway_owner ghr w = ground (
    arith,
    cleanup_owner ghr.status.assigned_gateway ghr.status.assigned_gateway_namespace
        ghr.meta.namespace ghr.meta.name w,
  )

  -- The claims are as they were in one world.
  abbrev Same : W → State W → Type 0
  Same w s = owner s.world ≡ owner w

  refetch-Same : (w : W) → Keeps (Same w) (refetch r)
  unfolding refetch
  refetch-Same w = record { at = λ s p. ground (arith, frame.get_request (key_of s.ghr) s.world) }

  update_request-Same : (w : W) → Keeps (Same w) (update_request r)
  unfolding update_request
  update_request-Same w = record { at = λ s p. ground (arith, frame.update_request s.ghr s.world) }

  change_finalizers-Same : (w : W) (present : Bool) → Keeps (Same w) (change_finalizers r present)
  unfolding change_finalizers
  change_finalizers-Same w present = record { at = λ s p. p }

  clean_gateway-Same : (w : W) → Keeps (Same w) (call (clean_gateway r))
  clean_gateway-Same w = record { at = λ s p. clean_gateway_owner s.ghr s.world ∙ p }

  -- What `finalizeDeletion` does behind the deletion of the claim.
  abbrev behind_claim : Handler W (Unit {0})
  behind_claim =
      must (call (clean_gateway r))
      >> (must (refetch r) >> (must (change_finalizers r false) >> must (update_request r)))

  behind_claim-Same : (w : W) → Keeps (Same w) behind_claim
  behind_claim-Same w = Keeps-bind _ _ (Keeps-map_err failed _ (clean_gateway-Same w)) (λ _.
      Keeps-bind _ _ (Keeps-map_err failed _ (refetch-Same w)) (λ _.
        Keeps-bind _ _ (Keeps-map_err failed _ (change_finalizers-Same w false))
          (λ _. Keeps-map_err failed _ (update_request-Same w))))

  finalize_claims :
      (s : State W)
      → owner (finalize_deletion r s).1.world ≡ owner (delete_domain_claim r s.ghr s.world).1
  unfolding finalize_deletion
  finalize_claims s =
      let w' = (delete_domain_claim r s.ghr s.world).1 in
      (behind_claim-Same w').at (record s { world = w' }) refl

  -- The hostname is let go, or the deletion of its claim has failed and every claim has the owner
  -- that it had.
  abbrev pub LetGo : State W → W → Type 0
  LetGo s w' =
      (owner w' (claim_name s.ghr) ≢ some (own_ref s.ghr))
      ⊎ ((e : Error) × ((delete_domain_claim r s.ghr s.world).0 ≡ err e)
          × (owner w' ≡ owner s.world))

  -- A `finalizeDeletion` that comes to its end, so that the request is let go, leaves the
  -- hostname's claim with another owner or none, with one exception: where `deleteDomainClaim` has
  -- failed, the end is the same, and every claim keeps its owner, the request that is
  -- gone included.
  pub finalize_deletion-LetGo :
      (s : State W) → (finalize_deletion r s).0 ≡ ok tt → LetGo s (finalize_deletion r s).1.world
  finalize_deletion-LetGo s h = elim (Result-cases (delete_domain_claim r s.ghr s.world).0) [
    | inl (_, x) ↦
        let released = delete_domain_claim-Released r store s.ghr s.world in
        inl (rw (finalize_claims s) (released.gone x))
    | inr (e, x) ↦ inr (e, x, finalize_claims s ∙ delete_claim_failed s.ghr s.world e x)
  ]
