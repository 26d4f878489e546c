-- ===== src/Controller/Footprint/Whole.antt =====
-- `Reconcile` from its `Get` to its end.
use gateway_orchestrator.Prelude.{ok, Result-cases, inl, inr, true}
use gateway_orchestrator.Prelude.Triple.{Keeps, Keeps-bind, Keeps-map_err, Keeps-if}
use gateway_orchestrator.Prelude.Keeping.{
  Keeps-pure, Keeps-gets, Ends, Ends-of_Keeps, Ends-bind, Ends-option,
}
use gateway_orchestrator.Prelude.{◌≡◌, String}
use gateway_orchestrator.Api.Meta.{NamespacedName}
use gateway_orchestrator.Api.Request.{Request, RequestSpec}
use gateway_orchestrator.Controller.Types.{Reconciler, failed, finalizer_name}
use gateway_orchestrator.Controller.Reconcile.{ensure_finalizer, reconcile_request, reconcile}
use gateway_orchestrator.Controller.Footprint.Defs.{Footprint, Part, Apart, ClaimCalls, Asks, moved}
use gateway_orchestrator.Controller.Footprint.Stepping.{normal-Apart}
use gateway_orchestrator.Controller.Footprint.Deleting.{Still, Still-of_Apart, delete-Ends}
use gateway_orchestrator.Controller.Footprint.Assigning.{
  update_request-Apart, change_finalizers-Apart,
}

module _ {W X : Type 0} {spec : RequestSpec} {Own : String → Type 0} (r : Reconciler W)
    (look : W → X) (frame : Footprint r.services look spec Own) (part : Part X)
    (calls : ClaimCalls r look spec part) where
  open r use {library as lib, services as sv}

  ensure_finalizer-Apart : Keeps (Apart look spec part) (ensure_finalizer r)
  unfolding ensure_finalizer
  ensure_finalizer-Apart =
      Keeps-bind _ _ (Keeps-gets (λ s. lib.contains_finalizer s.ghr.meta.finalizers finalizer_name))
        (λ present. Keeps-if present _ _ (Keeps-pure tt) (
          Keeps-map_err failed _ (
            Keeps-bind _ _ (change_finalizers-Apart r look frame part true)
              (λ _. update_request-Apart r look frame part))))

  request-Ends : Ends (Apart look spec part) (Still r look frame part calls) (reconcile_request r)
  unfolding reconcile_request
  request-Ends =
      Ends-bind _ _ (Still-of_Apart r look frame part calls)
        (Keeps-gets (λ s. s.ghr.meta.deletion_timestamp))
        (Ends-option _ _
          (Ends-of_Keeps _ (Still-of_Apart r look frame part calls)
            (Keeps-bind _ _ ensure_finalizer-Apart (λ _. normal-Apart r look frame part calls)))
          (λ _. delete-Ends r look frame part calls))

  -- What the operations on claims keep, a whole run for the request keeps.
  pub reconcile_holds :
      (key : NamespacedName) (w : W)
      → ((g : Request) → (sv.requests.get key w).0 ≡ ok g → Asks spec part.who g)
      → part.holds (look w)
      → part.holds (look (reconcile r key w).1)
  unfolding reconcile
  reconcile_holds key w h p =
      let read = moved part (frame.get_request key w) p in
      let w' = (sv.requests.get key w).1 in
      elim (Result-cases (sv.requests.get key w).0) [
        | inr (e, x) ↦ rw (reconcile, x) read
        | inl (g, x) ↦
            let run =
              request-Ends.at (record { ghr = g; world = w' })
                (record { world_same = read; asks = h g x }) in
            rw (reconcile, x) run
      ]
