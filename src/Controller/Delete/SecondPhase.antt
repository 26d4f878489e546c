-- ===== src/Controller/Delete/SecondPhase.antt =====
-- From the first phase of a deletion to the second.
use gateway_orchestrator.Prelude.{
  ◌≡◌, ◌≢◌, ◌∙◌, ap, true, false, ok, err, arith, ==_refl, Result, raise, ◌>>◌,
}
use gateway_orchestrator.Api.Meta.{Error}
use gateway_orchestrator.Api.Request.{Request, key_of}
use gateway_orchestrator.Services.Laws.{StatusStore, ConditionLookup}
use gateway_orchestrator.Controller.Types.{
  Reconciler, State, Handler, after, type_deleting, finalizer_name,
}
use gateway_orchestrator.Controller.Status.{set_condition, update_status, try_update_status}
use gateway_orchestrator.Controller.Certificate.{is_certificate_in_use}
use gateway_orchestrator.Controller.Drift.{clean_up}
use gateway_orchestrator.Controller.Delete.{
  waiting_reason, refetch, begin_waiting, release_certificate, first_phase, is_waiting,
  poll_certificate_detachment, reconcile_delete,
}

module _ {W : Type 0} (r : Reconciler W) (store : StatusStore r.library r.services)
    (conditions : ConditionLookup r.library) where
  open r use {library as lib, services as sv}

  -- The request says that its deletion waits.
  abbrev pub Waits : Request → Type 0
  Waits ghr = is_waiting r (lib.find_status_condition ghr.status.conditions type_deleting) ≡ true

  -- The request with the condition set, as it is sent.
  abbrev pub marked : Request → Request
  marked g = record g {
    status = record (g.status) {
      conditions = lib.set_status_condition g.status.conditions (record {
        type = type_deleting;
        status = "True";
        observed_generation = g.meta.generation;
        reason = waiting_reason;
        message = "Waiting for ALB to detach certificate";
      });
    };
  }

  marked-Waits : (g : Request) → Waits (marked g)
  marked-Waits g =
      let (d, found, reason) = conditions.find_set g.status.conditions (record {
        type = type_deleting;
        status = "True";
        observed_generation = g.meta.generation;
        reason = waiting_reason;
        message = "Waiting for ALB to detach certificate";
      }) in
      rw (found, reason) (==_refl waiting_reason)

  refetched :
      (s : State W) (g : Request) (w : W)
      → sv.requests.get (key_of s.ghr) s.world ≡ (ok g, w)
      → refetch r s ≡ (ok tt, record { ghr = g; world = w })
  unfolding refetch
  refetched s g w h = ground arith

  -- `begin_waiting` behind its fetch.
  abbrev behind_fetch : Result Error (Unit {0}) → Handler W (Unit {0})
  behind_fetch fetched = elim fetched [
    | err _ ↦ raise (after 15)
    | ok _ ↦
        set_condition r type_deleting "True" waiting_reason "Waiting for ALB to detach certificate"
        >> (try_update_status r >> raise (after 15))
  ]

  stores :
      (g g' : Request) (w w' : W)
      → sv.update_status (marked g) w ≡ (ok g', w')
      → update_status r (record { ghr = marked g; world = w })
        ≡ (ok tt, record { ghr = g'; world = w' })
  unfolding update_status
  stores g g' w w' h = ground arith

  begins :
      (s : State W) (g g' : Request) (w w' : W)
      → sv.requests.get (key_of s.ghr) s.world ≡ (ok g, w)
      → sv.update_status (marked g) w ≡ (ok g', w')
      → begin_waiting r s ≡ (err (after 15), record { ghr = g'; world = w' })
  unfolding begin_waiting try_update_status set_condition
  begins s g g' w w' h k =
      ap (λ p. behind_fetch p.0 p.1) (refetched s g w h)
      ∙ ap (λ p. (err (after 15), p.1)) (stores g g' w w' k)

  releases :
      (s : State W) (w : W)
      → s.ghr.status.certificate_arn ≢ ""
      → is_certificate_in_use r s.ghr.status.certificate_arn s.world ≡ (ok true, w)
      → release_certificate r s ≡ begin_waiting r (record s { world = w })
  unfolding release_certificate
  releases s w has used = ground arith

  cleans :
      (s : State W) (w : W)
      → clean_up r s.ghr s.world ≡ (ok tt, w)
      → first_phase r s ≡ release_certificate r (record s { world = w })
  unfolding first_phase
  cleans s w h = ground arith

  enters :
      (s : State W)
      → lib.contains_finalizer s.ghr.meta.finalizers finalizer_name ≡ true
      → is_waiting r (lib.find_status_condition s.ghr.status.conditions type_deleting) ≡ false
      → reconcile_delete r s ≡ first_phase r s
  unfolding reconcile_delete
  enters s present fresh = ground arith

  polls :
      (t : State W)
      → lib.contains_finalizer t.ghr.meta.finalizers finalizer_name ≡ true
      → Waits t.ghr
      → reconcile_delete r t ≡ poll_certificate_detachment r t
  unfolding reconcile_delete
  polls t present waits = ground arith

  -- A run of `reconcileDelete` in its first phase, with the finalizer in place and no condition that
  -- says that the deletion waits, whose clean-up has returned, whose certificate is then found in
  -- use, and in which the request can be read again and its status stored: it ends with the stored
  -- request and is repeated after 15 seconds; and each run that begins with the conditions that were
  -- stored, the finalizer still in place, is `pollCertificateDetachment`, so that the clean-up is
  -- not done again.
  pub reconcile_delete_second_phase :
      (s t : State W) (g g' : Request) (w1 w2 w3 w4 : W)
      → lib.contains_finalizer s.ghr.meta.finalizers finalizer_name ≡ true
      → is_waiting r (lib.find_status_condition s.ghr.status.conditions type_deleting) ≡ false
      → clean_up r s.ghr s.world ≡ (ok tt, w1)
      → s.ghr.status.certificate_arn ≢ ""
      → is_certificate_in_use r s.ghr.status.certificate_arn w1 ≡ (ok true, w2)
      → sv.requests.get (key_of s.ghr) w2 ≡ (ok g, w3)
      → sv.update_status (marked g) w3 ≡ (ok g', w4)
      → t.ghr.status.conditions ≡ g'.status.conditions
      → lib.contains_finalizer t.ghr.meta.finalizers finalizer_name ≡ true
      → (reconcile_delete r s ≡ (err (after 15), record { ghr = g'; world = w4 }))
        × (reconcile_delete r t ≡ poll_certificate_detachment r t)
  reconcile_delete_second_phase s t g g' w1 w2 w3 w4 here fresh cleaned has used read stored same
        there =
      let (status, spec) = store.update_echo (marked g) w3 g' (ap (λ p. p.0) stored) in
      let waits : Waits t.ghr = rw (same, status) (marked-Waits g) in
      (
        enters s here fresh
            ∙ cleans s w1 cleaned
            ∙ releases (record s { world = w1 }) w2 has used
            ∙ begins (record s { world = w2 }) g g' w3 w4 read stored,
        polls t there waits,
      )
