-- ===== src/Controller/Delete/Waiting.antt =====
-- The second phase of a deletion, while the certificate is in use.
use gateway_orchestrator.Prelude.{
  ◌≡◌, ◌≢◌, refl, String, true, ok, err, List, [], ◌∷◌, length, ltb, arith,
}
use gateway_orchestrator.Api.Request.{Request}
use gateway_orchestrator.Aws.Types.{CertificateDetails}
use gateway_orchestrator.Services.Laws.{Untouched}
use gateway_orchestrator.Controller.Types.{Reconciler, State, after, type_deleting, finalizer_name}
use gateway_orchestrator.Controller.Cleanup.{
  delete_gateway, delete_if_found, cleanup_empty_gateway, is_gateway_empty,
}
use gateway_orchestrator.Controller.Certificate.{is_certificate_in_use}
use gateway_orchestrator.Controller.Delete.{
  release_load_balancer, keep_polling, poll_certificate_detachment, is_waiting, reconcile_delete,
}

length_pos : (l : List String) → l ≢ [] → ltb 0 (length l) ≡ true
length_pos [] h = absurd (h refl)
length_pos (x ∷ l) h = ground arith

module _ {W X : Type 0} (r : Reconciler W) (look : W → X) (frame : Untouched r.services look) where
  open r use {library as lib, services as sv}

  delete_gateway_look :
      (gateway namespace : String) (w : W) → look (delete_gateway r gateway namespace w).1 ≡ look w
  unfolding delete_gateway delete_if_found
  delete_gateway_look gateway namespace w =
      grind (arith, frame.get_config, frame.delete_config, frame.get_gateway, frame.delete_gateway)

  cleanup_look : (g n h m : String) (w : W) → look (cleanup_empty_gateway r g n h m w).1 ≡ look w
  unfolding cleanup_empty_gateway
  cleanup_look g n h m w = grind (arith, frame.list_requests, delete_gateway_look)

  is_empty_look : (g n h m : String) (w : W) → look (is_gateway_empty r g n h m w).1 ≡ look w
  unfolding is_gateway_empty
  is_empty_look g n h m w = grind (arith, frame.list_requests)

  release_look :
      (ghr : Request) (w : W)
      → ((release_load_balancer r ghr w).0 ≡ ok tt)
        × (look (release_load_balancer r ghr w).1 ≡ look w)
  unfolding release_load_balancer
  release_look ghr w = grind (arith, cleanup_look, is_empty_look)

  keep_polling_waits :
      (s : State W)
      → let (res, s') = keep_polling r s in
        (res ≡ err (after 15)) × (s'.ghr ≡ s.ghr) × (look s'.world ≡ look s.world)
  unfolding keep_polling
  keep_polling_waits s = ground (arith, release_look s.ghr s.world)

  in_use_yes :
      (arn : String) (w : W) (d : CertificateDetails)
      → (sv.acm.describe_certificate arn w).0 ≡ ok d
      → d.in_use_by ≢ []
      → is_certificate_in_use r arn w ≡ (ok true, (sv.acm.describe_certificate arn w).1)
  unfolding is_certificate_in_use
  in_use_yes arn w d h n = ground (arith, h, length_pos d.in_use_by n)

  poll_waits :
      (s : State W) (d : CertificateDetails)
      → s.ghr.status.certificate_arn ≢ ""
      → (sv.acm.describe_certificate s.ghr.status.certificate_arn s.world).0 ≡ ok d
      → d.in_use_by ≢ []
      → let (res, s') = poll_certificate_detachment r s in
        (res ≡ err (after 15)) × (s'.ghr ≡ s.ghr) × (look s'.world ≡ look s.world)
  unfolding poll_certificate_detachment
  poll_waits s d set h n =
      let arn = s.ghr.status.certificate_arn in
      let w' = (sv.acm.describe_certificate arn s.world).1 in
      ground (
        arith,
        in_use_yes arn s.world d h n,
        keep_polling_waits (record s { world = w' }),
        frame.describe arn s.world,
      )

  -- Take any part of the world that reads, claims, status updates, events and the deletion of a
  -- gateway leave alone, such as the records at AWS. In the second phase of a deletion, where ACM
  -- says that a resource still uses the certificate, the run leaves that part and the request, with
  -- its finalizer, as they were, whatever the gateway's clean-up meets, and asks to be repeated
  -- after 15 seconds.
  pub reconcile_delete_waits :
      (s : State W) (d : CertificateDetails)
      → lib.contains_finalizer s.ghr.meta.finalizers finalizer_name ≡ true
      → is_waiting r (lib.find_status_condition s.ghr.status.conditions type_deleting) ≡ true
      → s.ghr.status.certificate_arn ≢ ""
      → (sv.acm.describe_certificate s.ghr.status.certificate_arn s.world).0 ≡ ok d
      → d.in_use_by ≢ []
      → let (res, s') = reconcile_delete r s in
        (res ≡ err (after 15)) × (s'.ghr ≡ s.ghr) × (look s'.world ≡ look s.world)
  unfolding reconcile_delete
  reconcile_delete_waits s d present waiting set h n =
      rw (present, waiting) (poll_waits s d set h n)
