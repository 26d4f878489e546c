-- ===== src/Controller/Footprint/Dns.antt =====
-- The writes of DNS records, and the clean-ups.
use gateway_orchestrator.Prelude.{◌≡◌, refl, String, List, [], ◌∷◌, All, arith, ◌==◌}
use gateway_orchestrator.Prelude.Triple.{Keeps, Keeps-bind, Keeps-attempt, Keeps-if}
use gateway_orchestrator.Prelude.Keeping.{Keeps-pure}
use gateway_orchestrator.Api.Meta.{Error}
use gateway_orchestrator.Api.Request.{Request, RequestSpec}
use gateway_orchestrator.Aws.Types.{AliasTarget, ValidationRecord}
use gateway_orchestrator.Controller.Types.{Reconciler}
use gateway_orchestrator.Controller.Claim.{delete_domain_claim}
use gateway_orchestrator.Controller.Certificate.{create_records, ensure_validation_records}
use gateway_orchestrator.Controller.Alias.{create_aliases, delete_each, delete_aliases}
use gateway_orchestrator.Controller.Drift.{
  detach_certificate, delete_records, delete_validation_records, clean_up, discard_certificate,
  cleanup_for_reprovisioning,
}
use gateway_orchestrator.Controller.Footprint.Defs.{Footprint, Part, ClaimCalls, Asks, moved}
use gateway_orchestrator.Controller.Footprint.Cluster.{remove_look, unlabel_look}

module _ {W X : Type 0} {spec : RequestSpec} {Own : String → Type 0} (r : Reconciler W)
    (look : W → X) (frame : Footprint r.services look spec Own) where
  open r use {library as lib, services as sv}

  create_records_look :
      (records : List ValidationRecord) (w : W)
      → All (λ v. Own v.name) records
      → look (create_records r spec.zone_id records w).1 ≡ look w
  unfolding create_records
  create_records_look [] w h = refl
  create_records_look (v ∷ records) w (own, rest) =
      grind (arith, own, frame.create_record, λ (u : W). create_records_look records u rest)

  pub write_records_look :
      (ghr : Request) (w : W)
      → ghr.spec ≡ spec
      → look (ensure_validation_records r ghr w).1 ≡ look w
  unfolding ensure_validation_records
  write_records_look ghr w h = grind (
    arith,
    frame.get_validation,
    create_records_look,
    frame.validation_names ghr.status.certificate_arn w,
  )

  create_aliases_look :
      (target : AliasTarget) (types : List String) (w : W)
      → look (create_aliases r spec.zone_id spec.hostname target types w).1 ≡ look w
  unfolding create_aliases
  create_aliases_look target [] w = refl
  create_aliases_look target (t ∷ types) w = grind (
    arith,
    frame.own_hostname,
    frame.create_record,
    λ (u : W). create_aliases_look target types u,
  )

  delete_each_look :
      (target : AliasTarget) (types : List String) (w : W)
      → look (delete_each r spec.zone_id spec.hostname target types w).1 ≡ look w
  unfolding delete_each
  delete_each_look target [] w = refl
  delete_each_look target (t ∷ types) w =
      grind
        (arith, frame.own_hostname, frame.delete_record, λ (u : W). delete_each_look target types u)

  pub delete_aliases_look :
      (ghr : Request) (w : W) → ghr.spec ≡ spec → look (delete_aliases r ghr w).1 ≡ look w
  unfolding delete_aliases
  delete_aliases_look ghr w h = grind (arith, delete_each_look)

  pub aliases_look :
      (ghr : Request) (target : AliasTarget) (types : List String) (w : W)
      → ghr.spec ≡ spec
      → look (create_aliases r ghr.spec.zone_id ghr.spec.hostname target types w).1 ≡ look w
  aliases_look ghr target types w h = rw h (create_aliases_look target types w)

  delete_records_look :
      (records : List ValidationRecord) (w : W)
      → All (λ v. Own v.name) records
      → look (delete_records r spec.zone_id records w).1 ≡ look w
  unfolding delete_records
  delete_records_look [] w h = refl
  delete_records_look (v ∷ records) w (own, rest) =
      grind (arith, own, frame.delete_record, λ (u : W). delete_records_look records u rest)

  delete_validation_look :
      (ghr : Request) (w : W)
      → ghr.spec ≡ spec
      → look (delete_validation_records r ghr w).1 ≡ look w
  unfolding delete_validation_records
  delete_validation_look ghr w h = grind (
    arith,
    frame.get_validation,
    delete_records_look,
    frame.validation_names ghr.status.certificate_arn w,
  )

  detach_look : (ghr : Request) (w : W) → look (detach_certificate r ghr w).1 ≡ look w
  unfolding detach_certificate
  detach_look ghr w = grind (arith, remove_look r look frame)

  pub clean_up_look : (ghr : Request) (w : W) → ghr.spec ≡ spec → look (clean_up r ghr w).1 ≡ look w
  unfolding clean_up
  clean_up_look ghr w h =
      grind
        (arith, delete_aliases_look, detach_look, unlabel_look r look frame, delete_validation_look)

  pub discard_look : (ghr : Request) (w : W) → look (discard_certificate r ghr w).1 ≡ look w
  unfolding discard_certificate
  discard_look ghr w = grind (arith, frame.delete_certificate)

  pub reprovisioning-Keeps :
      (part : Part X)
      → ClaimCalls r look spec part
      → (ghr : Request) → Asks spec part.who ghr
      → Keeps (λ w. part.holds (look w)) (cleanup_for_reprovisioning r ghr)
  unfolding cleanup_for_reprovisioning
  reprovisioning-Keeps part calls ghr a =
      Keeps-bind _ _ (record { at = λ w p. moved part (clean_up_look ghr w a.0) p })
        (λ _.
          Keeps-bind _ _
            (Keeps-if (ghr.status.certificate_arn == "") _ _ (Keeps-pure tt)
              (record { at = λ w p. moved part (discard_look ghr w) p }))
            (λ _.
              Keeps-bind _ _
                (Keeps-attempt {F = Error} (delete_domain_claim r ghr)
                  (record { at = λ w p. calls.delete ghr w a p }))
                (λ _. Keeps-pure tt)))
