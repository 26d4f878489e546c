-- ===== src/Controller/Footprint/Steady.antt =====
-- Runs that take a name from its owner: not those for other requests, nor those for steady ones.
use gateway_orchestrator.Prelude.{
  ◌≡◌, ◌≢◌, ◌⊎◌, inl, inr, refl, ap, ◌∙◌, ◌>>◌, String, Option, none, some, ok, true, arith,
  Result-cases, ==_refl,
}
use gateway_orchestrator.Prelude.Triple.{bind_ok}
use gateway_orchestrator.Api.Meta.{NamespacedName}
use gateway_orchestrator.Api.Request.{Request, RequestSpec}
use gateway_orchestrator.Api.Claim.{OwnerRef}
use gateway_orchestrator.Services.Laws.{ClaimStore}
use gateway_orchestrator.Controller.Types.{Reconciler, State, Handler, finalizer_name}
use gateway_orchestrator.Controller.Status.{compute_spec_hash}
use gateway_orchestrator.Controller.Claim.{claim_name}
use gateway_orchestrator.Controller.Claim.Ownership.{own_ref}
use gateway_orchestrator.Controller.Claim.Moves.{Table, Move-kept}
use gateway_orchestrator.Controller.Steps.{detect_spec_drift}
use gateway_orchestrator.Controller.Delete.{reconcile_delete}
use gateway_orchestrator.Controller.Reconcile.{
  ensure_finalizer, reconcile_normal, reconcile_request, reconcile,
}
use gateway_orchestrator.Controller.Footprint.Defs.{Footprint, Part, ClaimCalls}
use gateway_orchestrator.Controller.Footprint.Owners.{ensure-MoveOf, ensure-Move, delete-Move}
use gateway_orchestrator.Controller.Footprint.Stepping.{
  after_drift, after_drift-Apart, normal-Apart,
}
use gateway_orchestrator.Controller.Footprint.Whole.{reconcile_holds}

-- A spec, for a call of the calls that have nothing to do with one.
abbrev no_spec : RequestSpec
no_spec = record {
  zone_id = "";
  hostname = "";
  environment = "";
  visibility = "";
  gateway_class = "";
  gateway_selector = none;
  waf_arn = "";
}

module _ {W : Type 0} (r : Reconciler W) (store : ClaimStore r.library r.services)
    (frames : (spec : RequestSpec) → Footprint r.services store.owner spec (λ _. Unit {0})) where
  open r use {library as lib, services as sv}
  open store use {owner}

  -- The request is not being deleted, has its finalizer, and its spec has not changed since it was
  -- provisioned, if it ever was.
  pub record Steady (ghr : Request) : Type 0 where
    pub not_deleted : ghr.meta.deletion_timestamp ≡ none
    pub finalizer : lib.contains_finalizer ghr.meta.finalizers finalizer_name ≡ true
    pub no_drift :
        (ghr.status.observed_spec_hash ≡ "")
        ⊎ (ghr.status.observed_spec_hash ≡ compute_spec_hash lib ghr.spec)

  -- The name still has the owner a.
  abbrev held : String → OwnerRef → OwnerRef → Part Table
  held n a who = record { who = who; holds = λ t. t n ≡ some a }

  held-ClaimCalls :
      (n : String) (a : OwnerRef) (ghr : Request)
      → (own_ref ghr ≡ a → claim_name ghr ≢ n)
      → ClaimCalls r owner ghr.spec (held n a (own_ref ghr))
  held-ClaimCalls n a ghr other = record {
    ensure = λ g w h p. Move-kept n a (ensure-Move r store g w h) p (λ _. other);
    delete = λ g w h p. Move-kept n a (delete-Move r store g w h) p (λ _. other);
  }

  no_spec_drift : (s : State W) → Steady s.ghr → detect_spec_drift r s ≡ (ok tt, s)
  unfolding detect_spec_drift
  no_spec_drift s h = elim (h.no_drift) [
    | inl e ↦ ground arith
    | inr e ↦ ground (arith, ==_refl (compute_spec_hash lib s.ghr.spec))
  ]

  no_finalizer_due : (s : State W) → Steady s.ghr → ensure_finalizer r s ≡ (ok tt, s)
  unfolding ensure_finalizer
  no_finalizer_due s h = rw h.finalizer

  normal_skips : (s : State W) → Steady s.ghr → reconcile_normal r s ≡ after_drift r s
  unfolding reconcile_normal
  normal_skips s h =
      bind_ok (detect_spec_drift r) (λ _. after_drift r) s tt (ap (λ p. p.0) (no_spec_drift s h))
      ∙ ap (λ p. after_drift r p.1) (no_spec_drift s h)

  request_skips : (s : State W) → Steady s.ghr → reconcile_request r s ≡ reconcile_normal r s
  unfolding reconcile_request
  request_skips s h =
      let by_deletion : Option String → Handler W (Unit {0}) = λ d. elim d [
        | some _ ↦ reconcile_delete r
        | none ↦ ensure_finalizer r >> reconcile_normal r
      ] in
      ap (λ d. by_deletion d s) h.not_deleted
      ∙ bind_ok (ensure_finalizer r) (λ _. reconcile_normal r) s tt
          (ap (λ p. p.0) (no_finalizer_due s h))
      ∙ ap (λ p. reconcile_normal r p.1) (no_finalizer_due s h)

  -- A run for a steady request takes no name from its owner.
  undisturbed :
      (n : String) (a : OwnerRef) (s : State W)
      → Steady s.ghr
      → owner s.world n ≡ some a
      → owner (reconcile_request r s).1.world n ≡ some a
  undisturbed n a s h p =
      let part = held n a (own_ref s.ghr) in
      let keeps =
        after_drift-Apart r owner (frames s.ghr.spec) part
          (λ g w asks q. Move-kept n a (ensure-MoveOf r store g w asks) q (λ x. cc)) in
      rw (request_skips s h ∙ normal_skips s h)
        (keeps.at s (record { world_same = p; asks = (refl, refl) })).world_same

  unread :
      {n : String} {a : OwnerRef} (key : NamespacedName) (w : W)
      → owner w n ≡ some a
      → owner (sv.requests.get key w).1 n ≡ some a
  unread {n} key w p = ap (λ t. t n) ((frames no_spec).get_request key w) ∙ p

  -- So does one for a request that has no claim on the name, or is not the owner.
  pub other_kept :
      (n : String) (a : OwnerRef) (key : NamespacedName) (w : W)
      → ((g : Request) → (sv.requests.get key w).0 ≡ ok g → own_ref g ≡ a → claim_name g ≢ n)
      → owner w n ≡ some a
      → owner (reconcile r key w).1 n ≡ some a
  unfolding reconcile
  other_kept n a key w other p = elim (Result-cases (sv.requests.get key w).0) [
    | inr (e, x) ↦ rw (reconcile, x) (unread key w p)
    | inl (g, x) ↦
        reconcile_holds r owner (frames g.spec) (held n a (own_ref g))
          (held-ClaimCalls n a g (other g x)) key w
          (λ g' x'. let same : g' ≡ g = cc in rw same (refl, refl)) p
  ]

  pub undisturbed_run :
      (n : String) (a : OwnerRef) (key : NamespacedName) (w : W)
      → ((g : Request) → (sv.requests.get key w).0 ≡ ok g → Steady g)
      → owner w n ≡ some a
      → owner (reconcile r key w).1 n ≡ some a
  unfolding reconcile
  undisturbed_run n a key w steady p =
      let w' = (sv.requests.get key w).1 in
      elim (Result-cases (sv.requests.get key w).0) [
        | inr (e, x) ↦ rw (reconcile, x) (unread key w p)
        | inl (g, x) ↦
            let run =
              undisturbed n a (record { ghr = g; world = w' }) (steady g x) (unread key w p) in
            rw (reconcile, x) run
      ]

  -- A run of `reconcileNormal` of a request that is not the owner leaves the owner's name alone.
  pub rival_kept :
      (n : String) (a : OwnerRef) (s : State W)
      → own_ref s.ghr ≢ a
      → owner s.world n ≡ some a
      → owner (reconcile_normal r s).1.world n ≡ some a
  rival_kept n a s other p =
      let part = held n a (own_ref s.ghr) in
      let keeps =
        normal-Apart r owner (frames s.ghr.spec) part
          (held-ClaimCalls n a s.ghr (λ same. absurd (other same))) in
      (keeps.at s (record { world_same = p; asks = (refl, refl) })).world_same
