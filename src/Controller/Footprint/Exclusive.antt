-- ===== src/Controller/Footprint/Exclusive.antt =====
-- Whole runs for requests that contend for one hostname.
use gateway_orchestrator.Prelude.{◌≡◌, ◌≢◌, refl, ap, ◌∙◌, String, some, ok}
use gateway_orchestrator.Api.Meta.{NamespacedName}
use gateway_orchestrator.Api.Request.{Request, RequestSpec}
use gateway_orchestrator.Api.Claim.{OwnerRef}
use gateway_orchestrator.Services.Laws.{ClaimStore}
use gateway_orchestrator.Controller.Types.{Reconciler, State}
use gateway_orchestrator.Controller.Claim.{claim_name}
use gateway_orchestrator.Controller.Claim.Ownership.{own_ref}
use gateway_orchestrator.Controller.Reconcile.{reconcile_normal, reconcile}
use gateway_orchestrator.Controller.Footprint.Defs.{Footprint}
use gateway_orchestrator.Controller.Footprint.Steady.{
  Steady, undisturbed_run, other_kept, rival_kept,
}
use gateway_orchestrator.Controller.Footprint.Finished.{finished-owner}

module _ {W : Type 0} (r : Reconciler W) (store : ClaimStore r.library r.services)
    (frames : (spec : RequestSpec) → Footprint r.services store.owner spec (λ _. Unit {0})) where
  open r use {library as lib, services as sv}
  open store use {owner}

  -- One turn of the system in which the owner a does not let the name n go: a `Reconcile` of a
  -- request that is not a's or is for another name, one of a steady request, which may be a's, or
  -- anything else that does not write claims.
  pub data Turn (n : String) (a : OwnerRef) (w w' : W) : Type 0 where
    rival_runs :
        (key : NamespacedName)
        → ((g : Request) → (sv.requests.get key w).0 ≡ ok g → own_ref g ≡ a → claim_name g ≢ n)
        → w' ≡ (reconcile r key w).1
        → Turn n a w w'
    steady_runs :
        (key : NamespacedName)
        → ((g : Request) → (sv.requests.get key w).0 ≡ ok g → Steady r store frames g)
        → w' ≡ (reconcile r key w).1
        → Turn n a w w'
    elsewhere : owner w' ≡ owner w → Turn n a w w'

  pub data Turns (n : String) (a : OwnerRef) (w : W) : W → Type 0 where
    begin : Turns n a w w
    turn : {u v : W} → Turns n a w u → Turn n a u v → Turns n a w v

  Turn-kept :
      {w w' : W} (n : String) (a : OwnerRef)
      → Turn n a w w'
      → owner w n ≡ some a
      → owner w' n ≡ some a
  Turn-kept {w} n a (rival_runs key other e) p = rw e (other_kept r store frames n a key w other p)
  Turn-kept {w} n a (steady_runs key steady e) p =
      rw e (undisturbed_run r store frames n a key w steady p)
  Turn-kept n a (elsewhere e) p = ap (λ t. t n) e ∙ p

  pub Turns-kept :
      (n : String) (a : OwnerRef) {w w' : W}
      → Turns n a w w'
      → owner w n ≡ some a
      → owner w' n ≡ some a
  Turns-kept n a begin p = p
  Turns-kept n a (turn run last) p = Turn-kept n a last (Turns-kept n a run p)

  -- Mutual exclusion of whole runs: from the moment when `reconcileNormal` has provisioned a
  -- request to its end, through any sequence of `Reconcile`s of any requests and of other writes that
  -- leave the claims alone, in which the request itself runs only while it is steady (not being
  -- deleted, with its finalizer and without a change of its spec) or for another claim, the claim of
  -- its hostname is its own, and no run of `reconcileNormal` of another request for the same claim
  -- comes to its end. Runs follow one another, as with one worker, which is what a controller has by
  -- default. Calls that are not on claims are supposed to leave the claims alone, and an update of a
  -- request to send back its spec and its identity.
  pub provisioned_exclusive :
      (winner rival : State W)
      → (reconcile_normal r winner).0 ≡ ok tt
      → Turns
          (claim_name winner.ghr)
          (own_ref winner.ghr)
          (reconcile_normal r winner).1.world
          rival.world
      → claim_name rival.ghr ≡ claim_name winner.ghr
      → own_ref rival.ghr ≢ own_ref winner.ghr
      → (owner rival.world (claim_name winner.ghr) ≡ some (own_ref winner.ghr))
        × ((reconcile_normal r rival).0 ≢ ok tt)
  provisioned_exclusive winner rival won run name other =
      let n = claim_name winner.ghr in
      let a = own_ref winner.ghr in
      let first = finished-owner r store (frames winner.ghr.spec) a winner (refl, refl) won in
      let kept = Turns-kept n a run first in
      (
        kept,
        λ finished.
            let theirs =
              finished-owner r store (frames rival.ghr.spec) (own_ref rival.ghr) rival (refl, refl)
                finished in
            let mine = rival_kept r store frames n a rival other kept in
            other (cc (name, theirs, mine)),
      )
