-- ===== src/Controller/Footprint/Owners.antt =====
-- `Reconcile` as moves of the abstract table of owners, and what a finished run owns.
use gateway_orchestrator.Prelude.{◌≡◌, Bool, String, ok, true, false}
use gateway_orchestrator.Api.Meta.{NamespacedName}
use gateway_orchestrator.Api.Request.{Request, RequestSpec}
use gateway_orchestrator.Api.Claim.{OwnerRef}
use gateway_orchestrator.Services.Laws.{ClaimStore}
use gateway_orchestrator.Controller.Types.{Reconciler}
use gateway_orchestrator.Controller.Claim.{ensure_domain_claim, delete_domain_claim}
use gateway_orchestrator.Controller.Claim.Moves.{Table, Move, keep, take, release}
use gateway_orchestrator.Controller.Claim.Contest.{
  MoveOf, ensure_domain_claim-Move, delete_domain_claim-Move,
}
use gateway_orchestrator.Controller.Reconcile.{reconcile}
use gateway_orchestrator.Controller.Footprint.Defs.{
  Footprint, Part, ClaimCalls, Asks, name_of_claim,
}
use gateway_orchestrator.Controller.Footprint.Whole.{reconcile_holds}

-- Some moves, one after the other, each of the same request on the same name.
pub data Moves (name : String) (who : OwnerRef) (t : Table) : Table → Type 0 where
  unmoved : Moves name who t t
  moves : {u v : Table} → Moves name who t u → Move true name who u v → Moves name who t v

Move-weaken :
    {name : String} {who : OwnerRef} {t t' : Table}
    → Move false name who t t'
    → Move true name who t t'
Move-weaken (keep h) = keep h
Move-weaken (take free mine h) = take free mine h
Move-weaken (release fr held gone h) = absurd (cc)

module _ {W : Type 0} (r : Reconciler W) (store : ClaimStore r.library r.services) where
  open r use {services as sv}
  open store use {owner}

  own_move :
      {frees : Bool} {spec : RequestSpec} {who : OwnerRef} (ghr : Request) (w w' : W)
      → Asks spec who ghr
      → MoveOf r store frees ghr w w'
      → Move frees (name_of_claim spec) who (owner w) (owner w')
  own_move ghr w w' a m = rw (a.0, a.1) at m

  pub ensure-MoveOf :
      {spec : RequestSpec} {who : OwnerRef} (ghr : Request) (w : W)
      → Asks spec who ghr
      → Move false (name_of_claim spec) who (owner w) (owner (ensure_domain_claim r ghr w).1)
  ensure-MoveOf ghr w a = own_move ghr w _ a (ensure_domain_claim-Move r store ghr w)

  pub ensure-Move :
      {spec : RequestSpec} {who : OwnerRef} (ghr : Request) (w : W)
      → Asks spec who ghr
      → Move true (name_of_claim spec) who (owner w) (owner (ensure_domain_claim r ghr w).1)
  ensure-Move ghr w a = Move-weaken (ensure-MoveOf ghr w a)

  pub delete-Move :
      {spec : RequestSpec} {who : OwnerRef} (ghr : Request) (w : W)
      → Asks spec who ghr
      → Move true (name_of_claim spec) who (owner w) (owner (delete_domain_claim r ghr w).1)
  delete-Move ghr w a = own_move ghr w _ a (delete_domain_claim-Move r store ghr w)

  -- The table has been reached from t by moves.
  abbrev reached : RequestSpec → OwnerRef → Table → Part Table
  reached spec who t = record { who = who; holds = Moves (name_of_claim spec) who t }

  reached-ClaimCalls :
      (spec : RequestSpec) (who : OwnerRef) (t : Table)
      → ClaimCalls r owner spec (reached spec who t)
  reached-ClaimCalls spec who t = record {
    ensure = λ ghr w a p. moves p (ensure-Move ghr w a);
    delete = λ ghr w a p. moves p (delete-Move ghr w a);
  }

  -- Every `Reconcile` of a key, provisioning or deleting, on every path and whatever its calls
  -- answer, does to the table of owners no more than moves of its own request on its own name, which
  -- are those of the request as it is read first: it takes the name only where it is free at that
  -- moment, and frees it only where it is the request's. The other calls are supposed to leave the
  -- claims alone, and an update of the request to send back its spec and its identity.
  pub reconcile_refines :
      {spec : RequestSpec} {Own : String → Type 0} {who : OwnerRef} (key : NamespacedName) (w : W)
      → Footprint r.services owner spec Own
      → ((g : Request) → (sv.requests.get key w).0 ≡ ok g → Asks spec who g)
      → Moves (name_of_claim spec) who (owner w) (owner (reconcile r key w).1)
  reconcile_refines {spec} {Own} {who} key w frame h =
      reconcile_holds r owner frame (reached spec who (owner w))
        (reached-ClaimCalls spec who (owner w)) key w h unmoved
