-- ===== src/Tests/Exclusive.antt =====
-- Whole runs of the shop and of its rival in the world in memory.
use gateway_orchestrator.Prelude.{
  ◌≡◌, ◌≢◌, refl, inl, String, some, List, [], ◌∷◌, ok, arith, All, string_dec, Option-cases, inr,
  ap, ◌<>◌, sym, ◌∙◌,
}
use gateway_orchestrator.Api.Meta.{NamespacedName}
use gateway_orchestrator.Api.Request.{Request, RequestSpec}
use gateway_orchestrator.Aws.Types.{ValidationRecord}
use gateway_orchestrator.Controller.Claim.{claim_name}
use gateway_orchestrator.Controller.Claim.Ownership.{own_ref}
use gateway_orchestrator.Controller.Reconcile.{reconcile, reconcile_normal}
use gateway_orchestrator.Controller.Footprint.{Footprint, name_of_claim, Asks}
use gateway_orchestrator.Controller.Footprint.Owners.{Moves, reconcile_refines}
use gateway_orchestrator.Controller.Footprint.Steady.{Steady}
use gateway_orchestrator.Controller.Footprint.Exclusive.{
  rival_runs, elsewhere, Turns, begin, turn, provisioned_exclusive,
}
use gateway_orchestrator.Tests.Memory.{World, named, server}
use gateway_orchestrator.Tests.Store.{claim_store, owner_in}
use gateway_orchestrator.Tests.Data.{reconciler, shop, rival, claimed_world, in_world}
use gateway_orchestrator.Tests.Ready.{start, comes_to_its_end}

any_names : (records : List ValidationRecord) → All (λ v. Unit {0}) records
any_names [] = tt
any_names (v ∷ records) = (tt, any_names records)

-- No call but those on claims writes the claims of the world in memory.
abbrev server_frames : (spec : RequestSpec) → Footprint server owner_in spec (λ _. Unit {0})
server_frames spec = record {
  own_hostname = tt;
  get_request = λ k w. ground arith;
  update_request = λ g w. ground arith;
  update_status = λ g w. ground arith;
  list_requests = λ w. refl;
  get_gateway = λ k w. ground arith;
  create_gateway = λ g w. ground arith;
  update_gateway = λ g w. ground arith;
  delete_gateway = λ g w. ground arith;
  list_gateways = λ n w. refl;
  get_config = λ k w. ground arith;
  create_config = λ c w. ground arith;
  update_config = λ c w. ground arith;
  delete_config = λ c w. ground arith;
  get_namespace = λ k w. ground arith;
  update_namespace = λ n w. ground arith;
  event = λ g t reason message w. refl;
  request_certificate = λ d tags w. refl;
  describe = λ a w. refl;
  delete_certificate = λ a w. refl;
  get_validation = λ a w. refl;
  create_record = λ d w h. refl;
  delete_record = λ d w h. refl;
  validation_names = λ a w records h. any_names records;
  request_same = λ g w g' h. (ground arith, ground arith);
  status_same = λ g w g' h. (ground arith, ground arith);
}

abbrev shop_key : NamespacedName
shop_key = record { namespace = "shop"; name = "web" }

abbrev rival_key : NamespacedName
rival_key = record { namespace = "rival"; name = "web" }

reads_shop :
    (g : Request)
    → (server.requests.get shop_key (claimed_world (shop ∷ []))).0 ≡ ok g
    → Asks shop.spec (own_ref shop) g
unfolding named string_dec
reads_shop g h = let same : g ≡ shop = cc in rw same (refl, refl)

reconcile_refines_example :
    Moves
      (name_of_claim shop.spec)
      (own_ref shop)
      (owner_in (claimed_world (shop ∷ [])))
      (owner_in (reconcile reconciler shop_key (claimed_world (shop ∷ []))).1)
reconcile_refines_example =
    reconcile_refines reconciler claim_store shop_key (claimed_world (shop ∷ []))
      (server_frames shop.spec) reads_shop

-- The world that the shop's run has left, and the one after a run for the rival and the loss of
-- all gateways.
abbrev shop_won : World
shop_won = (reconcile_normal reconciler start).1.world

abbrev rival_ran : World
rival_ran = (reconcile reconciler rival_key shop_won).1

abbrev gateways_lost : World
gateways_lost = record rival_ran { gateways = [] }

named-name :
    {O : Type 0} (name_of : O → String) (n : String) (l : List O) (o : O)
    → named name_of n l ≡ some o
    → name_of o ≡ n
unfolding named
named-name name_of n [] o h = cc
named-name name_of n (x ∷ l) o h = ground (arith, named-name name_of n l o)

abbrev full_name : Request → String
full_name g = g.meta.namespace <> "/" <> g.meta.name

read-full_name :
    (w : World) (g : Request)
    → (server.requests.get rival_key w).0 ≡ ok g
    → full_name g ≡ "rival/web"
read-full_name w g h = elim (Option-cases (named full_name "rival/web" w.requests)) [
  | inl e ↦ absurd (ground arith)
  | inr (d, e) ↦ ground (arith, named-name full_name "rival/web" w.requests d e)
]

not_shop :
    (w : World) (g : Request)
    → (server.requests.get rival_key w).0 ≡ ok g
    → own_ref g ≢ own_ref shop
not_shop w g h same =
    let theirs = read-full_name w g h in
    let ours : full_name g ≡ "shop/web" =
      rw (ap (λ o. o.namespace) same, ap (λ o. o.name) same) refl in
    let clash : "rival/web" ≡ "shop/web" = sym theirs ∙ ours in cc

turns :
    Turns reconciler claim_store server_frames
      (claim_name shop)
      (own_ref shop)
      shop_won
      gateways_lost
turns =
    turn (turn begin (rival_runs rival_key (λ g h same. absurd (not_shop shop_won g h same)) refl))
      (elsewhere refl)

provisioned_exclusive_example :
    (owner_in gateways_lost (claim_name shop) ≡ some (own_ref shop))
    × ((reconcile_normal reconciler (in_world rival gateways_lost)).0 ≢ ok tt)
provisioned_exclusive_example =
    provisioned_exclusive reconciler claim_store server_frames start (in_world rival gateways_lost)
      comes_to_its_end turns refl (λ e. cc)

-- The shop as it stands in the data is steady, so its own runs are turns too.
shop-Steady : Steady reconciler claim_store server_frames shop
unfolding named string_dec
shop-Steady = record { not_deleted = refl; finalizer = refl; no_drift = inl refl }
