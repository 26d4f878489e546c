-- ===== src/Controller/Cleanup/Empty.antt =====
-- When a gateway is deleted for want of requests.
use gateway_orchestrator.Prelude.{
  ◌≡◌, refl, ◌↔◌, String, Bool, true, false, not, List, [], ◌∷◌, ok, arith, ltb, Bool-cases, inl,
  inr, All, if◌then◌else◌, ◌<>◌, Exec, Result, err, ap, sym, Result-cases, ◌∙◌, pure, map_err,
}
use mathlib.Core.Path.{subst}
use gateway_orchestrator.Prelude.Triple.{bind_ok, bind_err}
use gateway_orchestrator.Api.Meta.{Error, wrap, NamespacedName}
use gateway_orchestrator.Services.{Objects}
use gateway_orchestrator.Api.Request.{Request}
use gateway_orchestrator.Controller.Types.{Reconciler}
use gateway_orchestrator.Controller.Cleanup.{
  is_excluded, is_assigned_to, count_assignments, none_assigned, delete_gateway, delete_if_found,
  cleanup_empty_gateway, is_gateway_empty,
}

-- Another request that is assigned to the gateway.
pub record Occupies (gateway namespace exclude_namespace exclude_name : String) (ghr : Request)
    : Type 0 where
  pub at_gateway : ghr.status.assigned_gateway ≡ gateway
  pub in_namespace : ghr.status.assigned_gateway_namespace ≡ namespace
  pub another : ¬ ((ghr.meta.namespace ≡ exclude_namespace) × (ghr.meta.name ≡ exclude_name))

module _ (gateway namespace exclude_namespace exclude_name : String) where
  abbrev pub Vacant : List Request → Type 0
  Vacant = All (λ ghr. ¬ Occupies gateway namespace exclude_namespace exclude_name ghr)

  -- The two loops agree.
  none_assigned-count :
      (items : List Request)
      → ltb 0 (count_assignments gateway namespace exclude_namespace exclude_name items)
        ≡ not (none_assigned gateway namespace exclude_namespace exclude_name items)
  unfolding count_assignments none_assigned
  none_assigned-count [] = refl
  none_assigned-count (ghr ∷ items) = ground (arith, none_assigned-count items)

  Occupies-of_tests :
      (ghr : Request)
      → is_excluded exclude_namespace exclude_name ghr ≡ false
      → is_assigned_to gateway namespace ghr ≡ true
      → Occupies gateway namespace exclude_namespace exclude_name ghr
  Occupies-of_tests ghr h k = record {
    at_gateway = ground arith;
    in_namespace = ground arith;
    another = λ (e, f). ground arith;
  }

  tests_of_Occupies :
      (ghr : Request)
      → Occupies gateway namespace exclude_namespace exclude_name ghr
      → (is_excluded exclude_namespace exclude_name ghr ≡ false)
        × (is_assigned_to gateway namespace ghr ≡ true)
  tests_of_Occupies ghr o = elim (Bool-cases (is_excluded exclude_namespace exclude_name ghr)) [
    | inl e ↦ absurd (o.another (ground arith, ground arith))
    | inr n ↦ (n, ground (arith, o.at_gateway, o.in_namespace))
  ]

  none_assigned_sound :
      (items : List Request)
      → none_assigned gateway namespace exclude_namespace exclude_name items ≡ true
      → Vacant items
  unfolding none_assigned
  none_assigned_sound [] h = tt
  none_assigned_sound (ghr ∷ items) h = (
    λ o. let (kept, here) = tests_of_Occupies ghr o in ground (arith, kept, here, h),
    none_assigned_sound items (ground arith),
  )

  none_assigned_complete :
      (items : List Request)
      → Vacant items
      → none_assigned gateway namespace exclude_namespace exclude_name items ≡ true
  unfolding none_assigned
  none_assigned_complete [] h = refl
  none_assigned_complete (ghr ∷ items) (h, rest) =
      let tail = none_assigned_complete items rest in
      elim (Bool-cases (is_excluded exclude_namespace exclude_name ghr)) [
        | inl e ↦ ground (arith, tail, e)
        | inr kept ↦ elim (Bool-cases (is_assigned_to gateway namespace ghr)) [
          | inl here ↦ absurd (h (Occupies-of_tests ghr kept here))
          | inr away ↦ ground (arith, tail, kept, away)
        ]
      ]

-- What becomes of one object, by the calls: `Get`, and where it is found `Delete`, whose error is
-- passed on with a text before it. An object that cannot be read is passed over.
pub data Removes {W O : Type 0} (objects : Objects W O) (message : String) (key : NamespacedName)
    (w : W) (out : Result Error (Unit {0}) × W) : Type 0 where
  deleted :
      {o : O} {w1 w2 : W}
      → objects.get key w ≡ (ok o, w1)
      → objects.delete o w1 ≡ (ok tt, w2)
      → out ≡ (ok tt, w2)
      → Removes objects message key w out
  kept :
      {o : O} {e : Error} {w1 w2 : W}
      → objects.get key w ≡ (ok o, w1)
      → objects.delete o w1 ≡ (err e, w2)
      → out ≡ (err (wrap message e), w2)
      → Removes objects message key w out
  gone :
      {e : Error} {w1 : W}
      → objects.get key w ≡ (err e, w1)
      → out ≡ (ok tt, w1)
      → Removes objects message key w out

with_result : {A B : Type 0} {x : A} (p : A × B) → p.0 ≡ x → p ≡ (x, p.1)
with_result p h = ap (λ a. (a, p.1)) h

module _ {W O : Type 0} (objects : Objects W O) (message : String) (key : NamespacedName)
    (w : W) where
  abbrev here : Exec W Error (Unit {0})
  here = delete_if_found objects message key

  abbrev read : W
  read = (objects.get key w).1

  abbrev branch : Result Error O → Exec W Error (Unit {0})
  branch found = elim found [ ok o ↦ map_err (wrap message) (objects.delete o) | err _ ↦ pure tt ]

  abbrev told : O → Result Error (Unit {0}) → Result Error (Unit {0}) × W
  told o x = map_err (wrap message) (λ (v : W). (x, v)) (objects.delete o read).1

  delete_if_found-Removes : Removes objects message key w (here w)
  unfolding delete_if_found
  delete_if_found-Removes = elim (Result-cases (objects.get key w).0) [
    | inr (e, x) ↦ Removes.gone (with_result (objects.get key w) x) (ap (λ a. branch a read) x)
    | inl (o, x) ↦ elim (Result-cases (objects.delete o read).0) [
      | inl (_, y) ↦
          Removes.deleted (with_result (objects.get key w) x)
            (with_result (objects.delete o read) y) (ap (λ a. branch a read) x ∙ ap (told o) y)
      | inr (e, y) ↦
          Removes.kept (with_result (objects.get key w) x) (with_result (objects.delete o read) y)
            (ap (λ a. branch a read) x ∙ ap (told o) y)
    ]
  ]

module _ {W : Type 0} (r : Reconciler W)
    (gateway namespace exclude_namespace exclude_name : String) where
  open r use {services as sv}

  abbrev config_key : NamespacedName
  config_key = record { namespace = namespace; name = gateway <> "-config" }

  abbrev gateway_key : NamespacedName
  gateway_key = record { namespace = namespace; name = gateway }

  abbrev config_message : String
  config_message = "failed to delete LoadBalancerConfiguration"

  abbrev gateway_message : String
  gateway_message = "failed to delete Gateway"

  -- The gateway is taken away: its configuration first, then the gateway itself; an error with the
  -- configuration is the end.
  pub data Deletes (w : W) (out : Result Error (Unit {0}) × W) : Type 0 where
    both :
        {w1 : W}
        → Removes sv.configs config_message config_key w (ok tt, w1)
        → Removes sv.gateways gateway_message gateway_key w1 out
        → Deletes w out
    stuck :
        {e : Error} {w1 : W}
        → Removes sv.configs config_message config_key w (err e, w1)
        → out ≡ (err e, w1)
        → Deletes w out

  delete_gateway-Deletes : (w : W) → Deletes w (delete_gateway r gateway namespace w)
  unfolding delete_gateway
  delete_gateway-Deletes w =
      let m = delete_if_found sv.configs config_message config_key in
      let k = delete_if_found sv.gateways gateway_message gateway_key in
      let first = delete_if_found-Removes sv.configs config_message config_key w in
      let then_gateway = delete_if_found-Removes sv.gateways gateway_message gateway_key (m w).1 in
      elim (Result-cases (m w).0) [
        | inl (_, x) ↦
            Deletes.both
              (subst (Removes sv.configs config_message config_key w) (with_result (m w) x) first)
              (subst (Removes sv.gateways gateway_message gateway_key (m w).1)
                (sym (bind_ok m (λ _. k) w tt x)) then_gateway)
        | inr (e, x) ↦
            Deletes.stuck
              (subst (Removes sv.configs config_message config_key w) (with_result (m w) x) first)
              (bind_err m (λ _. k) w e x)
      ]

  abbrev emptied : W → Result Error (Unit {0}) × W
  emptied = cleanup_empty_gateway r gateway namespace exclude_namespace exclude_name

  cleanup_of_empty :
      (empty : Bool) (w w' : W)
      → emptied w ≡ (if empty then delete_gateway r gateway namespace w' else (ok tt, w'))
      → (empty ≡ true → Deletes w' (emptied w)) × (empty ≡ false → emptied w ≡ (ok tt, w'))
  cleanup_of_empty true w w' h =
      (λ _. subst (Deletes w') (sym h) (delete_gateway-Deletes w'), λ e. absurd (cc))
  cleanup_of_empty false w w' h = (λ e. absurd (cc), λ _. h)

  -- Where the requests are read, `isGatewayEmpty` answers true exactly where no other request than
  -- the excluded one is assigned to the gateway. `cleanupEmptyGateway` in that case reads the
  -- gateway's configuration and deletes it, and, unless that deletion failed, reads the gateway and
  -- deletes it; an object that cannot be read is passed over, and an error of a deletion is its
  -- own. Where another request is assigned it returns with no further call.
  pub cleanup_empty_gateway_iff :
      (w : W) {w' : W} (items : List Request)
      → sv.list_requests w ≡ (ok items, w')
      → (empty : Bool) × (is_gateway_empty r gateway namespace exclude_namespace exclude_name w
          ≡ (ok empty, w'))
        × ((empty ≡ true) ↔ Vacant gateway namespace exclude_namespace exclude_name items)
        × ((empty ≡ true
              → Deletes w'
                  (cleanup_empty_gateway r gateway namespace exclude_namespace exclude_name w))
            × (empty ≡ false
                → cleanup_empty_gateway r gateway namespace exclude_namespace exclude_name w
                  ≡ (ok tt, w')))
  unfolding is_gateway_empty cleanup_empty_gateway
  cleanup_empty_gateway_iff w {w'} items listed =
      let agree = none_assigned-count gateway namespace exclude_namespace exclude_name items in
      let empty = none_assigned gateway namespace exclude_namespace exclude_name items in
      (
        empty,
        ground arith,
        (
          none_assigned_sound gateway namespace exclude_namespace exclude_name items,
          none_assigned_complete gateway namespace exclude_namespace exclude_name items,
        ),
        cleanup_of_empty empty w w' (ground (arith, agree)),
      )
