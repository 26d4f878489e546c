-- ===== src/Controller/Reconcile/Holding.antt =====
-- Which conditions hold after the parts of a step that return.
use gateway_orchestrator.Prelude.{
  ◌≡◌, refl, ◌∙◌, String, Bool, true, false, Result-cases, String-cases, inl, inr, if◌then◌else◌,
  List, [], ◌∷◌, All, pure,
}
use gateway_orchestrator.Prelude.Triple.{Triple, Triple-bind, Triple-map_err}
use gateway_orchestrator.Api.Meta.{Error, Condition}
use gateway_orchestrator.Api.Request.{Request, RequestSpec, RequestStatus}
use gateway_orchestrator.Services.{EventType, normal}
use gateway_orchestrator.Services.Laws.{StatusStore}
use gateway_orchestrator.Controller.Types.{Reconciler, State, Outcome, Handler, failed}
use gateway_orchestrator.Controller.Status.{
  compute_spec_hash, set_condition, emit, update_status, must, is_true, reject, try_update_status,
}
use gateway_orchestrator.Controller.Steps.{succeed, unless, wait}

module _ {W : Type 0} (r : Reconciler W) (store : StatusStore r.library r.services) where
  open r use {library as lib, services as sv}

  -- The conditions of these types are all true.
  abbrev pub AllHold : List String → RequestStatus → Type 0
  AllHold types st = All (λ t. lib.is_status_condition_true st.conditions t ≡ true) types

  abbrev pub Held : List String → State W → Type 0
  Held types s = AllHold types s.ghr.status

  keeps_others :
      (types : List String) (cs : List Condition) (c : Condition)
      → c.status ≡ "True"
      → All (λ t. lib.is_status_condition_true cs t ≡ true) types
      → All (λ t. lib.is_status_condition_true (lib.set_status_condition cs c) t ≡ true) types
  keeps_others [] cs c e h = tt
  keeps_others (t ∷ types) cs c e (h, k) = (
    elim (String-cases t c.type) [
      | inl same ↦ rw same (store.set_true cs c e)
      | inr n ↦ store.set_others cs c t n ∙ h
    ],
    keeps_others types cs c e k,
  )

  set-Held :
      (types : List String) (type reason message : String)
      → Triple
          (Held types)
          (set_condition r {E = Outcome} type "True" reason message)
          (λ a s. Held (type ∷ types) s)
  unfolding set_condition
  set-Held types type reason message = record {
    at = λ s p a h. (store.set_true _ _ refl, keeps_others types _ _ refl p);
  }

  emit-Held :
      (P : State W → Type 0) (k : (s : State W) (w : W) → P s → P (record s { world = w }))
      (e : EventType) (reason message : String)
      → Triple P (emit r {E = Outcome} e reason message) (λ a s. P s)
  unfolding emit
  emit-Held P k e reason message = record { at = λ s p a h. k s _ p }

  update_stored :
      (P : RequestSpec → RequestStatus → Type 0)
      → Triple (λ s. P s.ghr.spec s.ghr.status) (update_status r) (λ a s. P s.ghr.spec s.ghr.status)
  unfolding update_status
  update_stored P = record {
    at = λ s p a h. elim (Result-cases (sv.update_status s.ghr s.world).0) [
      | inl (g, e) ↦
          let (status, spec) = store.update_echo s.ghr s.world g e in
          rw (update_status, e) (rw (status, spec) p)
      | inr (x, e) ↦ absurd (cc (rw (update_status, e) at h))
    ];
  }

  update-Held :
      (P : RequestSpec → RequestStatus → Type 0)
      → Triple
          (λ s. P s.ghr.spec s.ghr.status)
          (must (update_status r))
          (λ a s. P s.ghr.spec s.ghr.status)
  update-Held P = Triple-map_err failed (update_status r) (update_stored P)

  -- The observed hash is that of the request's spec.
  abbrev pub Fresh : Request → Type 0
  Fresh ghr = ghr.status.observed_spec_hash ≡ compute_spec_hash lib ghr.spec

  pub succeed-Fresh :
      (type reason message event_reason event_message : String)
      → Triple
          (λ s. Fresh s.ghr)
          (succeed r type reason message event_reason event_message)
          (λ a s. Fresh s.ghr)
  unfolding succeed set_condition
  succeed-Fresh type reason message event_reason event_message =
      Triple-bind (set_condition r type "True" reason message) _ (record { at = λ s p a h. p })
        (λ _.
          Triple-bind (emit r normal event_reason event_message) _
            (emit-Held (λ s. Fresh s.ghr) (λ s w p. p) normal event_reason event_message)
            (λ _. update-Held (λ spec st. st.observed_spec_hash ≡ compute_spec_hash lib spec)))

  pub succeed-Held :
      (types : List String) (type reason message event_reason event_message : String)
      → Triple
          (Held types)
          (succeed r type reason message event_reason event_message)
          (λ a s. Held (type ∷ types) s)
  unfolding succeed
  succeed-Held types type reason message event_reason event_message =
      Triple-bind (set_condition r type "True" reason message) _
        (set-Held types type reason message)
        (λ _.
          Triple-bind (emit r normal event_reason event_message) _
            (emit-Held (Held (type ∷ types)) (λ s w p. p) normal event_reason event_message)
            (λ _. update-Held (λ spec st. AllHold (type ∷ types) st)))

  pub reject-Held :
      (P : State W → Type 0) (Q : Unit {0} → State W → Type 0)
      (type reason event_reason text : String) (e : Error)
      → Triple P (reject r type reason event_reason text e) Q
  unfolding reject
  reject-Held P Q type reason event_reason text e = record { at = λ s p a h. absurd (cc) }

  pub wait-Held :
      (P : State W → Type 0) (Q : Unit {0} → State W → Type 0) (type reason message : String)
      → Triple P (wait r type reason message) Q
  unfolding wait set_condition try_update_status
  wait-Held P Q type reason message = record { at = λ s p a h. absurd (cc) }

  guarded-Held :
      (types : List String) (type : String) (step : Handler W (Unit {0}))
      → Triple (Held types) step (λ a s. Held (type ∷ types) s)
      → (b : Bool)
      → Triple
          (λ s. Held types s × (lib.is_status_condition_true s.ghr.status.conditions type ≡ b))
          (if b then pure tt else step)
          (λ a s. Held (type ∷ types) s)
  guarded-Held types type step t true = record { at = λ s (p, e) a h. (e, p) }
  guarded-Held types type step t false = record { at = λ s (p, e). t.at s p }

  pub unless-Held :
      (types : List String) (type : String) (step : Handler W (Unit {0}))
      → Triple (Held types) step (λ a s. Held (type ∷ types) s)
      → Triple (Held types) (unless r type step) (λ a s. Held (type ∷ types) s)
  unfolding unless is_true
  unless-Held types type step t =
      Triple-bind (is_true r type) _ (record { at = λ s p b h. (p, cc h) })
        (guarded-Held types type step t)
