-- ===== src/Controller/Progress/Defs.antt =====
-- What makes controller-runtime run a request again, and the calls whose errors do.
use gateway_orchestrator.Prelude.{ℕ, ◌<◌, String, ◌<>◌}
use gateway_orchestrator.Prelude.Stopping.{
  Stops, Stops-bind, Stops-map_err, Stops-attempt, Stops-raise,
}
use gateway_orchestrator.Api.Meta.{Error, error_text}
use gateway_orchestrator.Api.Request.{RequestStatus}
use gateway_orchestrator.Services.{EventType, warning}
use gateway_orchestrator.Controller.Types.{
  Reconciler, State, Action, Outcome, failed, after, again, change_status,
}
use gateway_orchestrator.Controller.Status.{
  set_condition, try_update_status, emit, is_true, reject, must,
}

-- Results after which controller-runtime runs the request again: an error, a delay, or at once.
pub data Retried : Outcome → Type 0 where
  on_error : (e : Error) → Retried (failed e)
  later : (seconds : ℕ) → 0 < seconds → Retried (after seconds)
  at_once : Retried again

module _ {W : Type 0} (r : Reconciler W) where
  pub must-Retried : {A : Type 0} (m : Action W A) → Stops Retried (must m)
  must-Retried m = Stops-map_err failed m on_error

  pub set_condition-Retried :
      (type status reason message : String)
      → Stops Retried (set_condition r type status reason message)
  unfolding set_condition
  set_condition-Retried type status reason message = record { at = λ s e h. absurd (cc) }

  pub try_update-Retried : Stops Retried (try_update_status r)
  unfolding try_update_status
  try_update-Retried = Stops-attempt _

  pub emit-Retried :
      (type : EventType) (reason message : String) → Stops Retried (emit r type reason message)
  unfolding emit
  emit-Retried type reason message = record { at = λ s e h. absurd (cc) }

  pub is_true-Retried : (type : String) → Stops Retried (is_true r type)
  unfolding is_true
  is_true-Retried type = record { at = λ s e h. absurd (cc) }

  pub change_status-Retried :
      (f : RequestStatus → RequestStatus) → Stops {S = State W} Retried (change_status f)
  change_status-Retried f = record { at = λ s e h. absurd (cc) }

  pub reject-Retried :
      {A : Type 0} (type reason event_reason text : String) (e : Error)
      → Stops Retried (reject r {A = A} type reason event_reason text e)
  unfolding reject
  reject-Retried type reason event_reason text e =
      Stops-bind _ _ (set_condition-Retried type "False" reason (error_text e)) (λ _.
        Stops-bind _ _ try_update-Retried (λ _.
          Stops-bind _ _ (emit-Retried warning event_reason (text <> error_text e))
            (λ _. Stops-raise (failed e) (on_error e))))
