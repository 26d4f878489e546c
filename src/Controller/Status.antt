-- ===== src/Controller/Status.antt =====
-- internal/controller/gatewayhostnamerequest_controller.go: the request's status, its conditions
-- and events, the spec's hash and its validation.
use gateway_orchestrator.Prelude.{
  String, ◌<>◌, Bool, Exec, Result, ok, err, ◌>>◌, raise, attempt, map_err, gets, take, ◌==◌,
  if◌then◌else◌,
}
use gateway_orchestrator.Go.Format.{hex_encode}
use gateway_orchestrator.Api.Meta.{Error, errorf, error_text}
use gateway_orchestrator.Api.Request.{Request, RequestSpec}
use gateway_orchestrator.Services.{Library, EventType, warning}
use gateway_orchestrator.Controller.Types.{Reconciler, State, Action, Handler, failed}

-- `computeSpecHash`: the first eight bytes of the hash.
unfoldable pub compute_spec_hash : Library → RequestSpec → String
compute_spec_hash lib spec = hex_encode (
    take 8 (
      lib.sum256 (
        spec.hostname <> "|" <> spec.zone_id <> "|" <> spec.visibility <> "|"
        <> spec.gateway_class)))

-- `validateRequest`
unfoldable pub validate_request : Request → Result Error (Unit {0})
validate_request ghr =
    if ghr.spec.zone_id == ""
    then err (errorf "zoneId is required")
    else if ghr.spec.hostname == ""
    then err (errorf "hostname is required")
    else ok tt

module _ {W : Type 0} (r : Reconciler W) where
  open r use {library as lib, services as sv}

  -- `setCondition`
  unfoldable pub set_condition :
      {E : Type 0} → String → String → String → String → Exec (State W) E (Unit {0})
  set_condition type status reason message s = (
    ok tt,
    record s {
      ghr = record (s.ghr) {
        status = record (s.ghr.status) {
          conditions = lib.set_status_condition s.ghr.status.conditions (record {
            type = type;
            status = status;
            observed_generation = s.ghr.meta.generation;
            reason = reason;
            message = message;
          });
        };
      };
    },
  )

  -- `r.Status().Update(ctx, ghr)`: the request becomes what the server sends back.
  unfoldable pub update_status : Action W (Unit {0})
  update_status s =
      let (result, w) = sv.update_status s.ghr s.world in
      elim result [
        | ok g ↦ (ok tt, record { ghr = g; world = w })
        | err e ↦ (err e, record s { world = w })
      ]

  -- `r.Recorder.Event` and `Eventf`
  unfoldable pub emit : {E : Type 0} → EventType → String → String → Exec (State W) E (Unit {0})
  emit type reason message s =
      (ok tt, record s { world = sv.event s.ghr type reason message s.world })

  -- `meta.IsStatusConditionTrue(ghr.Status.Conditions, …)`
  unfoldable pub is_true : {E : Type 0} → String → Exec (State W) E Bool
  is_true type = gets (λ s. lib.is_status_condition_true s.ghr.status.conditions type)

  -- `_ = r.Status().Update(ctx, ghr)`
  unfoldable pub try_update_status : {E : Type 0} → Exec (State W) E (Result Error (Unit {0}))
  unfolding update_status
  try_update_status = attempt update_status

  -- The way that the steps of `reconcileNormal` fail: the condition is set to False and stored, if
  -- it can be; a warning is recorded; the error is returned.
  unfoldable pub reject : {A : Type 0} → String → String → String → String → Error → Handler W A
  unfolding set_condition try_update_status emit
  reject type reason event_reason text e = do
    set_condition type "False" reason (error_text e)
    try_update_status
    emit warning event_reason (text <> error_text e)
    raise (failed e)

-- `if err != nil { return ctrl.Result{}, err }`
abbrev pub must : {W A : Type 0} → Action W A → Handler W A
must m = map_err failed m
