-- ===== src/Controller/Types.antt =====
-- The reconciler, the results of its handlers, and the state of one run: the request object that
-- the handlers share by a pointer, and the world.
use gateway_orchestrator.Prelude.{
  ℕ, String, Bool, true, false, Option, none, some, Exec, ok, gets, ◌==◌, if◌then◌else◌,
}
use gateway_orchestrator.Api.Meta.{Error}
use gateway_orchestrator.Api.Request.{Request, RequestStatus}
use gateway_orchestrator.Services.{Services, Library}
use gateway_orchestrator.Pool.{Pool}

-- `GatewayHostnameRequestReconciler`. The pool is set by `main`, so it is no option here.
pub record Reconciler (W : Type 0) : Type 0 where
  pub library : Library
  pub services : Services W
  pub gateway_pool : Pool

-- `ctrl.Result` with the error: `requeue_after` in seconds.
pub record Outcome : Type 0 where
  pub requeue : Bool
  pub requeue_after : ℕ
  pub error : Option Error

-- `return ctrl.Result{}, nil`, `ctrl.Result{}, err`, `ctrl.Result{RequeueAfter: n}, nil`,
-- `ctrl.Result{Requeue: true}, nil`
abbrev pub done : Outcome
done = record { requeue = false; requeue_after = 0; error = none }

abbrev pub failed : Error → Outcome
failed e = record { requeue = false; requeue_after = 0; error = some e }

abbrev pub after : ℕ → Outcome
after n = record { requeue = false; requeue_after = n; error = none }

abbrev pub again : Outcome
again = record { requeue = true; requeue_after = 0; error = none }

pub record State (W : Type 0) : Type 0 where
  pub ghr : Request
  pub world : W

-- A function that may change the request, and one that may also return from `Reconcile`.
abbrev pub Action : Type 0 → Type 0 → Type 0
Action W A = Exec (State W) Error A

abbrev pub Handler : Type 0 → Type 0 → Type 0
Handler W A = Exec (State W) Outcome A

module _ {W E A : Type 0} where
  -- A call that takes the request by value.
  abbrev pub call : (Request → Exec W E A) → Exec (State W) E A
  call f s = let (r, w) = f s.ghr s.world in (r, record s { world = w })

abbrev pub change_status :
    {W E : Type 0} → (RequestStatus → RequestStatus) → Exec (State W) E (Unit {0})
change_status f s = (ok tt, record s { ghr = record (s.ghr) { status = f s.ghr.status } })

abbrev pub status_of : {W E : Type 0} → Exec (State W) E RequestStatus
status_of = gets (λ s. s.ghr.status)

-- `FinalizerName` and the types of conditions.
abbrev pub finalizer_name : String
finalizer_name = "gateway-orchestrator.opendi.com/finalizer"

abbrev pub type_claimed : String
type_claimed = "Claimed"

abbrev pub type_certificate_requested : String
type_certificate_requested = "CertificateRequested"

abbrev pub type_dns_validated : String
type_dns_validated = "DnsValidated"

abbrev pub type_certificate_issued : String
type_certificate_issued = "CertificateIssued"

abbrev pub type_listener_attached : String
type_listener_attached = "ListenerAttached"

abbrev pub type_dns_alias_ready : String
type_dns_alias_ready = "DnsAliasReady"

abbrev pub type_ready : String
type_ready = "Ready"

abbrev pub type_deleting : String
type_deleting = "Deleting"

-- An unset visibility reads as the default.
abbrev pub visibility_or_default : String → String
visibility_or_default v = if v == "" then "internet-facing" else v
