-- ===== src/Api/DeepCopy/Requests.antt =====
-- The deep copies of GatewayHostnameRequest and of its parts.
use gateway_orchestrator.Prelude.{◌≡◌, ℕ, none, List, pure, ◌>>=◌}
use gateway_orchestrator.Api.DeepCopy.Heap.{Go}
use gateway_orchestrator.Api.DeepCopy.Linked.{Linked, Reading}
use gateway_orchestrator.Api.DeepCopy.Fields.{one_copied, three_copied}
use gateway_orchestrator.Api.DeepCopy.Pointers.{nilable, each, copy_nilable}
use gateway_orchestrator.Api.DeepCopy.Behind.{behind}
use gateway_orchestrator.Api.DeepCopy.Types.{
  SpecStruct, StatusStruct, RequestStruct, MetaTypes, Cells,
}

-- The fields without pointers.
abbrev pub settings : {S : Type 0} → SpecStruct S → SpecStruct (Unit {0})
settings s = record {
  zone_id = s.zone_id;
  hostname = s.hostname;
  environment = s.environment;
  visibility = s.visibility;
  gateway_class = s.gateway_class;
  gateway_selector = none;
  waf_arn = s.waf_arn;
}

abbrev pub observations : {C : Type 0} → StatusStruct C → StatusStruct (Unit {0})
observations s = record {
  observed_generation = s.observed_generation;
  observed_spec_hash = s.observed_spec_hash;
  assigned_gateway = s.assigned_gateway;
  assigned_gateway_namespace = s.assigned_gateway_namespace;
  assigned_load_balancer = s.assigned_load_balancer;
  certificate_arn = s.certificate_arn;
  conditions = none;
}

module _ {Cell : Type 0} (lib : MetaTypes Cell) (cells : Cells lib) where
  -- `*metav1.LabelSelector`
  abbrev pub selectors : Linked Cell
  selectors = nilable (behind lib.label_selector cells.selector)

  abbrev pub request_spec_into : SpecStruct ℕ → Go Cell (SpecStruct ℕ)
  request_spec_into s = do
    gateway_selector ← copy_nilable (behind lib.label_selector cells.selector) s.gateway_selector
    pure (record s { gateway_selector = gateway_selector })

  abbrev pub ReadsSpec : Reading Cell (SpecStruct ℕ) (SpecStruct lib.label_selector.Seen)
  ReadsSpec lo hi h s v =
      selectors.Reads lo hi h s.gateway_selector v.gateway_selector × (settings s ≡ settings v)

  abbrev pub request_spec : Linked Cell
  request_spec = record {
    Held = SpecStruct ℕ;
    Seen = SpecStruct lib.label_selector.Seen;
    Reads = ReadsSpec;
    carry = λ g h s v l u e (p, q).
        (selectors.carry g h s.gateway_selector v.gateway_selector l u e p, q);
    copy = request_spec_into;
    copied = λ h s v (p, q).
        one_copied selectors (λ x. record s { gateway_selector = x }) ReadsSpec v h
          s.gateway_selector v.gateway_selector p (λ lo hi g x' p'. (p', q));
  }

  -- `[]metav1.Condition`
  abbrev pub conditions : Linked Cell
  conditions = nilable (behind (each lib.condition) cells.conditions)

  abbrev pub request_status_into : StatusStruct ℕ → Go Cell (StatusStruct ℕ)
  request_status_into s = do
    copies ← copy_nilable (behind (each lib.condition) cells.conditions) s.conditions
    pure (record s { conditions = copies })

  abbrev pub ReadsStatus : Reading Cell (StatusStruct ℕ) (StatusStruct (List lib.condition.Seen))
  ReadsStatus lo hi h s v =
      conditions.Reads lo hi h s.conditions v.conditions × (observations s ≡ observations v)

  abbrev pub request_status : Linked Cell
  request_status = record {
    Held = StatusStruct ℕ;
    Seen = StatusStruct (List lib.condition.Seen);
    Reads = ReadsStatus;
    carry = λ g h s v l u e (p, q). (conditions.carry g h s.conditions v.conditions l u e p, q);
    copy = request_status_into;
    copied = λ h s v (p, q).
        one_copied conditions (λ x. record s { conditions = x }) ReadsStatus v h s.conditions
          v.conditions p (λ lo hi g x' p'. (p', q));
  }

  abbrev pub HeldRequest : Type 0
  HeldRequest = RequestStruct lib.object_meta.Held ℕ ℕ

  abbrev pub SeenRequest : Type 0
  SeenRequest = RequestStruct lib.object_meta.Seen lib.label_selector.Seen (List lib.condition.Seen)

  abbrev pub request_into : HeldRequest → Go Cell HeldRequest
  request_into r = do
    object_meta ← lib.object_meta.copy r.object_meta
    spec ← request_spec_into r.spec
    status ← request_status_into r.status
    pure (record r {
      type_meta = r.type_meta;
      object_meta = object_meta;
      spec = spec;
      status = status;
    })

  abbrev pub ReadsRequest : Reading Cell HeldRequest SeenRequest
  ReadsRequest lo hi h r v =
      lib.object_meta.Reads lo hi h r.object_meta v.object_meta
      × ReadsSpec lo hi h r.spec v.spec
      × ReadsStatus lo hi h r.status v.status
      × (r.type_meta ≡ v.type_meta)

  abbrev pub request : Linked Cell
  request = record {
    Held = HeldRequest;
    Seen = SeenRequest;
    Reads = ReadsRequest;
    carry = λ g h r v l u e (p, q, k, t). (
      lib.object_meta.carry g h r.object_meta v.object_meta l u e p,
      request_spec.carry g h r.spec v.spec l u e q,
      request_status.carry g h r.status v.status l u e k,
      t,
    );
    copy = request_into;
    copied = λ h r v (p, q, k, t).
        three_copied lib.object_meta request_spec request_status
          (λ m s st. record r { object_meta = m; spec = s; status = st }) ReadsRequest v h
          r.object_meta v.object_meta r.spec v.spec r.status v.status p q k
          (λ lo hi g x y z p' q' k'. (p', q', k', t));
  }
