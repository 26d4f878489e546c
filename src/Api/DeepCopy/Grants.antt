-- ===== src/Api/DeepCopy/Grants.antt =====
-- The deep copies of HostnameGrant and of its parts.
use gateway_orchestrator.Prelude.{◌≡◌, String, ℕ, List, pure, ◌>>=◌}
use gateway_orchestrator.Api.DeepCopy.Heap.{Go}
use gateway_orchestrator.Api.DeepCopy.Linked.{Linked, Reading}
use gateway_orchestrator.Api.DeepCopy.Fields.{one_copied, three_copied}
use gateway_orchestrator.Api.DeepCopy.Pointers.{plain, nilable, copy_nilable}
use gateway_orchestrator.Api.DeepCopy.Behind.{behind}
use gateway_orchestrator.Api.DeepCopy.Types.{GrantSpec, GrantStatus, GrantStruct, MetaTypes, Cells}

module _ {Cell : Type 0} (lib : MetaTypes Cell) (cells : Cells lib) where
  -- `[]string`
  abbrev pub hostnames : Linked Cell
  hostnames = nilable (behind (plain (List String)) cells.strings)

  abbrev pub grant_spec_into : GrantSpec ℕ → Go Cell (GrantSpec ℕ)
  grant_spec_into s = do
    copies ← copy_nilable (behind (plain (List String)) cells.strings) s.hostnames
    pure (record s { hostnames = copies })

  abbrev pub ReadsGrantSpec : Reading Cell (GrantSpec ℕ) (GrantSpec (List String))
  ReadsGrantSpec lo hi h s v =
      hostnames.Reads lo hi h s.hostnames v.hostnames × (s.namespace ≡ v.namespace)

  abbrev pub grant_spec : Linked Cell
  grant_spec = record {
    Held = GrantSpec ℕ;
    Seen = GrantSpec (List String);
    Reads = ReadsGrantSpec;
    carry = λ g h s v l u e (p, q). (hostnames.carry g h s.hostnames v.hostnames l u e p, q);
    copy = grant_spec_into;
    copied = λ h s v (p, q).
        one_copied hostnames (λ x. record s { hostnames = x }) ReadsGrantSpec v h s.hostnames
          v.hostnames p (λ lo hi g x' p'. (p', q));
  }

  abbrev pub grant_status_into : GrantStatus lib.time.Held → Go Cell (GrantStatus lib.time.Held)
  grant_status_into s = do
    granted_at ← copy_nilable lib.time s.granted_at
    pure (record s { granted_at = granted_at })

  abbrev pub ReadsGrantStatus : Reading Cell (GrantStatus lib.time.Held) (GrantStatus lib.time.Seen)
  ReadsGrantStatus lo hi h s v = (nilable lib.time).Reads lo hi h s.granted_at v.granted_at

  abbrev pub grant_status : Linked Cell
  grant_status = record {
    Held = GrantStatus lib.time.Held;
    Seen = GrantStatus lib.time.Seen;
    Reads = ReadsGrantStatus;
    carry = λ g h s v. (nilable lib.time).carry g h s.granted_at v.granted_at;
    copy = grant_status_into;
    copied = λ h s v p.
        one_copied (nilable lib.time) (λ t. record s { granted_at = t }) ReadsGrantStatus v h
          s.granted_at v.granted_at p (λ lo hi g x' q. q);
  }

  abbrev pub HeldGrant : Type 0
  HeldGrant = GrantStruct lib.object_meta.Held ℕ lib.time.Held

  abbrev pub SeenGrant : Type 0
  SeenGrant = GrantStruct lib.object_meta.Seen (List String) lib.time.Seen

  abbrev pub grant_into : HeldGrant → Go Cell HeldGrant
  grant_into r = do
    object_meta ← lib.object_meta.copy r.object_meta
    spec ← grant_spec_into r.spec
    status ← grant_status_into r.status
    pure (record r {
      type_meta = r.type_meta;
      object_meta = object_meta;
      spec = spec;
      status = status;
    })

  abbrev pub ReadsGrant : Reading Cell HeldGrant SeenGrant
  ReadsGrant lo hi h r v =
      lib.object_meta.Reads lo hi h r.object_meta v.object_meta
      × ReadsGrantSpec lo hi h r.spec v.spec
      × ReadsGrantStatus lo hi h r.status v.status
      × (r.type_meta ≡ v.type_meta)

  abbrev pub grant : Linked Cell
  grant = record {
    Held = HeldGrant;
    Seen = SeenGrant;
    Reads = ReadsGrant;
    carry = λ g h r v l u e (p, q, k, t). (
      lib.object_meta.carry g h r.object_meta v.object_meta l u e p,
      grant_spec.carry g h r.spec v.spec l u e q,
      grant_status.carry g h r.status v.status l u e k,
      t,
    );
    copy = grant_into;
    copied = λ h r v (p, q, k, t).
        three_copied lib.object_meta grant_spec grant_status
          (λ m s st. record r { object_meta = m; spec = s; status = st }) ReadsGrant v h
          r.object_meta v.object_meta r.spec v.spec r.status v.status p q k
          (λ lo hi g x y z p' q' k'. (p', q', k', t));
  }
