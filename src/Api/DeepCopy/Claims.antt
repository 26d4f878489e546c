-- ===== src/Api/DeepCopy/Claims.antt =====
-- The deep copies of DomainClaim, of its parts and of its list, and of any list.
use gateway_orchestrator.Prelude.{◌≡◌, ℕ, Option, List, pure, ◌>>=◌}
use gateway_orchestrator.Api.DeepCopy.Heap.{Go, Stored}
use gateway_orchestrator.Api.DeepCopy.Linked.{Linked, Reading}
use gateway_orchestrator.Api.DeepCopy.Fields.{one_copied, two_copied}
use gateway_orchestrator.Api.DeepCopy.Pointers.{nilable, each, copy_nilable}
use gateway_orchestrator.Api.DeepCopy.Behind.{behind}
use gateway_orchestrator.Api.DeepCopy.Types.{ClaimStatus, ClaimStruct, ListStruct, MetaTypes}

module _ {Cell : Type 0} where
  -- `DeepCopy` of a type with a `DeepCopyInto`: nil of nil, otherwise a new one.
  abbrev pub deep_copy : (A : Linked Cell) → Stored Cell A.Held → Option ℕ → Go Cell (Option ℕ)
  deep_copy A cells = copy_nilable (behind A cells)

module _ {Cell : Type 0} (lib : MetaTypes Cell) where
  abbrev pub claim_status_into : ClaimStatus lib.time.Held → Go Cell (ClaimStatus lib.time.Held)
  claim_status_into s = do
    claimed_at ← copy_nilable lib.time s.claimed_at
    pure (record s { claimed_at = claimed_at })

  abbrev pub claim_status : Linked Cell
  claim_status = record {
    Held = ClaimStatus lib.time.Held;
    Seen = ClaimStatus lib.time.Seen;
    Reads = λ lo hi h s v. (nilable lib.time).Reads lo hi h s.claimed_at v.claimed_at;
    carry = λ g h x v. (nilable lib.time).carry g h x.claimed_at v.claimed_at;
    copy = claim_status_into;
    copied = λ h s v p.
        one_copied (nilable lib.time) (λ t. record s { claimed_at = t })
          (λ lo hi g s' v'. (nilable lib.time).Reads lo hi g s'.claimed_at v'.claimed_at) v h
          s.claimed_at v.claimed_at p (λ lo hi g x' q. q);
  }

  abbrev pub claim_into :
      ClaimStruct lib.object_meta.Held lib.time.Held
      → Go Cell (ClaimStruct lib.object_meta.Held lib.time.Held)
  claim_into c = do
    object_meta ← lib.object_meta.copy c.object_meta
    status ← claim_status_into c.status
    pure (record c {
      type_meta = c.type_meta;
      object_meta = object_meta;
      spec = c.spec;
      status = status;
    })

  abbrev pub ReadsClaim :
      Reading Cell
        (ClaimStruct lib.object_meta.Held lib.time.Held)
        (ClaimStruct lib.object_meta.Seen lib.time.Seen)
  ReadsClaim lo hi h c v =
      lib.object_meta.Reads lo hi h c.object_meta v.object_meta
      × claim_status.Reads lo hi h c.status v.status
      × (c.type_meta ≡ v.type_meta)
      × (c.spec ≡ v.spec)

  abbrev pub claim : Linked Cell
  claim = record {
    Held = ClaimStruct lib.object_meta.Held lib.time.Held;
    Seen = ClaimStruct lib.object_meta.Seen lib.time.Seen;
    Reads = ReadsClaim;
    carry = λ g h c v l u e (p, q, r, t). (
      lib.object_meta.carry g h c.object_meta v.object_meta l u e p,
      claim_status.carry g h c.status v.status l u e q,
      r,
      t,
    );
    copy = claim_into;
    copied = λ h c v (p, q, r, t).
        two_copied lib.object_meta claim_status (λ m s. record c { object_meta = m; status = s })
          ReadsClaim v h c.object_meta v.object_meta c.status v.status p q
          (λ lo hi g x y p' q'. (p', q', r, t));
  }

  -- The list kinds, over their elements.
  module _ (A : Linked Cell) (cells : Stored Cell (List A.Held)) where
    abbrev pub list_into :
        ListStruct lib.list_meta.Held ℕ → Go Cell (ListStruct lib.list_meta.Held ℕ)
    list_into l = do
      list_meta ← lib.list_meta.copy l.list_meta
      items ← copy_nilable (behind (each A) cells) l.items
      pure (record l { type_meta = l.type_meta; list_meta = list_meta; items = items })

    abbrev pub ReadsList :
        Reading Cell (ListStruct lib.list_meta.Held ℕ) (ListStruct lib.list_meta.Seen (List A.Seen))
    ReadsList lo hi h l v =
        lib.list_meta.Reads lo hi h l.list_meta v.list_meta
        × (nilable (behind (each A) cells)).Reads lo hi h l.items v.items
        × (l.type_meta ≡ v.type_meta)

    abbrev pub list_of : Linked Cell
    list_of = record {
      Held = ListStruct lib.list_meta.Held ℕ;
      Seen = ListStruct lib.list_meta.Seen (List A.Seen);
      Reads = ReadsList;
      carry = λ g h l v b u e (p, q, r). (
        lib.list_meta.carry g h l.list_meta v.list_meta b u e p,
        (nilable (behind (each A) cells)).carry g h l.items v.items b u e q,
        r,
      );
      copy = list_into;
      copied = λ h l v (p, q, r).
          two_copied lib.list_meta (nilable (behind (each A) cells))
            (λ m i. record l { list_meta = m; items = i }) ReadsList v h l.list_meta v.list_meta
            l.items v.items p q (λ lo hi g x y p' q'. (p', q', r));
    }
