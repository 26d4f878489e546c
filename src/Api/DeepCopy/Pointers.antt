-- ===== src/Api/DeepCopy/Pointers.antt =====
-- Copies of a value without pointers, of what may be nil, and of elements one by one.
use gateway_orchestrator.Prelude.{
  ◌≡◌, refl, ℕ, ◌≤◌, arith, Option, none, some, List, [], ◌∷◌, ◌>>=◌, pure,
}
use gateway_orchestrator.Api.DeepCopy.Heap.{Heap, Go}
use gateway_orchestrator.Prelude.Running.{Runs, Runs-bind}
use gateway_orchestrator.Api.DeepCopy.Linked.{Agree, Reading, Copied, Linked}
use gateway_orchestrator.Api.DeepCopy.Fields.{one_copied, first, joined}

pub data Never : Type 0 where

-- `*out = *in` of a value without pointers.
abbrev pub plain : {Cell : Type 0} → Type 0 → Linked Cell
plain T = record {
  Held = T;
  Seen = T;
  Reads = λ lo hi h x v. x ≡ v;
  carry = λ g h x v l u e p. p;
  copy = pure;
  copied = λ h x v p. record {
    result = x;
    final = h;
    runs = refl;
    post = record { grows = omega arith; kept = λ i l u. refl; reads = p };
  };
}

module _ {Cell : Type 0} (A : Linked Cell) where
  abbrev pub Reads_nilable : Reading Cell (Option A.Held) (Option A.Seen)
  Reads_nilable lo hi h none none = Unit {0}
  Reads_nilable lo hi h (some x) (some v) = A.Reads lo hi h x v
  Reads_nilable lo hi h none (some v) = Never
  Reads_nilable lo hi h (some x) none = Never

  pub carry_nilable :
      {lo hi lo' hi' : ℕ} (g h : Heap Cell) (x : Option A.Held) (v : Option A.Seen)
      → lo' ≤ lo
      → hi ≤ hi'
      → Agree lo hi g h
      → Reads_nilable lo hi h x v
      → Reads_nilable lo' hi' g x v
  carry_nilable g h none none l u e p = tt
  carry_nilable g h (some x) (some v) l u e p = A.carry g h x v l u e p
  carry_nilable g h none (some v) l u e p = p
  carry_nilable g h (some x) none l u e p = p

  -- `if in.F != nil { … }`, behind the `*out = *in` that has copied a nil.
  abbrev pub copy_nilable : Option A.Held → Go Cell (Option A.Held)
  copy_nilable none = pure none
  copy_nilable (some x) = A.copy x >>= λ x'. pure (some x')

  pub nilable_copied :
      (h : Heap Cell) (x : Option A.Held) (v : Option A.Seen)
      → Reads_nilable 0 h.next h x v
      → Runs (copy_nilable x) h (λ x' h'. Copied Reads_nilable v h x' h')
  nilable_copied h none none p = record {
    result = none;
    final = h;
    runs = refl;
    post = record { grows = omega arith; kept = λ i l u. refl; reads = tt };
  }
  nilable_copied h (some x) (some v) p =
      one_copied A (λ x'. some x') Reads_nilable (some v) h x v p (λ lo hi g x' q. q)
  nilable_copied h none (some v) p = elim p [ ]
  nilable_copied h (some x) none p = elim p [ ]

  abbrev pub nilable : Linked Cell
  nilable = record {
    Held = Option A.Held;
    Seen = Option A.Seen;
    Reads = Reads_nilable;
    carry = carry_nilable;
    copy = copy_nilable;
    copied = nilable_copied;
  }

  abbrev pub Reads_each : Reading Cell (List A.Held) (List A.Seen)
  Reads_each lo hi h [] [] = Unit {0}
  Reads_each lo hi h (x ∷ xs) (v ∷ vs) = A.Reads lo hi h x v × Reads_each lo hi h xs vs
  Reads_each lo hi h [] (v ∷ vs) = Never
  Reads_each lo hi h (x ∷ xs) [] = Never

  pub carry_each :
      {lo hi lo' hi' : ℕ} (g h : Heap Cell) (x : List A.Held) (v : List A.Seen)
      → lo' ≤ lo
      → hi ≤ hi'
      → Agree lo hi g h
      → Reads_each lo hi h x v
      → Reads_each lo' hi' g x v
  carry_each g h [] [] l u e p = tt
  carry_each g h (x ∷ xs) (v ∷ vs) l u e (p, q) =
      (A.carry g h x v l u e p, carry_each g h xs vs l u e q)
  carry_each g h [] (v ∷ vs) l u e p = p
  carry_each g h (x ∷ xs) [] l u e p = p

  -- `for i := range *in { (*in)[i].DeepCopyInto(&(*out)[i]) }`
  abbrev pub copy_each : List A.Held → Go Cell (List A.Held)
  copy_each [] = pure []
  copy_each (x ∷ xs) = A.copy x >>= λ x'. copy_each xs >>= λ xs'. pure (x' ∷ xs')

  pub each_copied :
      (h : Heap Cell) (x : List A.Held) (v : List A.Seen)
      → Reads_each 0 h.next h x v
      → Runs (copy_each x) h (λ x' h'. Copied Reads_each v h x' h')
  each_copied h [] [] p = record {
    result = [];
    final = h;
    runs = refl;
    post = record { grows = omega arith; kept = λ i l u. refl; reads = tt };
  }
  each_copied h (x ∷ xs) (v ∷ vs) (p, q) =
      Runs-bind (A.copy x) (λ x'. copy_each xs >>= λ xs'. pure (x' ∷ xs')) h (A.copied h x v p)
        (λ x' h1 c.
          Runs-bind (copy_each xs) (λ xs'. pure (x' ∷ xs')) h1
            (each_copied h1 xs vs (carry_each h1 h xs vs (omega arith) c.grows c.kept q))
            (λ xs' h2 d.
              let rest = carry_each h2 h2 xs' vs c.grows (omega arith) (λ i l u. refl) d.reads in
              record {
                result = x' ∷ xs';
                final = h2;
                runs = refl;
                post = joined Reads_each (x' ∷ xs') (v ∷ vs) c d (first A c d, rest);
              }))
  each_copied h [] (v ∷ vs) p = elim p [ ]
  each_copied h (x ∷ xs) [] p = elim p [ ]

  abbrev pub each : Linked Cell
  each = record {
    Held = List A.Held;
    Seen = List A.Seen;
    Reads = Reads_each;
    carry = carry_each;
    copy = copy_each;
    copied = each_copied;
  }
