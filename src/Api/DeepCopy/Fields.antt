-- ===== src/Api/DeepCopy/Fields.antt =====
-- Copies of a struct's fields, one after the other.
use gateway_orchestrator.Prelude.{refl, ◌∙◌, ℕ, ◌≤◌, arith, ◌>>=◌, pure}
use gateway_orchestrator.Api.DeepCopy.Heap.{Heap}
use gateway_orchestrator.Prelude.Running.{Runs, Runs-bind}
use gateway_orchestrator.Api.DeepCopy.Linked.{Agree, Reading, Copied, Linked}

module _ {Cell : Type 0} where
  -- What was readable stays so when memory is added.
  pub still :
      (A : Linked Cell) (h h' : Heap Cell) (x : A.Held) (v : A.Seen)
      → h.next ≤ h'.next
      → Agree 0 h.next h' h
      → A.Reads 0 h.next h x v
      → A.Reads 0 (h'.next) h' x v
  still A h h' x v grows kept p = A.carry h' h x v (omega arith) grows kept p

  -- A copy followed by another is a copy still, and so is the other.
  pub first :
      {S H : Type 0} {R : Reading Cell H S} {b : S} (A : Linked Cell) {v : A.Seen}
      {h h1 h2 : Heap Cell} {x : A.Held} {y : H}
      → Copied A.Reads v h x h1
      → Copied R b h1 y h2
      → A.Reads h.next h2.next h2 x v
  first A {v} {h} {h1} {h2} {x} c d =
      A.carry h2 h1 x v (omega arith) d.grows (λ p l u. d.kept p (omega arith) u) c.reads

  pub second :
      {S H : Type 0} {R : Reading Cell H S} {a : S} (B : Linked Cell) {v : B.Seen}
      {h h1 h2 : Heap Cell} {x : H} {y : B.Held}
      → Copied R a h x h1
      → Copied B.Reads v h1 y h2
      → B.Reads h.next h2.next h2 y v
  second B {v} {h} {h1} {h2} {x} {y} c d =
      B.carry h2 h2 y v c.grows (omega arith) (λ p l u. refl) d.reads

  pub joined :
      {S S' T H H' K : Type 0} {R : Reading Cell H S} {R' : Reading Cell H' S'} {a : S} {b : S'}
      {h h1 h2 : Heap Cell} {x : H} {y : H'} (Q : Reading Cell K T) (z : K) (v : T)
      → Copied R a h x h1
      → Copied R' b h1 y h2
      → Q h.next h2.next h2 z v
      → Copied Q v h z h2
  joined {h = h} {h1 = h1} Q z v c d q =
      let up = c.grows in
      let up' = d.grows in
      record {
        grows = omega arith;
        kept = λ p l u. d.kept p l (omega arith) ∙ c.kept p l u;
        reads = q;
      }

  pub one_copied :
      {T K : Type 0} (A : Linked Cell) (f : A.Held → K) (R : Reading Cell K T) (v : T)
      (h : Heap Cell) (x : A.Held) (a : A.Seen)
      → A.Reads 0 h.next h x a
      → ((lo hi : ℕ) (g : Heap Cell) (x' : A.Held) → A.Reads lo hi g x' a → R lo hi g (f x') v)
      → Runs (A.copy x >>= λ x'. pure (f x')) h (λ k h'. Copied R v h k h')
  one_copied A f R v h x a p build =
      Runs-bind (A.copy x) (λ x'. pure (f x')) h (A.copied h x a p)
        (λ x' h' c. record {
          result = f x';
          final = h';
          runs = refl;
          post = record { grows = c.grows; kept = c.kept; reads = build _ _ h' x' c.reads };
        })

  pub two_copied :
      {T K : Type 0} (A B : Linked Cell) (f : A.Held → B.Held → K) (R : Reading Cell K T) (v : T)
      (h : Heap Cell) (x : A.Held) (a : A.Seen) (y : B.Held) (b : B.Seen)
      → A.Reads 0 h.next h x a
      → B.Reads 0 h.next h y b
      → ((lo hi : ℕ) (g : Heap Cell) (x' : A.Held) (y' : B.Held)
          → A.Reads lo hi g x' a
          → B.Reads lo hi g y' b
          → R lo hi g (f x' y') v)
      → Runs (A.copy x >>= λ x'. B.copy y >>= λ y'. pure (f x' y')) h (λ k h'. Copied R v h k h')
  two_copied A B f R v h x a y b p q build =
      Runs-bind (A.copy x) (λ x'. B.copy y >>= λ y'. pure (f x' y')) h (A.copied h x a p)
        (λ x' h1 c.
          Runs-bind (B.copy y) (λ y'. pure (f x' y')) h1
            (B.copied h1 y b (still B h h1 y b c.grows c.kept q))
            (λ y' h2 d. record {
              result = f x' y';
              final = h2;
              runs = refl;
              post = joined R (f x' y') v c d (build _ _ h2 x' y' (first A c d) (second B c d));
            }))

  pub three_copied :
      {T K : Type 0} (A B C : Linked Cell) (f : A.Held → B.Held → C.Held → K) (R : Reading Cell K T)
      (v : T) (h : Heap Cell) (x : A.Held) (a : A.Seen) (y : B.Held) (b : B.Seen) (z : C.Held)
      (c : C.Seen)
      → A.Reads 0 h.next h x a
      → B.Reads 0 h.next h y b
      → C.Reads 0 h.next h z c
      → ((lo hi : ℕ) (g : Heap Cell) (x' : A.Held) (y' : B.Held) (z' : C.Held)
          → A.Reads lo hi g x' a
          → B.Reads lo hi g y' b
          → C.Reads lo hi g z' c
          → R lo hi g (f x' y' z') v)
      → Runs
          (A.copy x >>= λ x'. B.copy y >>= λ y'. C.copy z >>= λ z'. pure (f x' y' z'))
          h
          (λ k h'. Copied R v h k h')
  three_copied A B C f R v h x a y b z c p q r build =
      Runs-bind (A.copy x) (λ x'. B.copy y >>= λ y'. C.copy z >>= λ z'. pure (f x' y' z')) h
        (A.copied h x a p)
        (λ x' h1 d.
          Runs-bind (B.copy y) (λ y'. C.copy z >>= λ z'. pure (f x' y' z')) h1
            (B.copied h1 y b (still B h h1 y b d.grows d.kept q))
            (λ y' h2 e.
              let r1 = still C h h1 z c d.grows d.kept r in
              Runs-bind (C.copy z) (λ z'. pure (f x' y' z')) h2
                (C.copied h2 z c (still C h1 h2 z c e.grows e.kept r1))
                (λ z' h3 k.
                  let up = d.grows in
                  let up' = e.grows in
                  let both = joined A.Reads x' a d e (first A d e) in
                  let seen_y =
                    B.carry h3 h2 y' b (omega arith) k.grows (λ i l u. k.kept i (omega arith) u)
                      (second B d e) in
                  record {
                    result = f x' y' z';
                    final = h3;
                    runs = refl;
                    post =
                        joined R (f x' y' z') v both k
                          (build _ _ h3 x' y' z' (first A both k) seen_y (second C both k));
                  })))
