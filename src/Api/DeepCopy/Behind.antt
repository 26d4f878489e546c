-- ===== src/Api/DeepCopy/Behind.antt =====
-- Copies of what an address leads to: of a struct behind a pointer, of the elements of a slice, without
-- its spare capacity, which `make` does not keep.
use gateway_orchestrator.Prelude.{
  ◌≡◌, refl, ◌∙◌, ap, ℕ, suc, ◌≤◌, ◌<◌, arith, ok, some, ◌>>=◌, pure,
}
use gateway_orchestrator.Prelude.Triple.{bind_ok}
use gateway_orchestrator.Api.DeepCopy.Heap.{Heap, Go, Stored, load, store, reserve, write}
use gateway_orchestrator.Prelude.Running.{Runs}
use gateway_orchestrator.Api.DeepCopy.Linked.{Agree, Copied, Linked}

module _ {Cell : Type 0} (A : Linked Cell) (cells : Stored Cell A.Held) where
  -- The address leads to a value that reads so.
  pub record LeadsTo (lo hi : ℕ) (h : Heap Cell) (p : ℕ) (v : A.Seen) : Type 0 where
    pub from : lo ≤ p
    pub before : p < hi
    pub value : A.Held
    pub holds : h.cell p ≡ some (cells.box value)
    pub reads : A.Reads lo hi h value v

  pub carry_behind :
      {lo hi lo' hi' : ℕ} (g h : Heap Cell) (p : ℕ) (v : A.Seen)
      → lo' ≤ lo
      → hi ≤ hi'
      → Agree lo hi g h
      → LeadsTo lo hi h p v
      → LeadsTo lo' hi' g p v
  carry_behind g h p v l u e r =
      let from = r.from in
      let before = r.before in
      record {
        from = omega arith;
        before = omega arith;
        value = r.value;
        holds = e p from before ∙ r.holds;
        reads = A.carry g h r.value v l u e r.reads;
      }

  -- `out := new(T); in.DeepCopyInto(out)`, and the same with `make` for a slice.
  abbrev pub copy_behind : ℕ → Go Cell ℕ
  copy_behind p =
      reserve >>= λ q. load cells p >>= λ x. A.copy x >>= λ x'. store cells q x' >>= λ _. pure q

  load_holds :
      (h : Heap Cell) (p : ℕ) (x : A.Held)
      → h.cell p ≡ some (cells.box x)
      → load cells p h ≡ (ok x, h)
  unfolding load
  load_holds h p x e = rw (load, e, cells.unbox_box x) refl

  written :
      (h h1 : Heap Cell) (x : A.Held) (v : A.Seen)
      → Copied A.Reads v (record h { next = suc h.next }) x h1
      → Copied LeadsTo v h h.next (write h1 h.next (cells.box x))
  written h h1 x v c =
      let up : suc h.next ≤ h1.next = c.grows in
      record {
        grows = omega arith;
        kept = λ p l u. ground (arith, c.kept p l (omega arith));
        reads = record {
          from = omega arith;
          before = omega arith;
          value = x;
          holds = ground arith;
          reads =
              A.carry (write h1 h.next (cells.box x)) h1 x v (omega arith) (omega arith)
                (λ p l u. ground arith) c.reads;
        };
      }

  pub behind_copied :
      (h : Heap Cell) (p : ℕ) (v : A.Seen)
      → LeadsTo 0 h.next h p v
      → Runs (copy_behind p) h (λ q h'. Copied LeadsTo v h q h')
  unfolding reserve store
  behind_copied h p v r =
      let h0 : Heap Cell = record h { next = suc h.next } in
      let put : A.Held → Go Cell ℕ = λ x'. store cells h.next x' >>= λ _. pure (h.next) in
      let got = load_holds h0 p r.value r.holds in
      let seen : A.Reads 0 (h0.next) h0 r.value v =
        A.carry h0 h r.value v (omega arith) (omega arith) (λ i l u. refl) r.reads in
      let t = A.copied h0 r.value v seen in
      record {
        result = h.next;
        final = write t.final h.next (cells.box t.result);
        runs =
            bind_ok (load cells p) (λ x. A.copy x >>= put) h0 r.value (ap (λ z. z.0) got)
            ∙ ap (λ z. (A.copy r.value >>= put) z.1) got
            ∙ bind_ok (A.copy r.value) put h0 t.result (ap (λ z. z.0) t.runs)
            ∙ ap (λ z. put t.result z.1) t.runs;
        post = written h t.final t.result v t.post;
      }

  abbrev pub behind : Linked Cell
  behind = record {
    Held = ℕ;
    Seen = A.Seen;
    Reads = LeadsTo;
    carry = carry_behind;
    copy = copy_behind;
    copied = behind_copied;
  }
